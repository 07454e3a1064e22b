-- ===== src/EasyFs/Layout/Tree/Build.antt =====
-- How many ids `build_tree` of easy-fs/src/layout.rs takes from the iterator.
use lemon_core.Base.{
  ℕ, zero, suc, ◌+◌, ◌-◌, ◌*◌, ◌≤◌, ◌<◌, min, ◌≡◌, refl, sym, ap, ◌∙◌, true, false, Option, some,
  List, [], ◌∷◌, arith, dec_lt, leb, length, drop, length-drop, drop-drop,
}
use lemon_core.EasyFs.Layout.Tree.{Store, Building, build_entries, build_tree, place, write_entry}
use lemon_core.EasyFs.Layout.Tree.Size.{
  cap, cap-pos, entries_size-min, entries_size, tree_size, entries_size-zero, entries_size-none,
  entries_size-suc, entries_size_mono, tree_size_mono, tree_size-zero,
}

-- What a walk leaves: `k` ids fewer, and the leaf `leaf` reached.
abbrev pub Leaves : Building → ℕ → ℕ → Option Building → Type 0
Leaves s k leaf r =
    (st : Store) × (r ≡ some (record { blocks = drop k s.blocks; store = st; cur_leaf = leaf }))

module _ (src dst : ℕ) where
  -- From a leaf before `dst`, a walk of a block with `c` leaves takes the ids by which its size
  -- grows between the leaves up to `src` and those up to `dst`.
  abbrev pub Takes : (ℕ → ℕ) → ℕ → (ℕ → Building → Option Building) → Type 0
  Takes size c walk =
      (id : ℕ) (s : Building) (k : ℕ)
      → s.cur_leaf < dst
      → k + size (min (src - s.cur_leaf) c) ≡ size (min (dst - s.cur_leaf) c)
      → k ≤ length s.blocks
      → Leaves s k (min dst (s.cur_leaf + c)) (walk id s)

stay : (s : Building) (k leaf : ℕ) → k ≡ 0 → leaf ≡ s.cur_leaf → Leaves s k leaf (some s)
stay s k leaf e f = (s.store, rw (e, f))

place-Leaves :
    (id i : ℕ) (s : Building) → 1 ≤ length s.blocks → Leaves s 1 s.cur_leaf (place id i s s.blocks)
unfolding place
place-Leaves id i s h = go s.blocks refl
  where
    go : (xs : List ℕ) → s.blocks ≡ xs → Leaves s 1 s.cur_leaf (place id i s xs)
    go [] e = absurd (omega (arith, ap length e))
    go (b ∷ rest) e = (write_entry s.store id i b, rw e)

-- Two walks one after the other.
Leaves-trans :
    (s : Building) (j k m leaf leaf' : ℕ) (st : Store) (r : Option Building)
    → j + k ≡ m
    → Leaves (record { blocks = drop j s.blocks; store = st; cur_leaf = leaf }) k leaf' r
    → Leaves s m leaf' r
Leaves-trans s j k m leaf leaf' st r e (st', run) = (st', run ∙ rw (drop-drop, e))

module _ (src dst : ℕ) (ordered : src ≤ dst) (size : ℕ → ℕ) (c : ℕ)
    (child : ℕ → Building → Option Building) (none_for_none : size 0 ≡ 0)
    (mono : (x y : ℕ) → x ≤ y → size x ≤ size y) (takes : Takes src dst size c child) where
  abbrev Loops : ℕ → Type 0
  Loops n =
      (i id : ℕ) (s : Building) (k : ℕ)
      → s.cur_leaf ≤ dst
      → k + entries_size size c n (src - s.cur_leaf) ≡ entries_size size c n (dst - s.cur_leaf)
      → k ≤ length s.blocks
      → Leaves s k (min dst (s.cur_leaf + n * c)) (build_entries child src dst id n i s)

  -- An entry that the walk has to fill, and the entries behind it.
  fresh_entry :
      (n i id : ℕ) (s : Building) (k : ℕ)
      → Loops n
      → s.cur_leaf < dst
      → src ≤ s.cur_leaf
      → k + entries_size size c (suc n) (src - s.cur_leaf)
        ≡ entries_size size c (suc n) (dst - s.cur_leaf)
      → k ≤ length s.blocks
      → Leaves s k (min dst (s.cur_leaf + suc n * c)) (build_entries child src dst id (suc n) i s)
  unfolding build_entries
  fresh_entry n i id s k ih l o e h =
      let leaf = s.cur_leaf in
      let leaf' : ℕ = min dst (leaf + c) in
      let m : ℕ = size (min (dst - leaf) c) in
      let z : src - leaf ≡ 0 = omega arith in
      let mz : min (src - leaf) c ≡ 0 = omega arith in
      let none_before = ap (entries_size size c (suc n)) z ∙ entries_size-zero size c (suc n) in
      let now = entries_size-suc size c n (dst - leaf) (omega arith) in
      let p : src - leaf' ≡ 0 = omega arith in
      let q : dst - leaf' ≡ dst - leaf - c = omega arith in
      let (st₁, e₁) = place-Leaves id i s (omega (arith, e, none_before, now)) in
      let s₁ : Building = record { blocks = drop 1 s.blocks; store = st₁; cur_leaf = leaf } in
      let (st₂, e₂) =
        takes (st₁ id i) s₁ m l (omega (arith, ap size mz, none_for_none))
          (omega (arith, length-drop 1 s.blocks, e, none_before, now)) in
      let s₂ : Building = record { blocks = drop m s₁.blocks; store = st₂; cur_leaf = leaf' } in
      let more : leb dst leaf ≡ false = ground arith in
      let fresh : leb src leaf ≡ true = ground arith in
      let rest =
        ih (i + 1) id s₂ (k - 1 - m) (omega arith)
          (rw (p, q) (omega (arith, e, none_before, now, entries_size-zero size c n)))
          (omega (arith, length-drop 1 s.blocks, length-drop m s₁.blocks, e, none_before, now)) in
      let end : min dst (leaf' + n * c) ≡ min dst (leaf + suc n * c) = omega arith in
      rw (more, fresh, e₁, e₂, ← end)
        (Leaves-trans s 1 (k - 1) k leaf _ st₁ _ (omega (arith, e, none_before, now)) (
          Leaves-trans s₁ m (k - 1 - m) (k - 1) leaf' _ st₂ _ (omega (arith, e, none_before, now))
            rest))

  -- An entry that is filled already, and the entries behind it.
  old_entry :
      (n i id : ℕ) (s : Building) (k : ℕ)
      → Loops n
      → s.cur_leaf < src
      → k + entries_size size c (suc n) (src - s.cur_leaf)
        ≡ entries_size size c (suc n) (dst - s.cur_leaf)
      → k ≤ length s.blocks
      → Leaves s k (min dst (s.cur_leaf + suc n * c)) (build_entries child src dst id (suc n) i s)
  unfolding build_entries
  old_entry n i id s k ih o e h =
      let leaf = s.cur_leaf in
      let leaf' : ℕ = min dst (leaf + c) in
      let low = mono (min (src - leaf) c) (min (dst - leaf) c) (omega arith) in
      let high = entries_size_mono size c n mono (src - leaf - c) (dst - leaf - c) (omega arith) in
      let m : ℕ = size (min (dst - leaf) c) - size (min (src - leaf) c) in
      let before = entries_size-suc size c n (src - leaf) (omega arith) in
      let now = entries_size-suc size c n (dst - leaf) (omega arith) in
      let p : src - leaf' ≡ src - leaf - c = omega arith in
      let q : dst - leaf' ≡ dst - leaf - c = omega arith in
      let (st₂, e₂) =
        takes (s.store id i) s m (omega arith) (omega (arith, low))
          (omega (arith, e, before, now, low, high)) in
      let s₂ : Building = record { blocks = drop m s.blocks; store = st₂; cur_leaf = leaf' } in
      let more : leb dst leaf ≡ false = ground arith in
      let old : leb src leaf ≡ false = ground arith in
      let rest =
        ih (i + 1) id s₂ (k - m) (omega arith)
          (rw (p, q) (omega (arith, e, before, now, low, high)))
          (omega (arith, length-drop m s.blocks, e, before, now, low, high)) in
      let end : min dst (leaf' + n * c) ≡ min dst (leaf + suc n * c) = omega arith in
      rw (more, old, e₂, ← end)
        (Leaves-trans s m (k - m) k leaf' _ st₂ _ (omega (arith, e, before, now, low, high)) rest)

  pub build_entries-Leaves : (n : ℕ) → Loops n
  unfolding build_entries
  build_entries-Leaves zero i id s k l e h =
      stay s k _
        (omega (
          arith,
          entries_size-none size c (src - s.cur_leaf),
          entries_size-none size c (dst - s.cur_leaf),
        ))
        (omega arith)
  build_entries-Leaves (suc n) i id s k l e h = elim (dec_lt s.cur_leaf dst) [
    | yes more ↦ elim (dec_lt s.cur_leaf src) [
      | yes old ↦ old_entry n i id s k (build_entries-Leaves n) old e h
      | no fresh ↦ fresh_entry n i id s k (build_entries-Leaves n) more (omega arith) e h
    ]
    | no done ↦
        let stop : leb dst s.cur_leaf ≡ true = ground arith in
        let z : dst - s.cur_leaf ≡ 0 = omega arith in
        let none_left = ap (entries_size size c (suc n)) z ∙ entries_size-zero size c (suc n) in
        rw stop (stay s k _ (omega (arith, e, none_left)) (omega arith))
  ]

-- `build_tree` over so many levels does not run out of ids if the iterator has as many as the tree
-- grows by, takes just those, and stops at the last leaf wanted or at the end of the tree.
pub build_tree-Takes :
    (levels src dst : ℕ)
    → src ≤ dst
    → Takes src dst (tree_size levels) (cap levels) (build_tree levels src dst)
unfolding build_tree tree_size cap
build_tree-Takes zero src dst o id s k l e h =
    stay (record s { cur_leaf = s.cur_leaf + 1 }) k _ (omega (arith, e)) (omega arith)
build_tree-Takes (suc levels) src dst o id s k l e h =
    let size = tree_size levels in
    let c = cap levels in
    let whole = λ (x : ℕ). entries_size-min size c 128 x (cap-pos levels) in
    build_entries-Leaves src dst o size c (build_tree levels src dst) (tree_size-zero levels)
      (tree_size_mono levels) (build_tree-Takes levels src dst o) 128 0 id s k (omega arith)
      (ap (λ t. k + t) (sym (whole (src - s.cur_leaf))) ∙ e ∙ whole (dst - s.cur_leaf)) h
