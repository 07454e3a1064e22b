-- ===== src/EasyFs/Layout/Tree/Collect.antt =====
-- The ids that `collect_tree` of easy-fs/src/layout.rs collects.
use lemon_core.Base.{
  ltb, ℕ, zero, suc, ◌+◌, ◌-◌, ◌*◌, ◌≤◌, ◌<◌, min, ◌≡◌, sym, ap, ◌∙◌, true, false, some, List, [],
  ◌∷◌, ◌++◌, append_assoc, append-nil, arith, dec_lt, leb, length, get_elem?, length-append,
}
use lemon_core.EasyFs.Layout.{DiskInode}
use lemon_core.EasyFs.Layout.Tree.{block_id, Store, collect_entries, collect_tree}
use lemon_core.EasyFs.Layout.Tree.Size.{
  cap, cap-pos, entries_size, tree_size, entries_size-zero, entries_size-none, entries_size-suc,
  entries_size-min,
}

-- A walk from a leaf before `last` collects the blocks that its leaves take.
abbrev pub Collects : ℕ → (ℕ → ℕ) → ℕ → (ℕ → List ℕ × ℕ → List ℕ × ℕ) → Type 0
Collects last size c walk =
    (id : ℕ) (collected : List ℕ) (leaf : ℕ)
    → leaf < last
    → let (collected', leaf') = walk id (collected, leaf) in
      (length collected' ≡ length collected + size (min (last - leaf) c))
      × (leaf' ≡ min last (leaf + c))

module _ (st : Store) (last : ℕ) (size : ℕ → ℕ) (c : ℕ) (child : ℕ → List ℕ × ℕ → List ℕ × ℕ)
    (collects : Collects last size c child) where
  collect_entries-length :
      (n i id : ℕ) (collected : List ℕ) (leaf : ℕ)
      → leaf ≤ last
      → let (collected', leaf') = collect_entries child st last id n i (collected, leaf) in
        (length collected' ≡ length collected + entries_size size c n (last - leaf))
        × (leaf' ≡ min last (leaf + n * c))
  unfolding collect_entries
  collect_entries-length zero i id collected leaf l =
      (omega (arith, entries_size-none size c (last - leaf)), omega arith)
  collect_entries-length (suc n) i id collected leaf l = elim (dec_lt leaf last) [
    | yes more ↦
        let go_on : leb last leaf ≡ false = ground arith in
        let more_ids : List ℕ = collected ++ (st id i ∷ []) in
        let (grown, reached) = collects (st id i) more_ids leaf more in
        let r : List ℕ × ℕ = child (st id i) (more_ids, leaf) in
        let (grown', reached') =
          collect_entries-length n (i + 1) id r.0 r.1 (omega (arith, reached)) in
        let e : last - r.1 ≡ last - leaf - c = omega (arith, reached) in
        rw go_on (
          omega (
            arith,
            grown',
            grown,
            ap (entries_size size c n) e,
            entries_size-suc size c n (last - leaf) (omega arith),
            length-append collected (st id i ∷ []),
          ),
          omega (arith, reached', reached),
        )
    | no done ↦
        let stop : leb last leaf ≡ true = ground arith in
        let z : last - leaf ≡ 0 = omega arith in
        rw stop (
          omega (arith, ap (entries_size size c (suc n)) z, entries_size-zero size c (suc n)),
          omega arith,
        )
  ]

pub collect_tree-Collects :
    (levels : ℕ) (st : Store) (last : ℕ)
    → Collects last (tree_size levels) (cap levels) (collect_tree levels st last)
unfolding collect_tree tree_size cap
collect_tree-Collects zero st last id collected leaf l = (omega arith, omega arith)
collect_tree-Collects (suc levels) st last id collected leaf l =
    let (grown, reached) =
      collect_entries-length st last (tree_size levels) (cap levels) (collect_tree levels st last)
        (collect_tree-Collects levels st last) 128 0 id collected leaf (omega arith) in
    (
      grown
          ∙ ap (λ k. length collected + k)
              (sym (
                entries_size-min (tree_size levels) (cap levels) 128 (last - leaf)
                  (cap-pos levels))),
      reached,
    )

-- The ids in entries `i`, `i + 1`, … of a block.
unfoldable pub entry_ids : Store → ℕ → ℕ → ℕ → List ℕ
entry_ids st id i zero = []
entry_ids st id i (suc n) = st id i ∷ entry_ids st id (i + 1) n

collect_entries-ids :
    (st : Store) (last id n i : ℕ) (collected : List ℕ) (leaf : ℕ)
    → (collect_entries (collect_tree 0 st last) st last id n i (collected, leaf)).0
      ≡ collected ++ entry_ids st id i (min n (last - leaf))
unfolding collect_entries collect_tree entry_ids
collect_entries-ids st last id zero i collected leaf =
    let z : min 0 (last - leaf) ≡ 0 = omega arith in rw z (sym (append-nil collected))
collect_entries-ids st last id (suc n) i collected leaf = elim (dec_lt leaf last) [
  | yes more ↦
      let go_on : leb last leaf ≡ false = ground arith in
      let k : min (suc n) (last - leaf) ≡ suc (min n (last - (leaf + 1))) = omega arith in
      rw (go_on, k)
        (collect_entries-ids st last id n (i + 1) (collected ++ (st id i ∷ [])) (leaf + 1)
          ∙ append_assoc collected (st id i ∷ []) _)
  | no done ↦
      let stop : leb last leaf ≡ true = ground arith in
      let z : min (suc n) (last - leaf) ≡ 0 = omega arith in
      rw (stop, z) (sym (append-nil collected))
]

-- A tree of one level gives the ids in the entries of its root.
pub collect_tree-ids :
    (st : Store) (last id : ℕ) (collected : List ℕ)
    → (collect_tree 1 st last id (collected, 0)).0
      ≡ collected ++ entry_ids st id 0 (min 128 (last - 0))
unfolding collect_tree
collect_tree-ids st last id collected = collect_entries-ids st last id 128 0 collected 0

pub length-entry_ids : (st : Store) (id i n : ℕ) → length (entry_ids st id i n) ≡ n
unfolding entry_ids
length-entry_ids st id i zero = omega arith
length-entry_ids st id i (suc n) = omega (arith, length-entry_ids st id (i + 1) n)

pub get_elem?-entry_ids :
    (st : Store) (id i n k : ℕ) → k < n → get_elem? (entry_ids st id i n) k ≡ some (st id (i + k))
unfolding entry_ids
get_elem?-entry_ids st id i zero k h = absurd (omega arith)
get_elem?-entry_ids st id i (suc n) zero h = let e : i + 0 ≡ i = omega arith in rw e
get_elem?-entry_ids st id i (suc n) (suc k) h =
    let e : i + suc k ≡ i + 1 + k = omega arith in
    rw e (get_elem?-entry_ids st id (i + 1) n k (omega arith))

-- The data blocks behind the direct ones are named in the first indirect block.
pub block_id-indirect1 :
    (ino : DiskInode) (st : Store) (k : ℕ)
    → k < 128
    → block_id ino (27 + k) st ≡ some (st ino.indirect1 k)
unfolding block_id
block_id-indirect1 ino st k h =
    let far : ltb (27 + k) 27 ≡ false = ground arith in
    let near : ltb (27 + k) 155 ≡ true = ground arith in
    let e : 27 + k - 27 ≡ k = omega arith in
    let in_range : ltb k 128 ≡ true = ground arith in rw (far, near, e, in_range)
