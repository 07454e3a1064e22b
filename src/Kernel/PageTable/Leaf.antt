-- ===== src/Kernel/PageTable/Leaf.antt =====
-- An entry of the lowest level written over.
use lemon_core.Base.{
  ℕ, ◌+◌, ◌≤◌, ◌<◌, ◌≡◌, refl, sym, ap, ap₂, ◌∙◌, ◌≢◌, inl, inr, false, ◌&&◌, some, List, [], ◌∷◌,
  arith, ◌==◌, ==_iff, Bool-cases, length, ◌>>=◌, All,
}
use mathlib.Core.Option.{some-injective}
use lemon_core.Kernel.PageEntry.{PageTableEntry, ppn, is_valid}
use lemon_core.Kernel.PageTable.{get_entry, load, store_entry, Space, walk}
use lemon_core.Kernel.PageTable.Words.{load-store_entry_ne}
use lemon_core.Kernel.PageTable.Tree.{Owner, IsTree, look, reverse_onto}

module _ (start : ℕ) (s : Space) (owner : Owner) (t : IsTree start s owner) (leaf idx : ℕ)
    (place : List ℕ) (low : length place ≡ 2) (o : owner leaf ≡ some place)
    (e : PageTableEntry) where
  abbrev pub stored : Space
  stored = record s { memory = store_entry s.memory leaf idx e }

  upper_ne : (f : ℕ) (path : List ℕ) → owner f ≡ some path → length path < 2 → leaf == f ≡ false
  upper_ne f path p l = elim (Bool-cases (leaf == f)) [
    | inl q ↦
        let same : place ≡ path = some-injective _ _ (sym o ∙ ap owner ((==_iff leaf f).0 q) ∙ p) in
        absurd (omega (arith, ap length same, low))
    | inr n ↦ n
  ]

  upper_same :
      (f k : ℕ) (path : List ℕ)
      → owner f ≡ some path
      → length path < 2
      → load stored.memory f k ≡ load s.memory f k
  upper_same f k path p l =
      load-store_entry_ne s.memory leaf idx f k e (rw (upper_ne f path p l) refl)

  pub stored-IsTree : IsTree start stored owner
  stored-IsTree = record {
    frames = t.frames;
    top = t.top;
    below = λ f k path p l h v.
        let same = upper_same f k path p l in
        rw same (t.below f k path p l h (ap is_valid (sym same) ∙ v));
    used = t.used;
  }

  pub stored-walk :
      (f : ℕ) (path idxs : List ℕ)
      → owner f ≡ some path
      → length path + length idxs ≤ 2
      → All (λ i. i < 512) idxs
      → walk stored.memory f idxs ≡ walk s.memory f idxs
  unfolding walk
  stored-walk f path [] p l a = refl
  stored-walk f path (i ∷ idxs) p l a =
      let same = upper_same f i path p (omega arith) in
      elim (Bool-cases (is_valid (load s.memory f i))) [
        | inl v ↦
            rw (same, v)
              (ap (λ w. get_entry f i >>= λ at. w)
                (stored-walk (ppn (load s.memory f i)) (i ∷ path) idxs
                  (t.below f i path p (omega arith) a.0 v) (omega arith) a.1))
        | inr n ↦ rw (same, n) refl
      ]

  pub stored-look :
      (f : ℕ) (path idxs : List ℕ)
      → owner f ≡ some path
      → length path + length idxs ≡ 3
      → All (λ i. i < 512) idxs
      → reverse_onto idxs path ≢ idx ∷ place
      → look stored.memory f idxs ≡ look s.memory f idxs
  stored-look f path [] p l a ne = refl
  stored-look f path (k ∷ []) p l a ne =
      load-store_entry_ne s.memory leaf idx f k e (elim (Bool-cases (leaf == f && idx == k)) [
        | inl q ↦
            let (ef, ek) : (leaf ≡ f) × (idx ≡ k) = ground arith in
            absurd (
              ne (ap₂ (λ x y. x ∷ y) (sym ek) (some-injective _ _ (sym p ∙ ap owner (sym ef) ∙ o))))
        | inr n ↦ n
      ])
  stored-look f path (k ∷ j ∷ rest) p l a ne =
      let same = upper_same f k path p (omega arith) in
      elim (Bool-cases (is_valid (load s.memory f k))) [
        | inl v ↦
            rw (same, v)
              (stored-look (ppn (load s.memory f k)) (k ∷ path) (j ∷ rest)
                (t.below f k path p (omega arith) a.0 v) (omega arith) a.1 ne)
        | inr n ↦ rw (same, n) refl
      ]
