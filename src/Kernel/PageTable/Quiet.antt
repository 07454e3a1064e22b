-- ===== src/Kernel/PageTable/Quiet.antt =====
-- A step of the machine that leaves the frames of a page table alone.
use lemon_core.Base.{
  ℕ, ◌+◌, ◌<◌, ◌≡◌, refl, sym, ap, ◌∙◌, inl, inr, true, some, List, [], ◌∷◌, arith, Bool-cases,
  length, All,
}
use lemon_core.Kernel.Frames.Ownership.{IsValid, in_use}
use lemon_core.Kernel.PageEntry.{ppn, is_valid}
use lemon_core.Kernel.PageTable.{load, Space}
use lemon_core.Kernel.PageTable.Words.{load_ext}
use lemon_core.Kernel.PageTable.Tree.{Owner, IsTree, look}
use lemon_core.Kernel.PageTable.Changes.{page_map, valid_only, page_map-look, digits, digits_small}

-- The frames of the tree of `s` are in use in `s'`, with the same bytes.
pub record IsQuiet (start : ℕ) (s : Space) (owner : Owner) (s' : Space) : Type 0 where
  pub frames : IsValid start s'.frames
  pub root : s'.table.root_ppn ≡ s.table.root_ppn
  pub used : (f : ℕ) (path : List ℕ) → owner f ≡ some path → in_use start s'.frames f ≡ true
  pub same : (f j : ℕ) (path : List ℕ) → owner f ≡ some path → s'.memory f j ≡ s.memory f j

module _ (start : ℕ) (s : Space) (owner : Owner) (s' : Space) (t : IsTree start s owner)
    (q : IsQuiet start s owner s') where
  load_same :
      (f k : ℕ) (path : List ℕ) → owner f ≡ some path → load s'.memory f k ≡ load s.memory f k
  load_same f k path o = load_ext s'.memory s.memory f k (λ j. q.same f j path o)

  pub quiet-IsTree : IsTree start s' owner
  quiet-IsTree = record {
    frames = q.frames;
    top = ap owner q.root ∙ t.top;
    below = λ f i path o l h v.
        let same = load_same f i path o in
        rw same (t.below f i path o l h (ap is_valid (sym same) ∙ v));
    used = q.used;
  }

  quiet-look :
      (f : ℕ) (path idxs : List ℕ)
      → owner f ≡ some path
      → length path + length idxs ≡ 3
      → All (λ i. i < 512) idxs
      → look s'.memory f idxs ≡ look s.memory f idxs
  quiet-look f path [] o l a = refl
  quiet-look f path (k ∷ []) o l a = load_same f k path o
  quiet-look f path (k ∷ j ∷ rest) o l a =
      let same = load_same f k path o in
      elim (Bool-cases (is_valid (load s.memory f k))) [
        | inl v ↦
            rw (same, v)
              (quiet-look (ppn (load s.memory f k)) (k ∷ path) (j ∷ rest)
                (t.below f k path o (omega (arith, l)) a.0 v) (omega (arith, l)) a.1)
        | inr n ↦ rw (same, n) refl
      ]

  -- Every page has the entry that it had.
  pub quiet-page_map : (v : ℕ) → page_map s' v ≡ page_map s v
  quiet-page_map v =
      page_map-look s' v
      ∙ (ap (λ r. valid_only (some (look s'.memory r (digits v)))) q.root
          ∙ (ap (λ e. valid_only (some e))
                (quiet-look s.table.root_ppn [] (digits v) t.top (omega arith) (digits_small v))
              ∙ sym (page_map-look s v)))
