-- ===== src/Kernel/PageTable/Tree.antt =====
-- The frames of a page table as a tree, and the entry that a page has in it.
use lemon_core.Base.{
  ℕ, ◌+◌, ◌≤◌, ◌<◌, ◌≡◌, sym, ap, ◌∙◌, inl, inr, true, Option, some, List, [], ◌∷◌, arith, ltb,
  if◌then◌else◌, Bool-cases, length, All,
}
use mathlib.Core.Option.{some-injective}
use lemon_core.Kernel.Frames.{Memory}
use lemon_core.Kernel.Frames.Ownership.{IsValid, in_use}
use lemon_core.Kernel.PageEntry.{PageTableEntry, empty, ppn, is_valid}
use lemon_core.Kernel.PageTable.{load, Space, walk}

-- The place of a frame in the tree: the indices that lead to it, the last one first; `none` is a
-- frame that is no part of the tree.
abbrev pub Owner : Type 0
Owner = ℕ → Option (List ℕ)

-- Every valid entry of the two upper levels leads to a frame with its place, so no frame has two.
pub record IsTree (start : ℕ) (s : Space) (owner : Owner) : Type 0 where
  pub frames : IsValid start s.frames
  pub top : owner s.table.root_ppn ≡ some []
  pub below :
      (frame i : ℕ) (path : List ℕ)
      → owner frame ≡ some path
      → length path < 2
      → i < 512
      → is_valid (load s.memory frame i) ≡ true
      → owner (ppn (load s.memory frame i)) ≡ some (i ∷ path)
  pub used :
      (frame : ℕ) (path : List ℕ) → owner frame ≡ some path → in_use start s.frames frame ≡ true

-- The entry that the indices lead to from a frame.
abbrev pub look : Memory → ℕ → List ℕ → PageTableEntry
look m frame [] = empty
look m frame (i ∷ []) = load m frame i
look m frame (i ∷ j ∷ rest) =
    let below = look m (ppn (load m frame i)) (j ∷ rest) in
    if is_valid (load m frame i) then below else empty

abbrev pub reverse_onto : List ℕ → List ℕ → List ℕ
reverse_onto [] path = path
reverse_onto (i ∷ idxs) path = reverse_onto idxs (i ∷ path)

-- The place of the frame that `walk` ends at.
pub walk-owner :
    (start : ℕ) (s : Space) (owner : Owner) (frame frame' : ℕ) (path idxs : List ℕ)
    → IsTree start s owner
    → owner frame ≡ some path
    → length path + length idxs ≤ 2
    → All (λ i. i < 512) idxs
    → walk s.memory frame idxs ≡ some frame'
    → owner frame' ≡ some (reverse_onto idxs path)
unfolding walk
walk-owner start s owner frame frame' path [] t o l a e = ap owner (sym (some-injective _ _ e)) ∙ o
walk-owner start s owner frame frame' path (i ∷ idxs) t o l a e =
    let small : ltb i 512 ≡ true = ground (arith, a.0) in
    elim (Bool-cases (is_valid (load s.memory frame i))) [
      | inl v ↦
          walk-owner start s owner (ppn (load s.memory frame i)) frame' (i ∷ path) idxs t
            (t.below frame i path o (omega arith) a.0 v) (omega arith) a.1 (rw (small, v) at e)
      | inr n ↦ absurd (ground (arith, (rw (small, n) at e)))
    ]
