-- ===== src/Kernel/PageTable/Walks.antt =====
-- The walks of a page table from its root.
use lemon_core.Base.{
  ℕ, ◌+◌, ◌≤◌, ◌<◌, ◌≡◌, refl, ◌∙◌, true, some, List, [], ◌∷◌, arith, ltb, length, All,
}
use lemon_core.Kernel.Frames.{Memory}
use lemon_core.Kernel.Frames.Room.{available}
use lemon_core.Kernel.PageEntry.{PageTableEntry, ppn, is_valid}
use lemon_core.Kernel.PageTable.{load, Space, walk, walk_then_alloc, grow}
use lemon_core.Kernel.PageTable.Tree.{Owner, IsTree, reverse_onto}
use lemon_core.Kernel.PageTable.Extends.{Extends, Extends-refl, Extends-trans}
use lemon_core.Kernel.PageTable.Grow.{grow-Extends}

-- `walk_then_alloc` with a frame left for each index.
pub walk_then_alloc-Extends :
    (start : ℕ) (s : Space) (owner : Owner) (frame : ℕ) (path idxs : List ℕ)
    → IsTree start s owner
    → owner frame ≡ some path
    → length path + length idxs ≤ 2
    → All (λ i. i < 512) idxs
    → length idxs ≤ available s.frames
    → (frame' : ℕ) × (s' : Space) × (owner' : Owner) × (walk_then_alloc s frame idxs
        ≡ some (frame', s'))
      × Extends start s owner s' owner'
      × (owner' frame' ≡ some (reverse_onto idxs path))
      × (walk s'.memory frame idxs ≡ some frame')
      × (available s.frames ≤ available s'.frames + length idxs)
unfolding walk_then_alloc walk
walk_then_alloc-Extends start s owner frame path [] t o l a room =
    (frame, s, owner, refl, Extends-refl start s owner t, o, refl, omega arith)
walk_then_alloc-Extends start s owner frame path (i ∷ idxs) t o l a room =
    let small : ltb i 512 ≡ true = ground (arith, a.0) in
    let (s1, owner1, grew, e1, v1, r1) =
      grow-Extends start s owner frame i path t o (omega arith) a.0 (omega arith) in
    let here = e1.kept frame path o in
    let (frame', s2, owner2, walked, e2, place, again, r2) =
      walk_then_alloc-Extends start s1 owner1 (ppn (load s1.memory frame i)) (i ∷ path) idxs e1.tree
        (e1.tree.below frame i path here (omega arith) a.0 v1) (omega arith) a.1 (omega arith) in
    let same = e2.entries frame i path here v1 in
    (
      frame',
      s2,
      owner2,
      unrolled s frame i idxs s1 small grew ∙ walked,
      Extends-trans e1 e2,
      place,
      rewalk s2.memory frame i idxs (load s1.memory frame i) small same v1 ∙ again,
      omega arith,
    )
  where
    unrolled :
        (s : Space) (frame i : ℕ) (idxs : List ℕ) (s1 : Space)
        → ltb i 512 ≡ true
        → grow s frame i ≡ some s1
        → walk_then_alloc s frame (i ∷ idxs)
          ≡ walk_then_alloc s1 (ppn (load s1.memory frame i)) idxs
    unrolled s frame i idxs s1 small grew = rw (small, grew) refl

    rewalk :
        (m : Memory) (frame i : ℕ) (idxs : List ℕ) (e : PageTableEntry)
        → ltb i 512 ≡ true
        → load m frame i ≡ e
        → is_valid e ≡ true
        → walk m frame (i ∷ idxs) ≡ walk m (ppn e) idxs
    rewalk m frame i idxs e small same v = rw (small, same, v) refl
