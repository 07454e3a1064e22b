-- ===== src/Kernel/PageTable/Fresh.antt =====
-- A new page table.
use lemon_core.Base.{
  ℕ, ◌+◌, ◌/◌, ◌%◌, ◌^◌, ◌≤◌, ◌≡◌, refl, ap, subst, ◌∙◌, inl, inr, true, false, none, some, [], ◌∷◌,
  arith, ◌==◌, if◌then◌else◌, ==_iff, Bool-cases,
}
use lemon_core.Kernel.Frames.{Memory, StackFrameAllocator}
use lemon_core.Kernel.Frames.Ownership.{IsValid, in_use}
use lemon_core.Kernel.Frames.Room.{available, alloc_tracked-Allocated}
use lemon_core.Kernel.PageEntry.{empty}
use lemon_core.Kernel.PageTable.{load, Space, new, new_table}
use lemon_core.Kernel.PageTable.Words.{load-zero, empty-invalid}
use lemon_core.Kernel.PageTable.Tree.{Owner, IsTree}
use lemon_core.Kernel.PageTable.Changes.{page_map, page_map-look}

-- `new` with a frame left succeeds: its table is a tree of one frame, in which no page has an entry,
-- and the frames that were in use keep their bytes.
pub new-IsTree :
    (start : ℕ) (m : Memory) (a : StackFrameAllocator)
    → IsValid start a
    → 1 ≤ available a
    → (s : Space) × (owner : Owner) × (new m a ≡ some s)
      × IsTree start s owner
      × ((vpn : ℕ) → page_map s vpn ≡ none)
      × (s.table.data_frames ≡ [])
      × (available a ≤ available s.frames + 1)
      × ((f j : ℕ)
          → in_use start a f ≡ true
          → (owner f ≡ none) × (in_use start s.frames f ≡ true) × (s.memory f j ≡ m f j))
unfolding new new_table
new-IsTree start m a v room =
    let (frame, m', a', z) = alloc_tracked-Allocated start m a v room in
    let same : frame == frame ≡ true = (==_iff frame frame).1 refl in
    let zeros : (k : ℕ) → load m' frame k ≡ empty =
      λ k. load-zero m' frame k (λ j. z.cleared frame j ∙ rw same refl) in
    let s : Space = record {
      table = record { root_ppn = frame; data_frames = []; metadata_frames = frame ∷ [] };
      memory = m';
      frames = a';
    } in
    let owner : Owner = λ f. if frame == f then some [] else none in
    (
      s,
      owner,
      ap new_table z.result,
      record {
        frames = z.valid;
        top = rw same refl;
        below = λ f i path o l h q. elim (Bool-cases (frame == f)) [
          | inl e ↦ absurd (
              ground (
                arith,
                subst (λ x. load m' x i ≡ empty) ((==_iff frame f).0 e) (zeros i),
                empty-invalid,
                q,
              ))
          | inr n ↦ absurd (ground (arith, (rw n at o)))
        ];
        used = λ f path o. elim (Bool-cases (frame == f)) [
          | inl e ↦ z.marked f ∙ rw e refl
          | inr n ↦ absurd (ground (arith, (rw n at o)))
        ];
      },
      λ vpn.
          page_map-look s vpn
          ∙ rw (zeros (vpn / 2 ^ 18 % 2 ^ 9), empty-invalid) (rw empty-invalid refl),
      refl,
      omega (arith, z.left),
      λ f j u.
          let apart : frame == f ≡ false = elim (Bool-cases (frame == f)) [
            | inl e ↦ absurd (ground (arith, u, z.fresh, (==_iff frame f).0 e))
            | inr n ↦ n
          ] in
          (rw apart refl, z.marked f ∙ rw apart u, z.cleared f j ∙ rw apart refl),
    )
