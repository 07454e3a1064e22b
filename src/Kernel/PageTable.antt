-- ===== src/Kernel/PageTable.antt =====
-- kernel/src/mm/page_table.rs: the page table of SV39, in the frames of physical memory. A reference
-- to an entry is the frame and the index that it stands at.
use lemon_core.Base.{
  ℕ, zero, suc, ◌+◌, ◌-◌, ◌*◌, ◌/◌, ◌%◌, ◌^◌, bit_or, not, ◌&&◌, Option, none, some, List, [], ◌∷◌,
  ◌++◌, ltb, leb, ◌==◌, if◌then◌else◌, ◌>>=◌, ◌>>◌, assert,
}
use lemon_core.Kernel.Address.{phys_addr_from, by_floor, page_offset, indexes}
use lemon_core.Kernel.Frames.{StackFrameAllocator, Memory, ppn_from, alloc_tracked}
use lemon_core.Kernel.PageEntry.{PageTableEntry, new as entry, empty, ppn, is_valid}
pub mod Words
pub mod Tree
pub mod Extends
pub mod Grow
pub mod Walks
pub mod Leaf
pub mod Changes
pub mod Quiet
pub mod Mapping
pub mod Fresh
pub mod Samples
mod Tests

abbrev pub v_flag : ℕ
v_flag = 1

-- The number that the `n` bytes from `a` on stand for, the lowest byte first.
abbrev pub le_value : ℕ → (ℕ → ℕ) → ℕ → ℕ
le_value zero bytes a = 0
le_value (suc n) bytes a = bytes a + 256 * le_value n bytes (a + 1)

-- Byte `k` of a number.
abbrev pub digit : ℕ → ℕ → ℕ
digit v zero = v % 256
digit v (suc k) = digit (v / 256) k

-- Entry `i` of `as_mut_pte_array()` of a frame, read and written.
pub load : Memory → ℕ → ℕ → PageTableEntry
load m frame i = record { bits = le_value 8 (m frame) (8 * i) }

pub store_entry : Memory → ℕ → ℕ → PageTableEntry → Memory
store_entry m frame i e p j =
    if frame == p && (leb (8 * i) j && ltb j (8 * i + 8)) then digit e.bits (j - 8 * i) else m p j

-- `as_mut_pte_array().get_mut(idx)`.
abbrev pub get_entry : ℕ → ℕ → Option (ℕ × ℕ)
get_entry frame idx = if ltb idx 512 then some (frame, idx) else none

-- A map of the source is a list of pairs here.
pub record PageTable : Type 0 where
  pub root_ppn : ℕ
  pub data_frames : List (ℕ × ℕ)
  pub metadata_frames : List ℕ

-- A page table, physical memory and the frame allocator.
pub record Space : Type 0 where
  pub table : PageTable
  pub memory : Memory
  pub frames : StackFrameAllocator

-- On what `alloc` gives; `none` is the `unwrap` that fails.
new_table : Option ℕ × Memory × StackFrameAllocator → Option Space
new_table (none, m, a) = none
new_table (some frame, m, a) = some (record {
  table = record { root_ppn = frame; data_frames = []; metadata_frames = frame ∷ [] };
  memory = m;
  frames = a;
})

pub new : Memory → StackFrameAllocator → Option Space
unfolding new_table
new m a = new_table (alloc_tracked m a)

pub from_token : ℕ → PageTable
from_token satp = record {
  root_ppn = ppn_from (satp % 2 ^ 44);
  data_frames = [];
  metadata_frames = [];
}

pub token : PageTable → ℕ
token t = 8 * 2 ^ 60 + t.root_ppn

-- The loop of `find_pte`: the frame that the indices lead to from a frame.
pub walk : Memory → ℕ → List ℕ → Option ℕ
unfolding load
walk m frame [] = some frame
walk m frame (idx ∷ idxs) =
    let e = load m frame idx in
    let rest = walk m (ppn e) idxs in do at ← get_entry frame idx; if is_valid e then rest else none

pub find_pte : Space → ℕ → Option (ℕ × ℕ)
unfolding walk
find_pte s vpn =
    let (i0, i1, i2) = indexes vpn in
    do frame ← walk s.memory s.table.root_ppn (i0 ∷ i1 ∷ []); get_entry frame i2

-- The step to the frame of an entry, with the entry made when it is not valid.
grow_at : Space → ℕ → ℕ → Option ℕ × Memory × StackFrameAllocator → Option Space
grow_at s frame idx (none, m, a) = none
grow_at s frame idx (some new_frame, m, a) = some (record {
  table = record s.table { metadata_frames = s.table.metadata_frames ++ (new_frame ∷ []) };
  memory = store_entry m frame idx (entry new_frame v_flag);
  frames = a;
})

pub grow : Space → ℕ → ℕ → Option Space
unfolding grow_at store_entry load
grow s frame idx =
    if is_valid (load s.memory frame idx)
    then some s
    else grow_at s frame idx (alloc_tracked s.memory s.frames)

-- The loop of `find_pte_then_alloc`.
pub walk_then_alloc : Space → ℕ → List ℕ → Option (ℕ × Space)
unfolding grow load
walk_then_alloc s frame [] = some (frame, s)
walk_then_alloc s frame (idx ∷ idxs) = do
  at ← get_entry frame idx
  s' ← grow s frame idx
  walk_then_alloc s' (ppn (load s'.memory frame idx)) idxs

pub find_pte_then_alloc : Space → ℕ → Option ((ℕ × ℕ) × Space)
unfolding walk_then_alloc
find_pte_then_alloc s vpn =
    let (i0, i1, i2) = indexes vpn in
    do
      (frame, s') ← walk_then_alloc s s.table.root_ppn (i0 ∷ i1 ∷ [])
      at ← get_entry frame i2
      some (at, s')

-- `none` is a panic.
pub map : Space → ℕ → ℕ → ℕ → Option Space
unfolding find_pte_then_alloc load store_entry
map s vpn page flags = do
  ((frame, idx), s') ← find_pte_then_alloc s vpn
  assert (not (is_valid (load s'.memory frame idx)))
  some (record s' { memory = store_entry s'.memory frame idx (entry page (bit_or flags v_flag)) })

pub unmap : Space → ℕ → Option Space
unfolding find_pte load store_entry
unmap s vpn = do
  (frame, idx) ← find_pte s vpn
  assert (is_valid (load s.memory frame idx))
  some (record s { memory = store_entry s.memory frame idx empty })

pub translate : Space → ℕ → Option PageTableEntry
unfolding find_pte load
translate s vpn = do (frame, idx) ← find_pte s vpn; some (load s.memory frame idx)

pub translate_va : Space → ℕ → Option ℕ
unfolding find_pte load
translate_va s va = do
  (frame, idx) ← find_pte s (by_floor va)
  let e = load s.memory frame idx
  some (phys_addr_from (ppn e * 2 ^ 12 + page_offset va))
