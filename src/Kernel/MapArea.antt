-- ===== src/Kernel/MapArea.antt =====
-- kernel/src/mm/memory_set.rs: an area of pages mapped in one way. `none` is a panic.
use lemon_core.Base.{
  ℕ, zero, suc, ◌+◌, ◌-◌, ◌%◌, ◌^◌, min, Bool, true, false, ◌&&◌, Option, none, some, List, [], ◌∷◌,
  ltb, ◌==◌, if◌then◌else◌, length, get_or, take, drop, ◌>>=◌, ◌>>◌, assert,
}
use lemon_core.Kernel.Address.{by_floor, by_ceil, SimpleRange, new as new_range, collect}
use lemon_core.Kernel.Frames.{StackFrameAllocator, Memory, alloc_tracked, dealloc}
use lemon_core.Kernel.PageEntry.{ppn}
use lemon_core.Kernel.PageTable.{Space, map as map_page, unmap as unmap_page, translate}
use lemon_core.Kernel.Recycle.{page_size}
pub mod Backing
pub mod Spans
pub mod Pushed
pub mod Dropped
pub mod Keys
use lemon_core.Kernel.Sync.{ℤ, pos, negsuc}

pub data MapType : Type 0 where
  identical framed : MapType
  linear : ℤ → MapType

-- `map_perm` is the set of flags of the entries.
pub record MapArea : Type 0 where
  pub vpn_range : SimpleRange
  pub map_type : MapType
  pub map_perm : ℕ

pub new : ℕ → ℕ → MapType → ℕ → Option MapArea
new start_va end_va map_type map_perm = do
  range ← new_range (by_floor start_va) (by_ceil end_va)
  some (record { vpn_range = range; map_type = map_type; map_perm = map_perm })

abbrev pub is_framed : MapType → Bool
is_framed framed = true
is_framed identical = false
is_framed (linear offset) = false

-- `(vpn.0 as isize + pn_offset) as usize`.
abbrev offset_page : ℕ → ℤ → ℕ
offset_page vpn (pos n) = (vpn + n) % 2 ^ 64
offset_page vpn (negsuc n) = (vpn + (2 ^ 64 - 1 - n)) % 2 ^ 64

-- The tracker of a page in `data_frames`, and the map without it.
abbrev pub frame_of : ℕ → List (ℕ × ℕ) → Option ℕ
frame_of vpn [] = none
frame_of vpn ((v, frame) ∷ rest) = if v == vpn then some frame else frame_of vpn rest

abbrev pub without : ℕ → List (ℕ × ℕ) → List (ℕ × ℕ)
without vpn [] = []
without vpn ((v, frame) ∷ rest) =
    let kept = without vpn rest in if v == vpn then kept else (v, frame) ∷ kept

abbrev pub with_frames : Space → List (ℕ × ℕ) → Space
with_frames s data_frames = record s { table = record s.table { data_frames = data_frames } }

-- `insert` and `remove` of a page table.
pub insert : Space → ℕ → ℕ → Option ℕ × Space
insert s vpn frame = (
  frame_of vpn s.table.data_frames,
  with_frames s ((vpn, frame) ∷ without vpn s.table.data_frames),
)

pub remove : Space → ℕ → Option ℕ × Space
remove s vpn = (frame_of vpn s.table.data_frames, with_frames s (without vpn s.table.data_frames))

-- A tracker that is dropped gives its frame back.
pub drop_frame : Option ℕ × Space → Option Space
drop_frame (none, s) = some s
drop_frame (some frame, s) = do a ← dealloc s.frames frame; some (record s { frames = a })

-- A frame for a page, under its tracker in the page table; `none` is the `unwrap` that fails.
abbrev with_memory : Space → Memory → StackFrameAllocator → Space
with_memory s m a = record s { memory = m; frames = a }

add_frame : Space → ℕ → Option ℕ × Memory × StackFrameAllocator → Option (ℕ × Space)
unfolding insert drop_frame
add_frame s vpn (none, m, a) = none
add_frame s vpn (some frame, m, a) = do
  s' ← drop_frame (insert (with_memory s m a) vpn frame)
  some (frame, s')

page_for : MapType → Space → ℕ → Option (ℕ × Space)
unfolding add_frame
page_for identical s vpn = some (vpn, s)
page_for framed s vpn = add_frame s vpn (alloc_tracked s.memory s.frames)
page_for (linear offset) s vpn = do assert (ltb vpn (2 ^ 27)); some (offset_page vpn offset, s)

pub map_one : MapArea → Space → ℕ → Option Space
unfolding page_for
map_one area s vpn = do
  (page, s') ← page_for area.map_type s vpn
  map_page s' vpn page area.map_perm

pub unmap_one : MapArea → Space → ℕ → Option Space
unfolding remove drop_frame
unmap_one area s vpn = do
  s' ← if is_framed area.map_type then drop_frame (remove s vpn) else some s
  unmap_page s' vpn

-- The pages that a loop over the range visits.
pub pages_of : SimpleRange → Option (List ℕ)
pages_of range = do
  let (pages, over) = collect (suc (range.end - range.start)) range
  assert over
  some pages

-- The body of a loop, for each page in order.
abbrev pub for_each : (Space → ℕ → Option Space) → Space → List ℕ → Option Space
for_each body s [] = some s
for_each body s (vpn ∷ vpns) = do s' ← body s vpn; for_each body s' vpns

unfoldable pub map : MapArea → Space → Option Space
unfolding map_one pages_of
map area s = do pages ← pages_of area.vpn_range; for_each (map_one area) s pages

unfoldable pub unmap : MapArea → Space → Option Space
unfolding unmap_one pages_of
unmap area s = do pages ← pages_of area.vpn_range; for_each (unmap_one area) s pages

-- `dst_bytes[..src.len()].copy_from_slice(src)` in a frame.
pub write_bytes : Memory → ℕ → List ℕ → Memory
write_bytes m frame src f j = if frame == f && ltb j (length src) then get_or src j 0 else m f j

-- The loop of `copy_data` over `data.chunks(chunk_size)`, at most `rounds` times.
pub copy_chunks : ℕ → ℕ → Space → ℕ → List ℕ → Option Space
unfolding write_bytes
copy_chunks zero chunk_size s current_vpn bytes = none
copy_chunks (suc rounds) chunk_size s current_vpn [] = some s
copy_chunks (suc rounds) chunk_size s current_vpn (b ∷ rest) = do
  let bytes = b ∷ rest
  let src = take chunk_size bytes
  e ← translate s current_vpn
  let copied = take (min (length src) page_size) src
  copy_chunks rounds chunk_size (record s { memory = write_bytes s.memory (ppn e) copied })
      (current_vpn + 1) (drop chunk_size bytes)

pub copy_data : MapArea → Space → List ℕ → Option Space
unfolding copy_chunks
copy_data area s bytes = do
  assert (is_framed area.map_type)
  if length bytes == 0
      then some s
      else copy_chunks (suc (length bytes)) (min page_size (length bytes)) s area.vpn_range.start
          bytes
