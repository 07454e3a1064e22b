-- ===== src/Kernel/Frames.antt =====
-- kernel/src/mm/frame_allocator.rs: the allocator of physical frames, and the trackers that give
-- frames out zeroed and take them back.
use lemon_core.Base.{
  ℕ, zero, ◌+◌, ◌-◌, ◌%◌, ◌^◌, not, ◌||◌, Option, none, some, List, [], ◌∷◌, leb, ◌==◌,
  if◌then◌else◌, ◌>>◌, assert, contains,
}
pub mod Ownership
pub mod Room
mod Tests

-- `recycled` is a stack, its top first. A physical page number is a number below 2 ^ 44.
pub record StackFrameAllocator : Type 0 where
  pub current : ℕ
  pub end : ℕ
  pub recycled : List ℕ

-- `PhysPageNum::from`.
abbrev pub ppn_from : ℕ → ℕ
ppn_from value = value % 2 ^ 44

pub new : StackFrameAllocator
new = record { current = 0; end = 0; recycled = [] }

pub init : StackFrameAllocator → ℕ → ℕ → StackFrameAllocator
init a l r = record a { current = l; end = r }

-- On what `recycled.pop()` finds.
alloc_from : StackFrameAllocator → List ℕ → Option ℕ × StackFrameAllocator
alloc_from a (ppn ∷ rest) = (some (ppn_from ppn), record a { recycled = rest })
alloc_from a [] =
    if a.current == a.end
    then (none, a)
    else (some (ppn_from (a.current + 1 - 1)), record a { current = a.current + 1 })

pub alloc : StackFrameAllocator → Option ℕ × StackFrameAllocator
unfolding alloc_from
alloc a = alloc_from a a.recycled

pub dealloc : StackFrameAllocator → ℕ → Option StackFrameAllocator
dealloc a ppn = do
  assert (not (leb a.current ppn || contains ppn a.recycled))
  some (record a { recycled = ppn ∷ a.recycled })

-- Physical memory: the bytes of each frame.
abbrev pub Memory : Type 0
Memory = ℕ → ℕ → ℕ

-- `FrameTracker::new` fills the frame with zeros.
pub zero_fill : Memory → ℕ → Memory
zero_fill m ppn p i = if p == ppn then 0 else m p i

track : Memory → Option ℕ × StackFrameAllocator → Option ℕ × Memory × StackFrameAllocator
track m (none, a) = (none, m, a)
track m (some ppn, a) = (some ppn, zero_fill m ppn, a)

-- The module's `alloc`: a frame from the allocator, under a tracker.
pub alloc_tracked : Memory → StackFrameAllocator → Option ℕ × Memory × StackFrameAllocator
unfolding alloc zero_fill track
alloc_tracked m a = track m (alloc a)
