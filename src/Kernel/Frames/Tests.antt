-- ===== src/Kernel/Frames/Tests.antt =====
-- Runs of the frame allocator on concrete inputs.
use lemon_core.Base.{refl, [], ◌∷◌, arith}
use lemon_core.Kernel.Frames.{StackFrameAllocator, alloc}
use lemon_core.Kernel.Frames.Ownership.{IsValid, Allocates, alloc-Allocates}

-- Frames 4 and 6 are out, frame 5 came back.
abbrev some_out : StackFrameAllocator
some_out = record { current = 7; end = 9; recycled = 5 ∷ [] }

some_out-IsValid : IsValid 4 some_out
some_out-IsValid = record {
  from_start = omega arith;
  within = omega arith;
  physical = omega arith;
  below = ((omega arith, omega arith), tt);
  distinct = (refl, tt);
}

alloc-Allocates_example : Allocates 4 some_out (alloc some_out)
alloc-Allocates_example = alloc-Allocates 4 some_out some_out-IsValid
