-- ===== src/Kernel/Recycle/Tests.antt =====
-- Runs of the id allocator and the layout of stacks on concrete inputs.
use lemon_core.Base.{◌+◌, ◌*◌, ◌≤◌, ◌≡◌, refl, [], ◌∷◌, arith}
use lemon_core.Kernel.Recycle.{
  RecycleAllocator, page_size, kernel_stack_size, trampoline, kernel_stack_position,
}
use lemon_core.Kernel.Recycle.Ids.{IsValid}
use lemon_core.Kernel.Recycle.Stacks.{kernel_stack_position-disjoint}

-- Ids 0 and 2 are in use, id 1 came back.
abbrev some_used : RecycleAllocator
some_used = record { current = 3; recycled = 1 ∷ [] }

some_used-IsValid : IsValid some_used
some_used-IsValid = record { below = (omega arith, tt); distinct = (refl, tt) }

kernel_stack_position-disjoint_example :
    let (bottom, top) = kernel_stack_position 0 in
    let (bottom', top') = kernel_stack_position 3 in
    (top + 0 * (kernel_stack_size + page_size) ≡ trampoline)
    × (bottom + kernel_stack_size ≡ top)
    × (top' + page_size ≤ bottom)
    × (bottom' + kernel_stack_size ≡ top')
kernel_stack_position-disjoint_example =
    kernel_stack_position-disjoint 0 3 (omega arith) (omega arith)
