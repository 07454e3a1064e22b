-- ===== src/Kernel/Recycle/Stacks.antt =====
-- Where the stacks and trap contexts of kernel/src/task/id.rs lie.
use lemon_core.Base.{ℕ, ◌+◌, ◌*◌, ◌^◌, ◌≤◌, ◌<◌, ◌≡◌, arith}
use lemon_core.Kernel.Recycle.{
  page_size, kernel_stack_size, user_stack_size, trampoline, kernel_stack_position,
  trap_cx_bottom_from_tid, ustack_bottom_from_tid,
}

-- The ids whose kernel stacks lie in the address space, above its lower half of 2 ^ 63 bytes.
abbrev pub kstack_limit : ℕ
kstack_limit = 2 ^ 49

-- No subtraction of `kernel_stack_position` overflows, each stack is `KERNEL_STACK_SIZE` long and
-- ends at or below the trampoline, and between the stacks of two ids lies a page of neither.
pub kernel_stack_position-disjoint :
    (i j : ℕ)
    → i < j
    → j < kstack_limit
    → let (bottom, top) = kernel_stack_position i in
      let (bottom', top') = kernel_stack_position j in
      (top + i * (kernel_stack_size + page_size) ≡ trampoline)
      × (bottom + kernel_stack_size ≡ top)
      × (top' + page_size ≤ bottom)
      × (bottom' + kernel_stack_size ≡ top')
unfolding kernel_stack_position
kernel_stack_position-disjoint i j h l = omega arith

-- The trap contexts of two threads of a process are pages that do not overlap, below the trampoline.
pub trap_cx_bottom_from_tid-disjoint :
    (i j : ℕ)
    → i < j
    → j < kstack_limit
    → (trap_cx_bottom_from_tid j + page_size ≤ trap_cx_bottom_from_tid i)
      × (trap_cx_bottom_from_tid i + page_size ≤ trampoline)
      × (trap_cx_bottom_from_tid i + (i + 1) * page_size ≡ trampoline)
unfolding trap_cx_bottom_from_tid
trap_cx_bottom_from_tid-disjoint i j h l = omega arith

-- The user stacks of two threads lie above the base with a page between them.
pub ustack_bottom_from_tid-disjoint :
    (base i j : ℕ)
    → i < j
    → (base ≤ ustack_bottom_from_tid base i)
      × (ustack_bottom_from_tid base i + user_stack_size + page_size
          ≤ ustack_bottom_from_tid base j)
unfolding ustack_bottom_from_tid
ustack_bottom_from_tid-disjoint base i j h = omega arith
