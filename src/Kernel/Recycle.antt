-- ===== src/Kernel/Recycle.antt =====
-- kernel/src/task/id.rs: the allocator of process, kernel stack and thread ids, and the addresses
-- that ids stand for.
use lemon_core.Base.{
  contains, ℕ, ◌+◌, ◌-◌, ◌*◌, ◌^◌, Option, some, List, [], ◌∷◌, not, ltb, ◌>>◌, assert,
}
pub mod Ids
pub mod Stacks
mod Tests

-- `recycled` is a stack, its top first.
pub record RecycleAllocator : Type 0 where
  pub current : ℕ
  pub recycled : List ℕ

pub new : RecycleAllocator
new = record { current = 0; recycled = [] }

-- On what `recycled.pop()` finds.
unfoldable pub alloc_from : RecycleAllocator → List ℕ → ℕ × RecycleAllocator
alloc_from a [] = (a.current, record a { current = a.current + 1 })
alloc_from a (id ∷ rest) = (id, record a { recycled = rest })

unfoldable pub alloc : RecycleAllocator → ℕ × RecycleAllocator
unfolding alloc_from
alloc a = alloc_from a a.recycled

unfoldable pub dealloc : RecycleAllocator → ℕ → Option RecycleAllocator
dealloc a id = do
  assert (ltb id a.current)
  assert (not (contains id a.recycled))
  some (record a { recycled = id ∷ a.recycled })

abbrev pub page_size : ℕ
page_size = 0x1000

abbrev pub kernel_stack_size : ℕ
kernel_stack_size = 4096 * 2

abbrev pub user_stack_size : ℕ
user_stack_size = 4096 * 2

-- `usize::MAX - PAGE_SIZE + 1`.
abbrev pub trampoline : ℕ
trampoline = 2 ^ 64 - 1 - page_size + 1

abbrev pub trap_context_base : ℕ
trap_context_base = trampoline - page_size

-- The bottom and the top of a kernel stack; `-` stops at 0 where the program's would overflow.
pub kernel_stack_position : ℕ → ℕ × ℕ
kernel_stack_position kstack_id =
    let top = trampoline - kstack_id * (kernel_stack_size + page_size) in
    (top - kernel_stack_size, top)

pub trap_cx_bottom_from_tid : ℕ → ℕ
trap_cx_bottom_from_tid tid = trap_context_base - tid * page_size

pub ustack_bottom_from_tid : ℕ → ℕ → ℕ
ustack_bottom_from_tid ustack_base tid = ustack_base + tid * (page_size + user_stack_size)
