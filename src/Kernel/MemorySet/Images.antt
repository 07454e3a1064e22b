-- ===== src/Kernel/MemorySet/Images.antt =====
-- The address spaces that kernel/src/mm/memory_set.rs makes: the kernel's, a program's from its ELF
-- file, and the copy for a new process. `none` is a panic.
use lemon_core.Base.{
  ℕ, ◌+◌, ◌-◌, ◌%◌, ◌^◌, Bool, true, false, ◌&&◌, Option, none, some, List, [], ◌∷◌, ltb, leb, ◌==◌,
  if◌then◌else◌, length, take, drop, ◌>>=◌, ◌>>◌, assert,
}
use lemon_core.Kernel.Address.{virt_addr_from, usize_from, addr_from, new as new_range}
use lemon_core.Kernel.Frames.{StackFrameAllocator, Memory}
use lemon_core.Kernel.MapArea.{MapArea, identical, framed, new, pages_of}
use lemon_core.Kernel.MemorySet.{
  MemorySet, perm_r, perm_w, perm_x, perm_u, new_bare, push, map_trampoline, translate,
}
use lemon_core.Kernel.PageEntry.{ppn}
use lemon_core.Kernel.PageTable.{Space, translate as translate_page}
use lemon_core.Kernel.Recycle.{page_size}

-- The addresses that the linker gives the parts of the kernel.
pub record Linker : Type 0 where
  pub stext : ℕ
  pub etext : ℕ
  pub srodata : ℕ
  pub erodata : ℕ
  pub sdata : ℕ
  pub edata : ℕ
  pub sbss_with_stack : ℕ
  pub ebss : ℕ
  pub ekernel : ℕ
  pub strampoline : ℕ

-- kernel/src/boards/qemu.rs.
abbrev pub memory_end : ℕ
memory_end = 0x88000000

abbrev pub mmio : List (ℕ × ℕ)
mmio = (0x00100000, 0x000200) ∷ (0x0C000000, 0x210000) ∷ (0x10000000, 0x009000) ∷ []

push_identical : ℕ → ℕ → ℕ → MemorySet → Option MemorySet
push_identical start_va end_va perm s = do
  area ← new (virt_addr_from start_va) (virt_addr_from end_va) identical perm
  push s area none

push_mmio : List (ℕ × ℕ) → MemorySet → Option MemorySet
unfolding push_identical
push_mmio [] s = some s
push_mmio ((base, size) ∷ pairs) s = do
  s' ← push_identical base (base + size) (perm_r + perm_w) s
  push_mmio pairs s'

pub new_kernel : Linker → Memory → StackFrameAllocator → Option MemorySet
unfolding push_identical push_mmio
new_kernel l m a = do
  bare ← new_bare m a
  s ← map_trampoline l.strampoline bare
  text ← push_identical l.stext l.etext (perm_r + perm_x) s
  rodata ← push_identical l.srodata l.erodata perm_r text
  s_data ← push_identical l.sdata l.edata (perm_r + perm_w) rodata
  bss ← push_identical l.sbss_with_stack l.ebss (perm_r + perm_w) s_data
  physical ← push_identical l.ekernel memory_end (perm_r + perm_w) bss
  push_mmio mmio physical

-- A parsed ELF file, as the crate xmas_elf gives it.
pub record ProgramHeader : Type 0 where
  pub is_load : Bool
  pub virtual_addr : ℕ
  pub mem_size : ℕ
  pub offset : ℕ
  pub file_size : ℕ
  pub is_read : Bool
  pub is_write : Bool
  pub is_execute : Bool

pub record ElfFile : Type 0 where
  pub magic : List ℕ
  pub input : List ℕ
  pub program_headers : List ProgramHeader
  pub entry_point : ℕ

abbrev pub elf_perm : ProgramHeader → ℕ
elf_perm ph =
    perm_u
    + (if ph.is_read then perm_r else 0)
    + (if ph.is_write then perm_w else 0)
    + (if ph.is_execute then perm_x else 0)

-- `&elf.input[from..to]`.
abbrev byte_range : List ℕ → ℕ → ℕ → Option (List ℕ)
byte_range input from to = do
  assert (leb from to)
  assert (leb to (length input))
  some (take (to - from) (drop from input))

-- One segment to load: the address space, and the page after the segment.
load_segment : List ℕ → MemorySet → ProgramHeader → Option (MemorySet × ℕ)
load_segment input s ph = do
  let start_va = virt_addr_from ph.virtual_addr
  let end_va = virt_addr_from ((ph.virtual_addr + ph.mem_size) % 2 ^ 64)
  area ← new start_va end_va framed (elf_perm ph)
  bytes ← byte_range input ph.offset ((ph.offset + ph.file_size) % 2 ^ 64)
  s' ← push s area (some bytes)
  some (s', area.vpn_range.end)

-- The loop over the program headers, on the page after the last segment loaded.
load_segments : List ℕ → MemorySet × ℕ → List ProgramHeader → Option (MemorySet × ℕ)
unfolding load_segment
load_segments input s [] = some s
load_segments input (s, max_end_vpn) (ph ∷ phs) = do
  s' ← if ph.is_load then load_segment input s ph else some (s, max_end_vpn)
  load_segments input s' phs

bytes_equal : List ℕ → List ℕ → Bool
bytes_equal [] [] = true
bytes_equal (x ∷ xs) (y ∷ ys) = x == y && bytes_equal xs ys
bytes_equal [] (y ∷ ys) = false
bytes_equal (x ∷ xs) [] = false

-- The address space, the base of the user stacks, and the entry point. `parse` is `ElfFile::new`.
pub from_elf :
    (List ℕ → Option ElfFile)
    → Linker
    → Memory
    → StackFrameAllocator
    → List ℕ
    → Option (MemorySet × ℕ × ℕ)
unfolding load_segments bytes_equal
from_elf parse l m a elf_data = do
  bare ← new_bare m a
  s ← map_trampoline l.strampoline bare
  elf ← parse elf_data
  assert (bytes_equal elf.magic (0x7f ∷ 0x45 ∷ 0x4c ∷ 0x46 ∷ []))
  (s', max_end_vpn) ← load_segments elf.input (s, 0) elf.program_headers
  some (s', (usize_from (addr_from max_end_vpn) + page_size) % 2 ^ 64, elf.entry_point)

-- A page table that shares the memory and the allocator of another.
abbrev pub beside : Space → Space → Space
beside s other = record s { memory = other.memory; frames = other.frames }

-- `dst.copy_from_slice(src)` of a whole frame.
pub copy_frame : Memory → ℕ → ℕ → Memory
copy_frame m src dst f j = if dst == f && ltb j page_size then m src j else m f j

-- The pages of an area of `parent`, copied one by one.
pub copy_pages : MemorySet → MemorySet → List ℕ → Option MemorySet
unfolding copy_frame
copy_pages parent child [] = some child
copy_pages parent child (vpn ∷ vpns) = do
  src ← translate_page (beside parent.space child.space) vpn
  dst ← translate child vpn
  copy_pages parent
      (record child {
        space = record child.space { memory = copy_frame child.space.memory (ppn src) (ppn dst) };
      })
      vpns

-- `clone` of an area.
abbrev pub clone_area : MapArea → Option MapArea
clone_area area = do
  range ← new_range area.vpn_range.start area.vpn_range.end
  some (record area { vpn_range = range })

pub copy_areas : MemorySet → MemorySet → List MapArea → Option MemorySet
unfolding copy_pages
copy_areas parent child [] = some child
copy_areas parent child (area ∷ areas) = do
  new_area ← clone_area area
  child' ← push child new_area none
  pages ← pages_of area.vpn_range
  child'' ← copy_pages parent child' pages
  copy_areas parent child'' areas

pub clone : Linker → MemorySet → Option MemorySet
unfolding copy_areas
clone l parent = do
  bare ← new_bare parent.space.memory parent.space.frames
  child ← map_trampoline l.strampoline bare
  copy_areas parent child parent.areas
