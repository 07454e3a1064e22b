-- ===== src/Kernel/MemorySet.antt =====
-- kernel/src/mm/memory_set.rs: the address space of a process, or of the kernel. `none` is a panic.
use lemon_core.Base.{
  ℕ, ◌+◌, ◌-◌, ◌^◌, Option, none, some, List, [], ◌∷◌, ◌++◌, ◌==◌, if◌then◌else◌, ◌>>=◌,
}
use lemon_core.Kernel.Address.{phys_addr_from, virt_addr_from, page_from}
use lemon_core.Kernel.Frames.{StackFrameAllocator, Memory}
use lemon_core.Kernel.MapArea.{
  MapArea, MapType, identical, framed, new, map, unmap, copy_data, pages_of, write_bytes,
}
pub mod Areas
pub mod Images
mod Tests
use lemon_core.Kernel.PageEntry.{PageTableEntry, ppn}
use lemon_core.Kernel.PageTable.{
  Space, new as new_table, map as map_page, translate as translate_page, token as table_token,
}
use lemon_core.Kernel.Recycle.{page_size}

-- Permissions.
abbrev pub perm_r : ℕ
perm_r = 2

abbrev pub perm_w : ℕ
perm_w = 4

abbrev pub perm_x : ℕ
perm_x = 8

abbrev pub perm_u : ℕ
perm_u = 16

abbrev trampoline : ℕ
trampoline = 2 ^ 64 - 1 - page_size + 1

-- The page table with the memory and the frame allocator of the machine, and the areas.
pub record MemorySet : Type 0 where
  pub space : Space
  pub areas : List MapArea

pub new_bare : Memory → StackFrameAllocator → Option MemorySet
new_bare m a = do s ← new_table m a; some (record { space = s; areas = [] })

pub translate : MemorySet → ℕ → Option PageTableEntry
translate set vpn = translate_page set.space vpn

pub token : MemorySet → ℕ
token set = table_token set.space.table

-- `if let Some(data) = data`.
abbrev copy_some : MapArea → Space → Option (List ℕ) → Option Space
copy_some area s none = some s
copy_some area s (some bytes) = copy_data area s bytes

pub push : MemorySet → MapArea → Option (List ℕ) → Option MemorySet
push set area bytes = do
  s ← map area set.space
  s' ← copy_some area s bytes
  some (record { space = s'; areas = set.areas ++ (area ∷ []) })

pub insert_framed_area : MemorySet → ℕ → ℕ → ℕ → Option MemorySet
unfolding push
insert_framed_area set start_va end_va permission = do
  area ← new start_va end_va framed permission
  push set area none

-- The first area that starts with a page, and the areas without it.
abbrev pub find_area : ℕ → List MapArea → Option (MapArea × List MapArea)
find_area start_vpn [] = none
find_area start_vpn (area ∷ areas) =
    let later = find_area start_vpn areas in
    if area.vpn_range.start == start_vpn
    then some (area, areas)
    else (do (found, rest) ← later; some (found, area ∷ rest))

abbrev remove_found : MemorySet → Option (MapArea × List MapArea) → Option MemorySet
remove_found set none = some set
remove_found set (some (area, rest)) = do
  s ← unmap area set.space
  some (record { space = s; areas = rest })

pub remove_area_with_start_vpn : MemorySet → ℕ → Option MemorySet
remove_area_with_start_vpn set start_vpn = remove_found set (find_area start_vpn set.areas)

pub recycle_data_pages : MemorySet → MemorySet
recycle_data_pages set = record set { areas = [] }

-- `strampoline` is the address that the linker gives the trampoline.
pub map_trampoline : ℕ → MemorySet → Option MemorySet
map_trampoline strampoline set = do
  vpn ← page_from (virt_addr_from trampoline)
  page ← page_from (phys_addr_from strampoline)
  s ← map_page set.space vpn page (perm_r + perm_x)
  some (record set { space = s })
