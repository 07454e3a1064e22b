-- ===== src/Kernel/Address.antt =====
-- kernel/src/mm/address.rs: addresses and page numbers of SV39, physical and virtual, as numbers. A
-- mask of the low `w` bits is `% 2 ^ w`, a shift by `w` bits is `/ 2 ^ w` or `* 2 ^ w % 2 ^ 64`.
use lemon_core.Base.{
  ℕ, zero, suc, ◌+◌, ◌-◌, ◌*◌, ◌/◌, ◌%◌, ◌^◌, Bool, true, false, Option, none, some, List, [], ◌∷◌,
  leb, ◌==◌, if◌then◌else◌, ◌>>◌, assert,
}
use lemon_core.Kernel.Recycle.{page_size}
pub mod Pages

pub phys_addr_from : ℕ → ℕ
phys_addr_from value = value % 2 ^ 56

pub virt_addr_from : ℕ → ℕ
virt_addr_from value = value % 2 ^ 39

pub virt_page_num_from : ℕ → ℕ
virt_page_num_from value = value % 2 ^ 27

-- `From<VirtAddr> for usize`: from bit 38 on, all bits of the result are those of bit 38.
pub usize_from : ℕ → ℕ
usize_from addr = if leb (2 ^ 38) addr then 2 ^ 64 - 2 ^ 39 + addr % 2 ^ 39 else addr

-- What `PhysAddr` and `VirtAddr` have in common.
pub page_offset : ℕ → ℕ
page_offset addr = addr % page_size

pub is_aligned : ℕ → Bool
unfolding page_offset
is_aligned addr = page_offset addr == 0

unfoldable pub by_floor : ℕ → ℕ
by_floor addr = addr / page_size

unfoldable pub by_ceil : ℕ → ℕ
by_ceil addr = if addr == 0 then 0 else (addr - 1 + page_size) / page_size

-- An address as a page number; `none` is the assertion that it is aligned.
pub page_from : ℕ → Option ℕ
unfolding is_aligned by_floor
page_from addr = do assert (is_aligned addr); some (by_floor addr)

pub addr_from : ℕ → ℕ
addr_from page = page * 2 ^ 12 % 2 ^ 64

unfoldable pub indexes : ℕ → ℕ × ℕ × ℕ
indexes vpn = (vpn / 2 ^ 18 % 2 ^ 9, vpn / 2 ^ 9 % 2 ^ 9, vpn % 2 ^ 9)

-- `SimpleRange`, and its iterator, whose `current` is the start.
pub record SimpleRange : Type 0 where
  pub start : ℕ
  pub end : ℕ

pub new : ℕ → ℕ → Option SimpleRange
new start end = do assert (leb start end); some (record { start = start; end = end })

pub next : SimpleRange → Option (ℕ × SimpleRange)
next r = if r.start == r.end then none else some (r.start, record r { start = r.start + 1 })

-- On what `next` gives, and the rest of the loop on it.
collect_next : (SimpleRange → List ℕ × Bool) → Option (ℕ × SimpleRange) → List ℕ × Bool
collect_next rest none = ([], true)
collect_next rest (some (page, r)) = let (pages, over) = rest r in (page ∷ pages, over)

-- A `for` loop over a range, at most `rounds` times: the pages it visits, and whether it is over.
pub collect : ℕ → SimpleRange → List ℕ × Bool
unfolding next collect_next
collect zero r = ([], false)
collect (suc rounds) r = collect_next (collect rounds) (next r)
