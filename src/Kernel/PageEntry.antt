-- ===== src/Kernel/PageEntry.antt =====
-- kernel/src/mm/page_table.rs: the entries of a page table. Flags are a number below 2 ^ 8, whose
-- bit `i` is the flag of weight 2 ^ i.
use lemon_core.Base.{ℕ, ◌+◌, ◌*◌, ◌/◌, ◌%◌, ◌^◌, Bool, ◌==◌}
use lemon_core.Kernel.Frames.{ppn_from}
pub mod Codes

pub record PageTableEntry : Type 0 where
  pub bits : ℕ

-- `ppn.0 << 10 | flags.bits()`: the bits of the two do not meet.
unfoldable pub new : ℕ → ℕ → PageTableEntry
new ppn flags = record { bits = ppn * 2 ^ 10 % 2 ^ 64 + flags }

unfoldable pub empty : PageTableEntry
empty = record { bits = 0 }

pub ppn : PageTableEntry → ℕ
ppn e = ppn_from (e.bits / 2 ^ 10 % 2 ^ 44)

-- Every `u8` is a set of flags, so the `unwrap` succeeds.
unfoldable pub flags : PageTableEntry → ℕ
flags e = e.bits % 2 ^ 8

abbrev has_flag : ℕ → PageTableEntry → Bool
has_flag i e = flags e / 2 ^ i % 2 == 1

unfoldable pub is_valid : PageTableEntry → Bool
unfolding flags
is_valid e = has_flag 0 e

pub is_readable : PageTableEntry → Bool
unfolding flags
is_readable e = has_flag 1 e

pub is_writable : PageTableEntry → Bool
unfolding flags
is_writable e = has_flag 2 e

pub is_executable : PageTableEntry → Bool
unfolding flags
is_executable e = has_flag 3 e
