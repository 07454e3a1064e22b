-- ===== src/Kernel/Masking.antt =====
-- kernel/src/sync/up.rs: interrupts are masked while a cell is borrowed.
use lemon_core.Base.{
  ℕ, ◌+◌, ◌-◌, Bool, false, not, ◌&&◌, ◌||◌, Option, some, ◌==◌, if◌then◌else◌, ◌>>◌, assert,
}
pub mod Nesting
mod Tests

-- `IntrMaskingInfo`, and the bit `sie` of the register `sstatus`.
pub record Masking : Type 0 where
  pub nested_level : ℕ
  pub sie_before_masking : Bool
  pub sie : Bool

pub new : Bool → Masking
new sie = record { nested_level = 0; sie_before_masking = false; sie = sie }

pub enter : Masking → Masking
enter m = record {
  nested_level = m.nested_level + 1;
  sie_before_masking = if m.nested_level == 0 then m.sie else m.sie_before_masking;
  sie = false;
}

-- `none` is the overflow of `nested_level -= 1`.
pub exit : Masking → Option Masking
exit m = do
  assert (not (m.nested_level == 0))
  let level = m.nested_level - 1
  some (record m { nested_level = level; sie = (level == 0 && m.sie_before_masking) || m.sie })
