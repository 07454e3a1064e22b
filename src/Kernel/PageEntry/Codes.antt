-- ===== src/Kernel/PageEntry/Codes.antt =====
-- An entry of kernel/src/mm/page_table.rs against what it was made of.
use lemon_core.Base.{ℕ, ◌+◌, ◌*◌, ◌/◌, ◌%◌, ◌^◌, ◌<◌, ◌≡◌, refl, false, arith, ◌==◌}
use lemon_core.Kernel.PageEntry.{
  new, empty, ppn, flags, is_valid, is_readable, is_writable, is_executable,
}

-- An entry made of a page number of 44 bits and of flags gives both back, its tests are those of the
-- flags' lowest bits, and the empty entry is not valid.
pub ppn-new :
    (n f : ℕ)
    → n < 2 ^ 44
    → f < 2 ^ 8
    → (ppn (new n f) ≡ n)
      × (flags (new n f) ≡ f)
      × (is_valid (new n f) ≡ (f % 2 == 1))
      × (is_readable (new n f) ≡ (f / 2 % 2 == 1))
      × (is_writable (new n f) ≡ (f / 4 % 2 == 1))
      × (is_executable (new n f) ≡ (f / 8 % 2 == 1))
      × (is_valid empty ≡ false)
unfolding new ppn flags empty is_valid is_readable is_writable is_executable
ppn-new n f h l =
    let same : (n * 2 ^ 10 % 2 ^ 64 + f) % 256 ≡ f = omega arith in
    let one : f / 1 ≡ f = omega arith in
    (omega arith, same, rw (same, one), rw same, rw same, rw same, refl)
