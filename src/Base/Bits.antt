-- ===== src/Base/Bits.antt =====
-- Facts on bits of bounded numbers, by a table.
use Prim.Native.Nat.{ℕ, zero, suc, ◌+◌, ◌*◌, ◌/◌, ◌<◌, bit_or}
use mathlib.Core.Path.{◌≡◌, refl}
use mathlib.Core.Bool.{Bool, true, ◌&&◌}
use native.Mathlib.Omega.{arith}
use lemon_core.Base.Tests.{◌==◌, ==_iff}

holds_below : ℕ → (ℕ → Bool) → Bool
holds_below zero test = true
holds_below (suc n) test = test n && holds_below n test

holds_at : (n : ℕ) (test : ℕ → Bool) (x : ℕ) → holds_below n test ≡ true → x < n → test x ≡ true
unfolding holds_below
holds_at zero test x h l = absurd (omega arith)
holds_at (suc n) test x h l = ground (arith, holds_at n test x)

byte_table : holds_below 256 (λ x. bit_or x 1 == x / 2 * 2 + 1) ≡ true
unfolding holds_below
byte_table = refl

-- The lowest bit set in a byte.
pub bit_or_one : (x : ℕ) → x < 256 → bit_or x 1 ≡ x / 2 * 2 + 1
bit_or_one x h = (==_iff _ _).0 (holds_at 256 (λ x. bit_or x 1 == x / 2 * 2 + 1) x byte_table h)
