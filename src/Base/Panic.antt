-- ===== src/Base/Panic.antt =====
-- Code that can panic returns an option: `none` is a failed assertion, an `unwrap` of nothing, or
-- an index out of range, after which the program does not go on.
use mathlib.Core.Path.{◌≡◌, refl}
use mathlib.Core.Bool.{Bool, true, false}
use mathlib.Core.Option.{Option, none, some}
use mathlib.Core.List.{List}
use Prim.Native.Nat.{ℕ, ◌<◌}
use native.Mathlib.Omega.{arith}
use lemon_core.Base.Tests.{ltb, if◌then◌else◌}
use lemon_core.Base.Lists.{length, get_elem?, set}

infixl 5 ◌>>=◌ ◌>>◌
abbrev pub ◌>>=◌ {ℓ κ} : {A : Type ℓ} {B : Type κ} → Option A → (A → Option B) → Option B
none >>= f = none
some a >>= f = f a

abbrev pub ◌>>◌ {ℓ} : {B : Type ℓ} → Option (Unit {0}) → Option B → Option B
m >> k = m >>= λ _. k

-- `assert!`.
abbrev pub assert : Bool → Option (Unit {0})
assert true = some tt
assert false = none

-- `arr[i]` and `arr[i] = v`, which panic out of range.
module _ {ℓ} {A : Type ℓ} where
  abbrev pub index : List A → ℕ → Option A
  index = get_elem?

  abbrev pub store : List A → ℕ → A → Option (List A)
  store xs i v = if ltb i (length xs) then some (set xs i v) else none

  pub store-eq-some :
      (xs : List A) (i : ℕ) (v : A) → i < length xs → store xs i v ≡ some (set xs i v)
  store-eq-some xs i v h = ground arith

-- Inversion of a chain that does not panic.
pub >>=-eq-some {ℓ κ} :
    {A : Type ℓ} {B : Type κ} (m : Option A) (f : A → Option B) {b : B}
    → (m >>= f) ≡ some b
    → (a : A) × (m ≡ some a) × (f a ≡ some b)
>>=-eq-some none f h = cc
>>=-eq-some (some a) f h = (a, refl, h)
