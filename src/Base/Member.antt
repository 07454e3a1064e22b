-- ===== src/Base/Member.antt =====
-- Membership and distinctness of numbers in a list, as tests and as predicates.
use Prim.Native.Nat.{ℕ, zero, suc}
use mathlib.Core.Path.{◌≡◌, subst}
use native.Mathlib.Decide.{ℕ_discrete}
use mathlib.Core.Bool.{Bool, true, false, ◌||◌}
use mathlib.Core.List.{List, [], ◌∷◌}
use native.Mathlib.Omega.{arith}
use lemon_core.Base.Lists.{replicate}
use lemon_core.Base.Tests.{◌==◌}

-- `iter().any(|&v| v == x)`.
abbrev pub contains : ℕ → List ℕ → Bool
contains x [] = false
contains x (y ∷ ys) = y == x || contains x ys

-- Every element has the property.
abbrev pub All {ℓ κ} : {A : Type ℓ} → (A → Type κ) → List A → Type κ
All P [] = Unit
All P (x ∷ xs) = P x × All P xs

-- No number stands twice in the list.
abbrev pub Distinct : List ℕ → Type 0
Distinct [] = Unit {0}
Distinct (x ∷ xs) = (contains x xs ≡ false) × Distinct xs

pub contains-All : (P : ℕ → Type 0) (x : ℕ) (xs : List ℕ) → All P xs → contains x xs ≡ true → P x
contains-All P x [] a h = cc
contains-All P x (y ∷ ys) a h = elim (ℕ_discrete y x) [
  | yes e ↦ subst P e a.0
  | no ne ↦ contains-All P x ys a.1 (ground arith)
]

pub All-replicate {ℓ κ} :
    {A : Type ℓ} (P : A → Type κ) (n : ℕ) (x : A) → P x → All P (replicate n x)
All-replicate P zero x p = tt
All-replicate P (suc n) x p = (p, All-replicate P n x p)
