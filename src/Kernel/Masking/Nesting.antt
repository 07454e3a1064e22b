-- ===== src/Kernel/Masking/Nesting.antt =====
-- Borrows within borrows of the cells of kernel/src/sync/up.rs.
use lemon_core.Base.{
  ℕ, zero, suc, ◌-◌, ◌≡◌, refl, Bool, false, ◌||◌, Option, some, List, [], ◌∷◌, arith, ◌==◌, ◌>>=◌,
}
use lemon_core.Kernel.Masking.{Masking, new, enter, exit}

-- A cell is borrowed, or a borrow of one ends.
pub data Event : Type 0 where
  borrow : Event
  drop_borrow : Event

pub step : Event → Masking → Option Masking
step borrow m = some (enter m)
step drop_borrow m = exit m

pub run : List Event → Masking → Option Masking
run [] m = some m
run (e ∷ es) m = do m' ← step e m; run es m'

-- From `level` borrows, each of them and each later one ends.
abbrev pub Closed : ℕ → List Event → Type 0
Closed zero [] = Unit {0}
Closed (suc level) [] = ⊥
Closed level (borrow ∷ es) = Closed (suc level) es
Closed zero (drop_borrow ∷ es) = ⊥
Closed (suc level) (drop_borrow ∷ es) = Closed level es

-- The state at a level: at level 0 `sie` is as it was, and else it is clear.
abbrev Masks : Bool → ℕ → Masking → Type 0
Masks b zero m = (m.nested_level ≡ 0) × (m.sie ≡ b)
Masks b (suc level) m = (m.nested_level ≡ suc level) × (m.sie ≡ false) × (m.sie_before_masking ≡ b)

run-from :
    (b : Bool) (es : List Event) (level : ℕ) (m : Masking)
    → Masks b level m
    → Closed level es
    → (m' : Masking) × (run es m ≡ some m') × (m'.nested_level ≡ 0) × (m'.sie ≡ b)
unfolding run step enter exit
run-from b [] zero m v c = (m, refl, v.0, v.1)
run-from b [] (suc level) m v c = absurd c
run-from b (borrow ∷ es) zero m v c = run-from b es 1 (enter m) (ground arith) c
run-from b (borrow ∷ es) (suc level) m v c =
    run-from b es (suc (suc level)) (enter m) (ground arith) c
run-from b (drop_borrow ∷ es) zero m v c = absurd c
run-from b (drop_borrow ∷ es) (suc zero) m v c =
    let m₁ : Masking = record { nested_level = 0; sie_before_masking = b; sie = b } in
    let restored : exit m ≡ some m₁ =
      (let bit : b || false ≡ b = ground arith in rw (v.0, v.1, v.2, bit)) in
    let (m', r, l, s) = run-from b es 0 m₁ (refl, refl) c in (m', rw restored r, l, s)
run-from b (drop_borrow ∷ es) (suc (suc level)) m v c =
    let m₁ : Masking = record { nested_level = suc level; sie_before_masking = b; sie = false } in
    let down : suc (suc level) - 1 ≡ suc level = omega arith in
    let inner : suc level == 0 ≡ false = ground arith in
    let above : suc (suc level) == 0 ≡ false = ground arith in
    let still : exit m ≡ some m₁ = rw (v.0, v.1, v.2, above, down, inner) in
    let (m', r, l, s) = run-from b es (suc level) m₁ (refl, refl, refl) c in (m', rw still r, l, s)

-- However borrows nest, once all of them have ended interrupts are masked exactly if they were before
-- the first of them.
pub run-new :
    (b : Bool) (es : List Event)
    → Closed 0 es
    → (m : Masking) × (run es (new b) ≡ some m) × (m.nested_level ≡ 0) × (m.sie ≡ b)
unfolding new
run-new b es c = run-from b es 0 (new b) (refl, refl) c
