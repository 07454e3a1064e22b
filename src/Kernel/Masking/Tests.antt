-- ===== src/Kernel/Masking/Tests.antt =====
-- Borrows on a concrete input.
use lemon_core.Base.{◌≡◌, true, some, List, [], ◌∷◌}
use lemon_core.Kernel.Masking.{Masking, new}
use lemon_core.Kernel.Masking.Nesting.{Event, borrow, drop_borrow, run, run-new}

abbrev nested : List Event
nested = borrow ∷ borrow ∷ drop_borrow ∷ borrow ∷ drop_borrow ∷ drop_borrow ∷ []

run-new_example :
    (m : Masking) × (run nested (new true) ≡ some m) × (m.nested_level ≡ 0) × (m.sie ≡ true)
run-new_example = run-new true nested tt
