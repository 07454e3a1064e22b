-- ===== src/Kernel/MapArea/Keys.antt =====
-- The trackers of the pages as a map.
use lemon_core.Base.{ℕ, ◌≡◌, none, List, [], ◌∷◌, arith, ◌==◌, if◌then◌else◌}
use lemon_core.Kernel.MapArea.{frame_of, without}

pub frame_of-without :
    (v w : ℕ) (xs : List (ℕ × ℕ))
    → frame_of v (without w xs) ≡ (if w == v then none else frame_of v xs)
frame_of-without v w [] = ground arith
frame_of-without v w ((x, frame) ∷ xs) = ground (arith, frame_of-without v w xs)
