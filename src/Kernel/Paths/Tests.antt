-- ===== src/Kernel/Paths/Tests.antt =====
-- Paths on concrete inputs: 97 and 98 are `a` and `b`.
use lemon_core.Base.{◌≡◌, refl, [], ◌∷◌}
use lemon_core.Kernel.Paths.{slash, dot, join, get_full_path}
use lemon_core.Kernel.Paths.Normal.{get_full_path-steps}
use lemon_core.Kernel.Paths.Names.{IsName}

from_a : get_full_path (47 ∷ 97 ∷ []) (46 ∷ 46 ∷ 47 ∷ 98 ∷ 47 ∷ 47 ∷ 46 ∷ []) ≡ 47 ∷ 98 ∷ []
unfolding get_full_path
from_a = refl

a-IsName : IsName (97 ∷ [])
a-IsName = record { not_empty = λ e. cc; not_dot = λ e. cc; not_dots = λ e. cc; no_slash = refl }

b-IsName : IsName (98 ∷ [])
b-IsName = record { not_empty = λ e. cc; not_dot = λ e. cc; not_dots = λ e. cc; no_slash = refl }

-- `b` below `/a`, and back.
get_full_path-steps_example :
    let cwd = slash ∷ join ((97 ∷ []) ∷ []) in
    let below = slash ∷ join ((97 ∷ []) ∷ (98 ∷ []) ∷ []) in
    (get_full_path cwd [] ≡ cwd)
    × (get_full_path cwd (dot ∷ []) ≡ cwd)
    × (get_full_path cwd (98 ∷ []) ≡ below)
    × (get_full_path below (dot ∷ dot ∷ []) ≡ cwd)
    × (get_full_path (slash ∷ []) (dot ∷ dot ∷ []) ≡ slash ∷ [])
get_full_path-steps_example = get_full_path-steps ((97 ∷ []) ∷ []) (98 ∷ []) (a-IsName, tt) b-IsName
