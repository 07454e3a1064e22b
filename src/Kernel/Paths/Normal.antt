-- ===== src/Kernel/Paths/Normal.antt =====
-- The paths that `get_full_path` makes.
use lemon_core.Base.{ℕ, ◌≡◌, refl, ap, ◌∙◌, false, List, [], ◌∷◌, ◌++◌, arith, contains, All}
use lemon_core.Kernel.Paths.{
  slash, dot, split, split_with, split_at, part_of, pop, push_part, resolve, join, get_full_path,
  starts_with_slash,
}
use lemon_core.Kernel.Paths.Names.{
  IsName, append-IsName, resolve-names, split-last, resolve-join, split-append, resolve-append,
}

pop-snoc : (parts : List (List ℕ)) (q : List ℕ) → pop (parts ++ (q ∷ [])) ≡ parts
pop-snoc [] q = refl
pop-snoc (p ∷ []) q = refl
pop-snoc (p ∷ r ∷ parts) q = ap (λ xs. p ∷ xs) (pop-snoc (r ∷ parts) q)

-- A relative path from a directory of names.
from_names :
    (parts : List (List ℕ)) (path : List ℕ)
    → All IsName parts
    → starts_with_slash path ≡ false
    → get_full_path (slash ∷ join parts) path ≡ slash ∷ join (resolve parts (split path))
unfolding get_full_path
from_names parts path a h = rw h (
    ap (λ xs. slash ∷ join xs)
      (ap (resolve []) (split-append (slash ∷ join parts) path)
        ∙ resolve-append [] (split (slash ∷ join parts)) (split path)
        ∙ ap (λ xs. resolve xs (split path)) (resolve-join parts a)))

-- From a directory of names, `.` and the empty path lead to the directory itself, a name to the entry
-- of that name below it, and `..` from there back to the directory; `..` of the root is the root.
pub get_full_path-steps :
    (parts : List (List ℕ)) (q : List ℕ)
    → All IsName parts
    → IsName q
    → let cwd = slash ∷ join parts in
      let below = slash ∷ join (parts ++ (q ∷ [])) in
      (get_full_path cwd [] ≡ cwd)
      × (get_full_path cwd (dot ∷ []) ≡ cwd)
      × (get_full_path cwd q ≡ below)
      × (get_full_path below (dot ∷ dot ∷ []) ≡ cwd)
      × (get_full_path (slash ∷ []) (dot ∷ dot ∷ []) ≡ slash ∷ [])
unfolding starts_with_slash split split_with split_at resolve push_part part_of get_full_path join
get_full_path-steps parts q a n = (
  from_names parts [] a refl,
  from_names parts (dot ∷ []) a refl,
  from_names parts q a (relative q n.no_slash)
      ∙ ap (λ xs. slash ∷ join (resolve parts xs)) (split-last q n.no_slash)
      ∙ ap (λ xs. slash ∷ join xs) (resolve-names parts (q ∷ []) (n, tt)),
  from_names (parts ++ (q ∷ [])) (dot ∷ dot ∷ []) (append-IsName parts q a n) refl
      ∙ ap (λ xs. slash ∷ join xs) (pop-snoc parts q),
  refl,
)
  where
    relative : (q : List ℕ) → contains slash q ≡ false → starts_with_slash q ≡ false
    relative [] h = refl
    relative (c ∷ cs) h = ground (arith, h)
