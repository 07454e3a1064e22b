-- ===== src/EasyFs/Layout/Data/Splice.antt =====
-- A list with a part of it written over.
use lemon_core.Base.{
  ℕ, zero, suc, ◌+◌, ◌-◌, ◌≤◌, ◌<◌, ◌≡◌, ap, ◌∙◌, Bool, true, ◌&&◌, some, List, [], ◌∷◌, ◌++◌,
  arith, ltb, leb, if◌then◌else◌, length, length-append, get_or, take, drop, length-take,
  length-drop,
}
use lemon_core.EasyFs.Layout.Data.{splice}
use lemon_core.EasyFs.Layout.Data.Bytes.{tabulate}

-- Whether `p` lies in the span from `a` to `b`.
abbrev pub within : ℕ → ℕ → ℕ → Bool
within a b p = leb a p && ltb p b

pub get_or-tabulate : (f : ℕ → ℕ) (a n i : ℕ) → i < n → get_or (tabulate f a n) i 0 ≡ f (a + i)
get_or-tabulate f a zero i h = absurd (omega arith)
get_or-tabulate f a (suc n) zero h = let z : a + 0 ≡ a = omega arith in rw z
get_or-tabulate f a (suc n) (suc i) h =
    get_or-tabulate f (a + 1) n i (omega arith) ∙ ap f (omega arith)

get_or-front :
    (src xs : List ℕ) (i : ℕ)
    → length src ≤ length xs
    → get_or (src ++ drop (length src) xs) i 0
      ≡ (if ltb i (length src) then get_or src i 0 else get_or xs i 0)
get_or-front [] xs i h = ground arith
get_or-front (s ∷ src) [] i h = absurd (omega arith)
get_or-front (s ∷ src) (x ∷ xs) zero h = ground arith
get_or-front (s ∷ src) (x ∷ xs) (suc i) h = ground (arith, get_or-front src xs i)

get_or-spliced :
    (xs : List ℕ) (o : ℕ) (src : List ℕ) (i : ℕ)
    → o + length src ≤ length xs
    → get_or (take o xs ++ (src ++ drop (o + length src) xs)) i 0
      ≡ (if within o (o + length src) i then get_or src (i - o) 0 else get_or xs i 0)
get_or-spliced xs zero src i h =
    let z : 0 + length src ≡ length src = omega arith in
    let y : i - 0 ≡ i = omega arith in
    let w : leb 0 i ≡ true = ground arith in rw (z, y, w) (get_or-front src xs i (omega (arith, h)))
get_or-spliced [] (suc o) src i h = absurd (omega (arith, h))
get_or-spliced (x ∷ xs) (suc o) src zero h =
    let e : suc o + length src ≡ suc (o + length src) = omega arith in ground arith
get_or-spliced (x ∷ xs) (suc o) src (suc i) h =
    let e : suc o + length src ≡ suc (o + length src) = omega arith in
    let d : suc i - suc o ≡ i - o = omega arith in
    let w : within (suc o) (suc (o + length src)) (suc i) ≡ within o (o + length src) i =
      ground arith in
    rw (e, d, w) (get_or-spliced xs o src i (omega (arith, h)))

-- A list with `src` written over it from index `o` on.
pub splice-eq-some :
    (xs : List ℕ) (o : ℕ) (src : List ℕ)
    → o + length src ≤ length xs
    → (ys : List ℕ) × (splice xs o src ≡ some ys)
      × (length ys ≡ length xs)
      × ((i : ℕ)
          → get_or ys i 0
            ≡ (if within o (o + length src) i then get_or src (i - o) 0 else get_or xs i 0))
unfolding splice
splice-eq-some xs o src h =
    let fits : leb (o + length src) (length xs) ≡ true = ground arith in
    (
      take o xs ++ (src ++ drop (o + length src) xs),
      rw fits,
      omega (
        arith,
        h,
        length-append (take o xs) (src ++ drop (o + length src) xs),
        length-append src (drop (o + length src) xs),
        length-take o xs,
        length-drop (o + length src) xs,
      ),
      λ i. get_or-spliced xs o src i h,
    )
