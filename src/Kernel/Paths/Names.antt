-- ===== src/Kernel/Paths/Names.antt =====
-- The parts of a path of kernel/src/fs/mod.rs, taken apart and put together again.
use lemon_core.Base.{
  ℕ, ◌≡◌, refl, sym, ap, ap₂, ◌∙◌, ◌≢◌, ==_iff, inl, inr, false, List, [], ◌∷◌, ◌++◌, append_assoc,
  append-nil, arith, ◌==◌, Bool-cases, contains, All,
}
use lemon_core.Kernel.Paths.{
  slash, dot, split, split_with, split_at, Part, nothing, up, name, part_of, pop, push_part,
  resolve, join,
}

-- A name: a part that is not empty, `.` or `..`, and has no slash.
pub record IsName (part : List ℕ) : Type 0 where
  pub not_empty : part ≢ []
  pub not_dot : part ≢ dot ∷ []
  pub not_dots : part ≢ dot ∷ dot ∷ []
  pub no_slash : contains slash part ≡ false

-- The match takes just the names as names.
part_of-name :
    (part : List ℕ) → part ≢ [] → part ≢ dot ∷ [] → part ≢ dot ∷ dot ∷ [] → part_of part ≡ name
unfolding part_of
part_of-name [] e d dd = absurd (e refl)
part_of-name (c ∷ []) e d dd = elim (Bool-cases (c == dot)) [
  | inl h ↦ absurd (d (ap (λ x. x ∷ []) ((==_iff c dot).0 h)))
  | inr n ↦ rw n refl
]
part_of-name (c ∷ c' ∷ []) e d dd = elim (Bool-cases (c == dot)) [
  | inl h ↦ elim (Bool-cases (c' == dot)) [
    | inl h' ↦ absurd (dd (ap₂ (λ x y. x ∷ y ∷ []) ((==_iff c dot).0 h) ((==_iff c' dot).0 h')))
    | inr n ↦ rw (h, n) refl
  ]
  | inr n ↦ rw n refl
]
part_of-name (c ∷ c' ∷ c'' ∷ cs) e d dd = refl

name-part_of : (part : List ℕ) → part_of part ≡ name → contains slash part ≡ false → IsName part
unfolding part_of
name-part_of part k h = record {
  not_empty = λ e. nothing-ne-name (sym (ap part_of e) ∙ k);
  not_dot = λ e. nothing-ne-name (sym (ap part_of e) ∙ k);
  not_dots = λ e. up-ne-name (sym (ap part_of e) ∙ k);
  no_slash = h;
}
  where
    nothing-ne-name : nothing ≡ name → ⊥
    nothing-ne-name e = cc

    up-ne-name : up ≡ name → ⊥
    up-ne-name e = cc

-- Every part that `split` gives has no slash.
abbrev HasNoSlash : List ℕ → Type 0
HasNoSlash part = contains slash part ≡ false

split_at-HasNoSlash :
    (c : ℕ) (part : List ℕ) (parts : List (List ℕ))
    → All HasNoSlash (part ∷ parts)
    → All HasNoSlash (split_at c part parts)
unfolding split_at
split_at-HasNoSlash c part parts a = elim (Bool-cases (c == slash)) [
  | inl e ↦ rw e (refl, a)
  | inr n ↦ rw n (rw n a.0, a.1)
]

split_with-HasNoSlash :
    (c : ℕ) (parts : List (List ℕ)) → All HasNoSlash parts → All HasNoSlash (split_with c parts)
unfolding split_with
split_with-HasNoSlash c [] a = tt
split_with-HasNoSlash c (part ∷ parts) a = split_at-HasNoSlash c part parts a

pub split-HasNoSlash : (cs : List ℕ) → All HasNoSlash (split cs)
unfolding split
split-HasNoSlash [] = (refl, tt)
split-HasNoSlash (c ∷ cs) = split_with-HasNoSlash c (split cs) (split-HasNoSlash cs)

pop-IsName : (parts : List (List ℕ)) → All IsName parts → All IsName (pop parts)
pop-IsName [] a = tt
pop-IsName (p ∷ []) a = tt
pop-IsName (p ∷ q ∷ parts) a = (a.0, pop-IsName (q ∷ parts) a.1)

pub append-IsName :
    (parts : List (List ℕ)) (part : List ℕ)
    → All IsName parts
    → IsName part
    → All IsName (parts ++ (part ∷ []))
append-IsName [] part a n = (n, tt)
append-IsName (p ∷ parts) part a n = (a.0, append-IsName parts part a.1 n)

pub resolve-IsName :
    (parts rest : List (List ℕ))
    → All IsName parts
    → All HasNoSlash rest
    → All IsName (resolve parts rest)
unfolding resolve
resolve-IsName parts [] a h = a
resolve-IsName parts (part ∷ rest) a h =
    resolve-IsName (push_part parts part (part_of part)) rest (pushed (part_of part) refl) h.1
  where
    pushed : (k : Part) → part_of part ≡ k → All IsName (push_part parts part k)
    pushed nothing e = a
    pushed up e = pop-IsName parts a
    pushed name e = append-IsName parts part a (name-part_of part e h.0)

-- Names in a row are only appended.
pub resolve-names :
    (parts rest : List (List ℕ)) → All IsName rest → resolve parts rest ≡ parts ++ rest
unfolding resolve push_part
resolve-names parts [] a = sym (append-nil parts)
resolve-names parts (part ∷ rest) a =
    rw (part_of-name part a.0.not_empty a.0.not_dot a.0.not_dots)
      (resolve-names (parts ++ (part ∷ [])) rest a.1 ∙ append_assoc parts (part ∷ []) rest)

split_with-cons :
    (c : ℕ) (p : List ℕ) (ps : List (List ℕ))
    → (q : List ℕ) × (qs : List (List ℕ)) × (split_with c (p ∷ ps) ≡ q ∷ qs)
unfolding split_with split_at
split_with-cons c p ps = elim (Bool-cases (c == slash)) [
  | inl e ↦ ([], p ∷ ps, rw e refl)
  | inr n ↦ (c ∷ p, ps, rw n refl)
]

split-cons : (cs : List ℕ) → (p : List ℕ) × (ps : List (List ℕ)) × (split cs ≡ p ∷ ps)
unfolding split
split-cons [] = ([], [], refl)
split-cons (c ∷ cs) =
    let (p, ps, e) = split-cons cs in
    let (q, qs, f) = split_with-cons c p ps in (q, qs, ap (split_with c) e ∙ f)

split-slash : (cs : List ℕ) → split (slash ∷ cs) ≡ [] ∷ split cs
unfolding split split_with split_at
split-slash cs =
    let (p, ps, e) = split-cons cs in ap (split_with slash) e ∙ sym (ap (λ xs. [] ∷ xs) e)

-- `split` of a part with no slash, and what follows it.
split-part :
    (part cs : List ℕ)
    → contains slash part ≡ false
    → split (part ++ (slash ∷ cs)) ≡ part ∷ split cs
unfolding split split_with split_at
split-part [] cs h = split-slash cs
split-part (c ∷ part) cs h =
    let ne : c == slash ≡ false = ground (arith, h) in
    rw (split-part part cs (ground (arith, h)), ne) refl

pub split-last : (part : List ℕ) → contains slash part ≡ false → split part ≡ part ∷ []
unfolding split split_with split_at
split-last [] h = refl
split-last (c ∷ part) h =
    let ne : c == slash ≡ false = ground (arith, h) in
    rw (split-last part (ground (arith, h)), ne) refl

-- `split` undoes `join`.
split-join :
    (p : List ℕ) (parts : List (List ℕ))
    → All IsName (p ∷ parts)
    → split (join (p ∷ parts)) ≡ p ∷ parts
unfolding join
split-join p [] a = split-last p a.0.no_slash
split-join p (q ∷ parts) a =
    split-part p (join (q ∷ parts)) a.0.no_slash ∙ ap (λ xs. p ∷ xs) (split-join q parts a.1)

pub resolve-join :
    (parts : List (List ℕ)) → All IsName parts → resolve [] (split (slash ∷ join parts)) ≡ parts
unfolding resolve push_part part_of join split split_with split_at
resolve-join [] a = refl
resolve-join (p ∷ parts) a =
    ap (resolve []) (split-slash (join (p ∷ parts)) ∙ ap (λ xs. [] ∷ xs) (split-join p parts a))
    ∙ resolve-names [] (p ∷ parts) a

-- A slash between two texts parts them.
pub split-append : (xs ys : List ℕ) → split (xs ++ (slash ∷ ys)) ≡ split xs ++ split ys
unfolding split split_with split_at
split-append [] ys = split-slash ys
split-append (c ∷ xs) ys =
    let (p, ps, e) = split-cons xs in
    ap (split_with c) (split-append xs ys)
    ∙ (rw e (split_with-append c p ps (split ys)) ∙ ap (λ zs. split_with c zs ++ split ys) (sym e))
  where
    split_with-append :
        (c : ℕ) (p : List ℕ) (ps qs : List (List ℕ))
        → split_with c ((p ∷ ps) ++ qs) ≡ split_with c (p ∷ ps) ++ qs
    split_with-append c p ps qs = elim (Bool-cases (c == slash)) [
      | inl e ↦ rw e refl
      | inr n ↦ rw n refl
    ]

pub resolve-append :
    (parts xs ys : List (List ℕ)) → resolve parts (xs ++ ys) ≡ resolve (resolve parts xs) ys
unfolding resolve
resolve-append parts [] ys = refl
resolve-append parts (x ∷ xs) ys = resolve-append (push_part parts x (part_of x)) xs ys
