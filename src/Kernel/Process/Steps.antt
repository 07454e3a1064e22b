-- ===== src/Kernel/Process/Steps.antt =====
-- Parents and children across one call.
use lemon_core.Base.{
  ◌>>=◌, ◌>>◌, ℕ, ◌≡◌, refl, sym, ap, subst, ◌∙◌, ◌≢◌, inl, inr, Bool, true, false, ◌&&◌, ◌||◌,
  Option, none, some, List, [], ◌∷◌, ◌++◌, arith, ◌==◌, ==_iff, Bool-cases, Option-cases, length,
  assert, contains, Distinct,
}
use mathlib.Core.Option.{some-injective}
use lemon_core.Kernel.Slots.{slot}
use lemon_core.Kernel.Sync.{ℤ}
use lemon_core.Kernel.Process.{
  World, at, fork, exit_process, sys_waitpid, reap, strong_count, is_some, find_child, any_child,
  matches, insert_into_pid2process,
}
use lemon_core.Kernel.Process.Ending.{CanEnd, exit_process-HasEnded}

-- Every child has the process that lists it as its parent, and is listed once.
pub record IsFamily (w : World) : Type 0 where
  pub child_of : (p c : ℕ) → contains c (w.children p) ≡ true → w.parent c ≡ some p
  pub distinct : (p : ℕ) → Distinct (w.children p)

-- A control block that is new: no process lists it.
abbrev pub IsNew : ℕ → World → Type 0
IsNew c w = (p : ℕ) → contains c (w.children p) ≡ false

pub contains-append :
    (x : ℕ) (xs ys : List ℕ) → contains x (xs ++ ys) ≡ (contains x xs || contains x ys)
contains-append x [] ys = refl
contains-append x (y ∷ xs) ys = ground (arith, contains-append x xs ys)

Distinct-append :
    (xs ys : List ℕ)
    → Distinct xs
    → Distinct ys
    → ((x : ℕ) → contains x xs ≡ true → contains x ys ≡ false)
    → Distinct (xs ++ ys)
Distinct-append [] ys d e h = e
Distinct-append (x ∷ xs) ys d e h = (
  contains-append x xs ys ∙ ground (arith, d.0, h x (ground arith)),
  Distinct-append xs ys d.1 e (λ z c. h z (ground (arith, c))),
)

fork-children :
    (w w' : World) (self child task : ℕ)
    → fork self child task w ≡ some w'
    → (j : ℕ)
    → (w'.children j ≡ at (at w.children child []) self (w.children self ++ (child ∷ [])) j)
      × (w'.parent j ≡ at w.parent child (some self) j)
unfolding fork insert_into_pid2process
fork-children w w' self child task e j = elim (Bool-cases (length (w.threads self) == 1)) [
  | inr n ↦ absurd (ground (arith, (rw n at e)))
  | inl h ↦ elim (Option-cases (slot (w.threads self) 0)) [
    | inl gone ↦ absurd (none-ne-some (rw (h, gone) at e))
    | inr (main, here) ↦ elim (Bool-cases (is_some (w.res main))) [
      | inr n ↦ absurd (none-ne-some (rw (h, here, n) at e))
      | inl y ↦
          let eq = some-injective _ _ (rw (h, here, y) at e) in
          (sym (ap (λ x. x.children j) eq), sym (ap (λ x. x.parent j) eq))
    ]
  ]
]
  where
    none-ne-some : none ≡ some w' → ⊥
    none-ne-some e = cc

pub fork-IsFamily :
    {w w' : World} (self child task : ℕ)
    → IsFamily w
    → IsNew child w
    → child ≢ self
    → fork self child task w ≡ some w'
    → IsFamily w'
fork-IsFamily {w} {w'} self child task i new ne e =
    let shape = fork-children w w' self child task e in
    record {
      child_of = λ p c k.
          let k' = ap (contains c) (sym (shape p).0) ∙ k in
          (shape c).1 ∙ elim (Bool-cases (self == p)) [
            | inl s ↦
                let es : self ≡ p = (==_iff self p).0 s in
                elim (Bool-cases (child == c)) [
                  | inl q ↦ rw q (ap some es)
                  | inr q ↦ rw q (
                      i.child_of p c (
                        ground (
                          arith,
                          (rw s at k'),
                          contains-append c (w.children self) (child ∷ []),
                          ap w.children es,
                        )))
                ]
            | inr s ↦ elim (Bool-cases (child == p)) [
              | inl q ↦ absurd (ground (arith, (rw (s, q) at k')))
              | inr q ↦
                  let old : contains c (w.children p) ≡ true = rw (s, q) at k' in
                  elim (Bool-cases (child == c)) [
                    | inl r ↦ absurd (ground (arith, new p, old, (==_iff child c).0 r))
                    | inr r ↦ rw r (i.child_of p c old)
                  ]
            ]
          ];
      distinct = λ p. subst Distinct (sym (shape p).0) (elim (Bool-cases (self == p)) [
        | inl s ↦ rw s (
            Distinct-append (w.children self) (child ∷ []) (i.distinct self) (refl, tt)
              (λ x c. ground (arith, new self, c)))
        | inr s ↦ elim (Bool-cases (child == p)) [
          | inl q ↦ rw (s, q) tt
          | inr q ↦ rw (s, q) (i.distinct p)
        ]
      ]);
    }

pub exit_process-IsFamily :
    {w w' : World} (p : ℕ) (code : ℤ)
    → IsFamily w
    → CanEnd p w
    → exit_process p code w ≡ some w'
    → IsFamily w'
exit_process-IsFamily {w} {w'} p code i c e =
    let (w'', done, h) = exit_process-HasEnded p code w c in
    let same : w'' ≡ w' = some-injective _ _ (sym done ∙ e) in
    subst IsFamily same (record {
      child_of = λ q x k.
          let k' = ap (contains x) (sym (h.children q)) ∙ k in
          h.parent x ∙ elim (Bool-cases (p == q)) [
            | inl e ↦ absurd (ground (arith, (rw e at k')))
            | inr n ↦ elim (Bool-cases (contains x (w.children p))) [
              | inl m ↦ rw m (elim (Bool-cases (w.daemon == q)) [
                | inl d ↦ ap some ((==_iff w.daemon q).0 d)
                | inr f ↦
                    let twice =
                      some-injective _ _
                        (sym (i.child_of p x m) ∙ i.child_of q x (rw (n, f) at k')) in
                    absurd (ground (arith, (==_iff p q).1 twice))
              ])
              | inr m ↦ rw m (elim (Bool-cases (w.daemon == q)) [
                | inl d ↦ i.child_of q x (
                    ground
                      (arith, (rw (n, d) at k'), contains-append x (w.children q) (w.children p)))
                | inr f ↦ i.child_of q x (rw (n, f) at k')
              ])
            ]
          ];
      distinct = λ q. elim (Bool-cases (p == q)) [
        | inl e ↦
            let z : w''.children q ≡ [] = h.children q ∙ rw e refl in subst Distinct (sym z) tt
        | inr n ↦ elim (Bool-cases (w.daemon == q)) [
          | inl d ↦ subst Distinct (sym (h.children q ∙ rw (n, d) refl)) (
              Distinct-append (w.children q) (w.children p) (i.distinct q) (i.distinct p) (λ x k.
                elim (Bool-cases (contains x (w.children p))) [
                  | inl m ↦ absurd (
                      c.other (
                        some-injective _ _ (sym (i.child_of p x m) ∙ i.child_of q x k)
                        ∙ sym ((==_iff w.daemon q).0 d)))
                  | inr m ↦ m
                ]))
          | inr m ↦ subst Distinct (sym (h.children q ∙ rw (n, m) refl)) (i.distinct q)
        ]
      ];
    })

-- What is left after the first child that passes a test.
find_child-rest :
    (test : ℕ → Bool) (cs : List ℕ) (found : ℕ) (rest : List ℕ)
    → find_child test cs ≡ some (found, rest)
    → ((x : ℕ) → contains x rest ≡ true → contains x cs ≡ true) × (Distinct cs → Distinct rest)
find_child-rest test [] found rest e = cc
find_child-rest test (c ∷ cs) found rest e = elim (Bool-cases (test c)) [
  | inl h ↦
      let same : cs ≡ rest = ap (λ x. x.1) (some-injective _ _ (rw h at e)) in
      (λ x k. let k' = ap (contains x) same ∙ k in ground arith, λ d. subst Distinct same d.1)
  | inr h ↦ go (find_child test cs) refl (rw h at e) (λ f r q. find_child-rest test cs f r q)
]
  where
    go :
        (o : Option (ℕ × List ℕ))
        → find_child test cs ≡ o
        → ◌>>=◌ {B = ℕ × List ℕ} o (λ x. some (x.0, c ∷ x.1)) ≡ some (found, rest)
        → ((f : ℕ) (r : List ℕ)
            → find_child test cs ≡ some (f, r)
            → ((x : ℕ) → contains x r ≡ true → contains x cs ≡ true) × (Distinct cs → Distinct r))
        → ((x : ℕ) → contains x rest ≡ true → contains x (c ∷ cs) ≡ true)
          × (Distinct (c ∷ cs) → Distinct rest)
    go none q k ih = cc
    go (some (f, r)) q k ih =
        let same : c ∷ r ≡ rest = ap (λ x. x.1) (some-injective _ _ k) in
        let (more, d) = ih f r q in
        (
          λ x m. let m' = ap (contains x) same ∙ m in ground (arith, more x),
          λ (new, old). subst Distinct same (ground (arith, new, more c), d old),
        )

pub waits-IsFamily :
    (w w' : World) (self : ℕ) (others : ℕ → ℕ) (translates : Bool) (pid r : ℤ) (code : Option ℤ)
    → IsFamily w
    → sys_waitpid self others translates pid w ≡ some (r, code, w')
    → IsFamily w'
unfolding sys_waitpid reap
waits-IsFamily w w' self others translates pid r code i e =
    elim (Bool-cases (any_child (matches w pid) (w.children self))) [
      | inr none_match ↦ subst IsFamily (ap (λ x. x.2) (some-injective _ _ (rw none_match at e))) i
      | inl some_match ↦
          go (find_child (λ c. w.is_zombie c && matches w pid c) (w.children self)) refl
            (rw some_match at e)
    ]
  where
    translated :
        {x : ℤ × Option ℤ × World} (b : Bool)
        → (assert b >> some x) ≡ some (r, code, w')
        → some x ≡ some (r, code, w')
    translated true k = k
    translated false k = cc

    go :
        (o : Option (ℕ × List ℕ))
        → find_child (λ c. w.is_zombie c && matches w pid c) (w.children self) ≡ o
        → reap self others translates w o ≡ some (r, code, w')
        → IsFamily w'
    go none q k = subst IsFamily (ap (λ x. x.2) (some-injective _ _ k)) i
    go (some (c, rest)) q k = elim (Bool-cases (strong_count others w c rest == 1)) [
      | inr n ↦ absurd (ground (arith, (rw n at k)))
      | inl y ↦
          let (old, d) =
            find_child-rest (λ c. w.is_zombie c && matches w pid c) (w.children self) c rest q in
          subst IsFamily (ap (λ x. x.2) (some-injective _ _ (translated translates (rw y at k))))
            (record {
              child_of = λ p x m. elim (Bool-cases (self == p)) [
                | inl s ↦ i.child_of p x (
                    subst (λ j. contains x (w.children j) ≡ true) ((==_iff self p).0 s)
                      (old x (rw s at m)))
                | inr n ↦ i.child_of p x (rw n at m)
              ];
              distinct = λ p. elim (Bool-cases (self == p)) [
                | inl s ↦ rw s (d (i.distinct self))
                | inr n ↦ rw n (i.distinct p)
              ];
            })
    ]
