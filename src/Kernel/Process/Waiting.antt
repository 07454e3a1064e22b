-- ===== src/Kernel/Process/Waiting.antt =====
-- `sys_waitpid`, alone and after the end of a child.
use lemon_core.Base.{
  ℕ, ◌^◌, ◌<◌, ◌≡◌, refl, sym, ap, ap₂, subst, ◌∙◌, ◌≢◌, inl, inr, Bool, true, false, ◌&&◌, some,
  List, [], ◌∷◌, ◌++◌, arith, ltb, ◌==◌, if◌then◌else◌, ==_iff, Bool-cases, contains, Distinct, All,
}
use lemon_core.Kernel.Sync.{ℤ, pos, as_isize}
use lemon_core.Kernel.Process.{
  World, at, exit_process, sys_waitpid, reap, find_child, any_child, matches, strong_count, occurs,
  registrations, without_pid,
}
use lemon_core.Kernel.Process.Ending.{CanEnd, HasEnded, exit_process-HasEnded}
use lemon_core.Kernel.Process.Steps.{IsFamily, contains-append, exit_process-IsFamily}

-- A child that alone passes a test is found.
find_child-only :
    (test : ℕ → Bool) (child : ℕ) (cs : List ℕ)
    → contains child cs ≡ true
    → test child ≡ true
    → ((c : ℕ) → contains c cs ≡ true → test c ≡ true → child ≡ c)
    → (front : List ℕ) × (back : List ℕ) × (find_child test cs ≡ some (child, front ++ back))
      × (cs ≡ front ++ (child ∷ back))
find_child-only test child [] k t only = cc
find_child-only test child (c ∷ cs) k t only = elim (Bool-cases (test c)) [
  | inl h ↦
      let same : child ≡ c = only c (ground arith) h in
      ([], cs, rw h (ap (λ x. some (x, cs)) (sym same)), ap (λ x. x ∷ cs) (sym same))
  | inr h ↦
      let ne : c == child ≡ false = elim (Bool-cases (c == child)) [
        | inl s ↦ absurd (ground (arith, h, ap test ((==_iff c child).0 s), t))
        | inr n ↦ n
      ] in
      let (front, back, found, split) =
        find_child-only test child cs (ground arith) t (λ d m u. only d (ground arith) u) in
      (c ∷ front, back, rw (h, found) refl, ap (λ xs. c ∷ xs) split)
]

any_child-contains :
    (test : ℕ → Bool) (cs : List ℕ) (c : ℕ)
    → contains c cs ≡ true
    → test c ≡ true
    → any_child test cs ≡ true
any_child-contains test [] c k t = cc
any_child-contains test (d ∷ cs) c k t = elim (Bool-cases (d == c)) [
  | inl s ↦ let e : test d ≡ true = ap test ((==_iff d c).0 s) ∙ t in rw e refl
  | inr n ↦ ground (arith, any_child-contains test cs c (ground arith) t)
]

occurs-none : (c : ℕ) (cs : List ℕ) → contains c cs ≡ false → occurs c cs ≡ 0
occurs-none c [] h = refl
occurs-none c (d ∷ cs) h =
    let n : d == c ≡ false = ground (arith, h) in rw n (occurs-none c cs (ground (arith, h)))

-- What stands once in a list does not stand in what is left of it.
occurs-once :
    (c : ℕ) (front back : List ℕ) → Distinct (front ++ (c ∷ back)) → occurs c (front ++ back) ≡ 0
occurs-once c [] back d = occurs-none c back d.0
occurs-once c (x ∷ front) back d =
    let n : x == c ≡ false = elim (Bool-cases (x == c)) [
      | inl e ↦
          absurd (ground (arith, d.0, contains-append x front (c ∷ back), (==_iff x c).0 e, e))
      | inr n ↦ n
    ] in
    rw n (occurs-once c front back d.1)

-- A process that is registered under its pid alone is not, once the pid is taken out.
registrations-without_pid :
    (c pid : ℕ) (xs : List (ℕ × ℕ))
    → All (λ e. e.1 ≡ c → e.0 ≡ pid) xs
    → registrations c (without_pid pid xs) ≡ 0
registrations-without_pid c pid [] a = refl
registrations-without_pid c pid ((k, p) ∷ xs) a =
    let rest = registrations-without_pid c pid xs a.1 in
    elim (Bool-cases (k == pid)) [
      | inl e ↦ rw e rest
      | inr n ↦
          let m : p == c ≡ false = elim (Bool-cases (p == c)) [
            | inl s ↦ absurd (ground (arith, n, a.0 ((==_iff p c).0 s)))
            | inr m ↦ m
          ] in
          rw (n, m) rest
    ]

-- The children that a process has once `child` has ended: the daemon has those of `child` too.
abbrev pub heirs : ℕ → ℕ → World → List ℕ
heirs self child w =
    if w.daemon == self then w.children self ++ w.children child else w.children self

-- The call after the end of the child, in a world that `exit_process` leaves.
waits_for :
    (self child : ℕ) (code : ℤ) (others : ℕ → ℕ) (w w' : World)
    → HasEnded child code w w'
    → Distinct (w'.children self)
    → w.pid child < 2 ^ 63
    → child ≢ self
    → contains child (w.children self) ≡ true
    → ((c : ℕ)
        → contains c (heirs self child w) ≡ true
        → (w.is_zombie c && w.pid child == w.pid c) ≡ false)
    → All (λ e. e.1 ≡ child → e.0 ≡ w.pid child) w.pid2process
    → others child ≡ 0
    → (w'' : World) × (sys_waitpid self others true (pos (w.pid child)) w'
        ≡ some (pos (w.pid child), some code, w''))
      × (front : List ℕ) × (back : List ℕ) × (heirs self child w ≡ front ++ (child ∷ back))
      × (w''.children self ≡ front ++ back)
unfolding sys_waitpid reap
waits_for self child code others w w' h distinct low ne listed fresh own none_else =
    let off : child == self ≡ false = ground (arith, ne) in
    let same : w'.children self ≡ heirs self child w = h.children self ∙ rw off refl in
    let test : ℕ → Bool = λ c. w'.is_zombie c && matches w' (pos (w.pid child)) c in
    let among : contains child (heirs self child w) ≡ true = elim (Bool-cases (w.daemon == self)) [
      | inl d ↦ rw d (contains-append child (w.children self) (w.children child) ∙ rw listed refl)
      | inr n ↦ rw n listed
    ] in
    let only : (c : ℕ) → contains c (w'.children self) ≡ true → test c ≡ true → child ≡ c = λ c k t.
      elim (Bool-cases (child == c)) [
        | inl s ↦ (==_iff child c).0 s
        | inr n ↦
            let z : w'.is_zombie c ≡ w.is_zombie c = h.is_zombie c ∙ rw n refl in
            let q : w'.pid c ≡ w.pid c = ap (λ f. f c) h.pid in
            absurd (ground (arith, fresh c (sym (ap (contains c) same) ∙ k), (rw (z, q) at t)))
      ] in
    let q : w'.pid child ≡ w.pid child = ap (λ f. f child) h.pid in
    let passes : test child ≡ true =
      let z : w'.is_zombie child ≡ true =
        h.is_zombie child ∙ rw ((==_iff child child).1 refl) refl in
      rw (z, q) (ground arith) in
    let listed' : contains child (w'.children self) ≡ true = ap (contains child) same ∙ among in
    let matched : matches w' (pos (w.pid child)) child ≡ true = rw q (ground arith) in
    let (front, back, found, split) =
      find_child-only test child (w'.children self) listed' passes only in
    let anyone =
      any_child-contains (matches w' (pos (w.pid child))) (w'.children self) child listed'
        matched in
    let unregistered : registrations child w'.pid2process ≡ 0 =
      ap (registrations child) h.pid2process
      ∙ registrations-without_pid child (w.pid child) w.pid2process own in
    let once = occurs-once child front back (subst Distinct split distinct) in
    let counted : strong_count others w' child (front ++ back) == 1 ≡ true =
      rw (unregistered, once, none_else) refl in
    let code' : w'.exit_code child ≡ code =
      h.exit_code child ∙ rw ((==_iff child child).1 refl) refl in
    let number : as_isize (w'.pid child) ≡ pos (w.pid child) =
      let low' : ltb (w.pid child) (2 ^ 63) ≡ true = ground (arith, low) in rw (q, low') refl in
    (
      record w' { children = at w'.children self (front ++ back) },
      rw (anyone, found, counted)
          (ap₂
            (λ p c. some (p, some c, record w' { children = at w'.children self (front ++ back) }))
            number code'),
      front,
      back,
      sym same ∙ split,
      rw ((==_iff self self).1 refl) refl,
    )

-- A process waits for a child that then has ended. No child that the waiter has by then was a zombie
-- with the pid of this one, `PID2PCB` has the child under its pid alone, the address for the exit code
-- translates, and neither the list of another process nor a call under way refers to the child. The
-- call returns the pid of the child, without the panic on a second reference, and stores the code that
-- the child exited with; the child alone leaves the list of children. The daemon, when it waits, has
-- the children of the child by then.
pub sys_waitpid-exit_process :
    (self child : ℕ) (code : ℤ) (others : ℕ → ℕ) (w : World)
    → IsFamily w
    → CanEnd child w
    → w.pid child < 2 ^ 63
    → child ≢ self
    → contains child (w.children self) ≡ true
    → ((c : ℕ)
        → contains c (heirs self child w) ≡ true
        → (w.is_zombie c && w.pid child == w.pid c) ≡ false)
    → All (λ e. e.1 ≡ child → e.0 ≡ w.pid child) w.pid2process
    → others child ≡ 0
    → (w' : World) × (w'' : World) × (exit_process child code w ≡ some w')
      × (sys_waitpid self others true (pos (w.pid child)) w'
          ≡ some (pos (w.pid child), some code, w''))
      × (front : List ℕ) × (back : List ℕ) × (heirs self child w ≡ front ++ (child ∷ back))
      × (w''.children self ≡ front ++ back)
sys_waitpid-exit_process self child code others w i can low ne listed fresh own none_else =
    let (w', ended, h) = exit_process-HasEnded child code w can in
    let family : IsFamily w' = exit_process-IsFamily child code i can ended in
    let (w'', waited, front, back, split, left) =
      waits_for self child code others w w' h (family.distinct self) low ne listed fresh own
        none_else in
    (w', w'', ended, waited, front, back, split, left)
