-- ===== src/Kernel/Timer/Wakes.antt =====
-- What `check_timer` wakes.
use lemon_core.Base.{
  ℕ, zero, suc, ◌+◌, ◌≤◌, ◌<◌, ◌≡◌, refl, sym, ◌∙◌, ◌↔◌, inl, inr, Bool, false, some, List, [], ◌∷◌,
  ◌++◌, append_assoc, append-nil, arith, ltb, leb, if◌then◌else◌, leb→le, Bool-cases, length,
  contains, All,
}
use lemon_core.Kernel.Task.{Tasks, ready, wakeup, add}
use lemon_core.Kernel.Timer.{
  TimeCondVar, first_of, take_first, peek, check_timer_from, check_timer_loop, check_timer,
}

-- How many timers pass a test.
abbrev pub tally : (TimeCondVar → Bool) → List TimeCondVar → ℕ
tally test [] = 0
tally test (t ∷ ts) = (if test t then 1 else 0) + tally test ts

abbrev pub IsSorted : List TimeCondVar → Type 0
IsSorted [] = Unit {0}
IsSorted (t ∷ ts) = All (λ u. t.expire_ms ≤ u.expire_ms) ts × IsSorted ts

abbrev pub tasks_of : List TimeCondVar → List ℕ
tasks_of [] = []
tasks_of (t ∷ ts) = t.task ∷ tasks_of ts

-- What `peek` finds among the timers `ts`.
record IsFirst (ts : List TimeCondVar) (t : TimeCondVar) (rest : List TimeCondVar) : Type 0 where
  counted : (test : TimeCondVar → Bool) → tally test ts ≡ tally test (t ∷ rest)
  least : All (λ u. t.expire_ms ≤ u.expire_ms) rest
  shorter : length ts ≡ suc (length rest)

All_weaken :
    (m n : ℕ) (ts : List TimeCondVar)
    → m ≤ n
    → All (λ u. n ≤ u.expire_ms) ts
    → All (λ u. m ≤ u.expire_ms) ts
All_weaken m n [] h a = tt
All_weaken m n (t ∷ ts) h a = (omega (arith, a.0), All_weaken m n ts h a.1)

take_first-IsFirst :
    (t : TimeCondVar) (ts : List TimeCondVar)
    → IsFirst (t ∷ ts) (take_first t ts).0 (take_first t ts).1
unfolding take_first first_of
take_first-IsFirst t [] = record { counted = λ test. refl; least = tt; shorter = refl }
take_first-IsFirst t (u ∷ us) =
    go t u us (take_first u us).0 (take_first u us).1 (take_first-IsFirst u us)
  where
    go :
        (t u : TimeCondVar) (us : List TimeCondVar) (f : TimeCondVar) (rest : List TimeCondVar)
        → IsFirst (u ∷ us) f rest
        → IsFirst (t ∷ u ∷ us) (first_of t (f, rest)).0 (first_of t (f, rest)).1
    go t u us f rest i = elim (Bool-cases (leb t.expire_ms f.expire_ms)) [
      | inl h ↦ rw h (record {
        counted = λ test. omega (arith, i.counted test);
        least = (leb→le _ _ h, All_weaken t.expire_ms f.expire_ms rest (leb→le _ _ h) i.least);
        shorter = omega (arith, i.shorter);
      })
      | inr h ↦ rw h (record {
        counted = λ test. omega (arith, i.counted test);
        least = (ground arith, i.least);
        shorter = omega (arith, i.shorter);
      })
    ]

-- What `check_timer` at time `now` does: the timers woken, first to last, and what it leaves.
pub record Wakes (now : ℕ) (timers : List TimeCondVar) (t : Tasks) (timers' : List TimeCondVar)
    (t' : Tasks) : Type 0 where
  pub woken : List TimeCondVar
  pub split :
      (test : TimeCondVar → Bool) → tally test timers ≡ tally test woken + tally test timers'
  pub due : All (λ u. u.expire_ms ≤ now) woken
  pub later : All (λ u. now + 1 ≤ u.expire_ms) timers'
  pub sorted : IsSorted woken
  pub queue : t'.ready_queue ≡ t.ready_queue ++ tasks_of woken
  pub made_ready :
      (j : ℕ) → t'.status j ≡ (if contains j (tasks_of woken) then ready else t.status j)
  pub current_kept : t'.current ≡ t.current

-- After the first timer, which is due, the rest.
wake_first :
    (now : ℕ) (ts : List TimeCondVar) (f : TimeCondVar) (rest ts' : List TimeCondVar) (t t' : Tasks)
    → IsFirst ts f rest
    → f.expire_ms ≤ now
    → (w : Wakes now rest (wakeup f.task t) ts' t') → All (λ u. f.expire_ms ≤ u.expire_ms) w.woken
    → Wakes now ts t ts' t'
unfolding wakeup add
wake_first now ts f rest ts' t t' i h w low = record {
  woken = f ∷ w.woken;
  split = λ test. omega (arith, i.counted test, w.split test);
  due = (h, w.due);
  later = w.later;
  sorted = (low, w.sorted);
  queue = w.queue ∙ append_assoc t.ready_queue (f.task ∷ []) (tasks_of w.woken);
  made_ready = λ j. w.made_ready j ∙ ground arith;
  current_kept = w.current_kept;
}

All-tally :
    (n : ℕ) (ts : List TimeCondVar)
    → All (λ u. n ≤ u.expire_ms) ts ↔ (tally (λ u. ltb u.expire_ms n) ts ≡ 0)
All-tally n [] = (λ a. refl, λ e. tt)
All-tally n (t ∷ ts) = (
  λ a.
      let l : ltb t.expire_ms n ≡ false = ground (arith, a.0) in
      rw l (omega (arith, (All-tally n ts).0 a.1)),
  λ e.
      let h : n ≤ t.expire_ms = ground (arith, e) in
      let l : ltb t.expire_ms n ≡ false = ground arith in
      (h, (All-tally n ts).1 (omega (arith, (rw l at e)))),
)

-- A bound on all timers, for the first and the others.
first_bound :
    (n : ℕ) (ts : List TimeCondVar) (f : TimeCondVar) (rest : List TimeCondVar)
    → IsFirst ts f rest
    → All (λ u. n ≤ u.expire_ms) ts ↔ (n ≤ f.expire_ms)
first_bound n ts f rest i = (
  λ a. ((All-tally n (f ∷ rest)).1 (sym (i.counted _) ∙ (All-tally n ts).0 a)).0,
  λ h.
      (All-tally n ts).1
        (i.counted _ ∙ (All-tally n (f ∷ rest)).0 (h, All_weaken n f.expire_ms rest h i.least)),
)

check_timer_loop-Wakes :
    (rounds now low : ℕ) (timers : List TimeCondVar) (t : Tasks)
    → length timers < rounds
    → All (λ u. low ≤ u.expire_ms) timers
    → (timers' : List TimeCondVar) × (t' : Tasks) × (check_timer_loop rounds now timers t
        ≡ some (timers', t'))
      × (w : Wakes now timers t timers' t') × All (λ u. low ≤ u.expire_ms) w.woken
unfolding check_timer_loop check_timer_from peek wake_first
check_timer_loop-Wakes zero now low timers t h a = absurd (omega arith)
check_timer_loop-Wakes (suc rounds) now low [] t h a = (
  [],
  t,
  refl,
  record {
    woken = [];
    split = λ test. omega arith;
    due = tt;
    later = tt;
    sorted = tt;
    queue = sym (append-nil t.ready_queue);
    made_ready = λ j. refl;
    current_kept = refl;
  },
  tt,
)
check_timer_loop-Wakes (suc rounds) now low (u ∷ us) t h a =
    let f : TimeCondVar = (take_first u us).0 in
    let rest : List TimeCondVar = (take_first u us).1 in
    let i : IsFirst (u ∷ us) f rest = take_first-IsFirst u us in
    let bound : low ≤ f.expire_ms = (first_bound low (u ∷ us) f rest i).0 a in
    elim (Bool-cases (leb f.expire_ms now)) [
      | inl due ↦
          let (ts', t', done, w, above) =
            check_timer_loop-Wakes rounds now f.expire_ms rest (wakeup f.task t)
              (omega (arith, i.shorter)) i.least in
          (
            ts',
            t',
            rw due done,
            wake_first now (u ∷ us) f rest ts' t t' i (leb→le _ _ due) w above,
            (bound, All_weaken low f.expire_ms w.woken bound above),
          )
      | inr late ↦ (
        u ∷ us,
        t,
        rw late refl,
        record {
          woken = [];
          split = λ test. omega arith;
          due = tt;
          later = (first_bound (now + 1) (u ∷ us) f rest i).1 (ground arith);
          sorted = tt;
          queue = sym (append-nil t.ready_queue);
          made_ready = λ j. refl;
          current_kept = refl;
        },
        tt,
      )
    ]

-- `check_timer` ends within its rounds. The timers that are due at `now`, and no others, are taken
-- out, in the order of their times; the task of each is made ready and put at the end of
-- the ready queue in this order, and no other task changes.
pub check_timer-Wakes :
    (now : ℕ) (timers : List TimeCondVar) (t : Tasks)
    → (timers' : List TimeCondVar) × (t' : Tasks) × (check_timer now timers t ≡ some (timers', t'))
      × Wakes now timers t timers' t'
unfolding check_timer
check_timer-Wakes now timers t =
    let (timers', t', done, w, low) =
      check_timer_loop-Wakes (suc (length timers)) now 0 timers t (omega arith)
        ((All-tally 0 timers).1 (none_below timers)) in
    (timers', t', done, w)
  where
    none_below : (ts : List TimeCondVar) → tally (λ u. ltb u.expire_ms 0) ts ≡ 0
    none_below [] = refl
    none_below (u ∷ us) = ground (arith, none_below us)
