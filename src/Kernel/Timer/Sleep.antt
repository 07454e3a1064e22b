-- ===== src/Kernel/Timer/Sleep.antt =====
-- A task that sleeps, and the timer that wakes it.
use lemon_core.Base.{
  ℕ, ◌+◌, ◌%◌, ◌^◌, ◌≤◌, ◌<◌, ◌≡◌, refl, ap, ◌∙◌, inl, inr, Bool, true, false, ◌&&◌, ◌||◌, none,
  some, List, [], ◌∷◌, ◌++◌, arith, ◌==◌, if◌then◌else◌, ==_iff, Bool-cases, contains, All,
}
use lemon_core.Kernel.Task.{Tasks, ready, blocked, block_current}
use lemon_core.Kernel.Timer.{TimeCondVar, add_timer, check_timer, sys_sleep}
use lemon_core.Kernel.Timer.Wakes.{tally, tasks_of, check_timer-Wakes}

-- The timers of a task for a time.
abbrev pub is_timer : ℕ → ℕ → TimeCondVar → Bool
is_timer expire_ms task u = u.expire_ms == expire_ms && u.task == task

contains-tasks_of :
    (e task : ℕ) (ts : List TimeCondVar)
    → 1 ≤ tally (is_timer e task) ts
    → contains task (tasks_of ts) ≡ true
contains-tasks_of e task [] h = absurd (omega arith)
contains-tasks_of e task (u ∷ us) h = elim (Bool-cases (u.task == task)) [
  | inl q ↦ rw q refl
  | inr n ↦
      let other : is_timer e task u ≡ false = ground arith in
      let rest : 1 ≤ tally (is_timer e task) us = omega (arith, (rw other at h)) in
      rw n (contains-tasks_of e task us rest)
]

none_later :
    (e task n : ℕ) (ts : List TimeCondVar)
    → e ≤ n
    → All (λ u. n + 1 ≤ u.expire_ms) ts
    → tally (is_timer e task) ts ≡ 0
none_later e task n [] h a = refl
none_later e task n (u ∷ us) h a =
    let other : is_timer e task u ≡ false = ground (arith, a.0) in
    rw other (omega (arith, none_later e task n us h a.1))

none_due :
    (e task n : ℕ) (ts : List TimeCondVar)
    → n < e
    → All (λ u. u.expire_ms ≤ n) ts
    → tally (is_timer e task) ts ≡ 0
none_due e task n [] h a = refl
none_due e task n (u ∷ us) h a =
    let other : is_timer e task u ≡ false = ground (arith, a.0) in
    rw other (omega (arith, none_due e task n us h a.1))

contains-append :
    (x : ℕ) (xs ys : List ℕ) → contains x (xs ++ ys) ≡ (contains x xs || contains x ys)
contains-append x [] ys = refl
contains-append x (y ∷ xs) ys = ground (arith, contains-append x xs ys)

-- A task that sleeps is blocked, and leaves the processor; the first `check_timer` at or after the end
-- of its sleep puts it into the ready queue as ready, and one before leaves its timer.
pub sys_sleep-check_timer :
    (now ms later task : ℕ) (timers : List TimeCondVar) (t : Tasks)
    → t.current ≡ some task
    → now + ms < 2 ^ 64
    → (timers' : List TimeCondVar) × (t' : Tasks) × (sys_sleep now ms timers t ≡ some (timers', t'))
      × (t'.current ≡ none)
      × (t'.status task ≡ blocked)
      × (timers'' : List TimeCondVar) × (t'' : Tasks) × (check_timer later timers' t'
          ≡ some (timers'', t''))
      × (now + ms ≤ later → (contains task t''.ready_queue ≡ true) × (t''.status task ≡ ready))
      × (later < now + ms
          → tally (is_timer (now + ms) task) timers'' ≡ 1 + tally (is_timer (now + ms) task) timers)
unfolding sys_sleep add_timer block_current
sys_sleep-check_timer now ms later task timers t c small =
    let timer : TimeCondVar = record { expire_ms = now + ms; task = task } in
    let whole : (now + ms) % 2 ^ 64 ≡ now + ms = omega (arith, small) in
    let t' : Tasks = record t {
      current = none;
      status = λ j. if task == j then blocked else t.status j;
    } in
    let (timers'', t'', done, w) = check_timer-Wakes later (timer ∷ timers) t' in
    (
      timer ∷ timers,
      t',
      rw (c, whole) refl,
      refl,
      rw ((==_iff task task).1 refl) refl,
      timers'',
      t'',
      done,
      λ h.
          let n = none_later (now + ms) task later timers'' h w.later in
          let one : is_timer (now + ms) task timer ≡ true =
            rw ((==_iff (now + ms) (now + ms)).1 refl, (==_iff task task).1 refl) refl in
          let c =
            contains-tasks_of (now + ms) task w.woken
              (omega (arith, n, (rw one at (w.split (is_timer (now + ms) task))))) in
          (
            ap (contains task) w.queue
                ∙ (contains-append task t'.ready_queue (tasks_of w.woken) ∙ ground (arith, c)),
            w.made_ready task ∙ rw c refl,
          ),
      λ h.
          let n = none_due (now + ms) task later w.woken h w.due in
          let one : is_timer (now + ms) task timer ≡ true =
            rw ((==_iff (now + ms) (now + ms)).1 refl, (==_iff task task).1 refl) refl in
          omega (arith, n, (rw one at (w.split (is_timer (now + ms) task)))),
    )
