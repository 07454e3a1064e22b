-- ===== src/Kernel/Sync/Fifo.antt =====
-- The blocking mutex of kernel/src/sync/mutex.rs under a sequence of calls.
use lemon_core.Base.{
  ℕ, zero, suc, ◌+◌, ◌≡◌, refl, sym, ap, subst, ◌∙◌, inl, inr, Bool, true, false, Option, none,
  some, List, [], ◌∷◌, ◌++◌, append_assoc, append-nil, arith, ◌==◌, if◌then◌else◌, Bool-cases,
  length, length-append, drop, ◌>>=◌,
}
use lemon_core.Kernel.Task.{ready, blocked, Tasks, wakeup, block_current}
use lemon_core.Kernel.Sync.{
  Turn, done, parked, retry, BlockingInner, new_blocking, lock, unlock, unlock_on,
}

-- A call of `lock` by a task, which is the one that runs, or a call of `unlock`.
pub data Call : Type 0 where
  call_lock : ℕ → Call
  call_unlock : Call

-- The mutex with what happened to it: the tasks that called `lock`, in order; those that were
-- granted it, in order; and the number of calls of `unlock`.
pub record History : Type 0 where
  pub mutex : BlockingInner
  pub tasks : Tasks
  pub calls : List ℕ
  pub granted : List ℕ
  pub unlocks : ℕ

abbrev pub granted_by : Turn → ℕ → List ℕ
granted_by done task = task ∷ []
granted_by parked task = []
granted_by retry task = []

-- The tasks that a call of `unlock` woke: those that it put into the ready queue.
abbrev pub woken : Tasks → Tasks → List ℕ
woken t t' = drop (length t.ready_queue) t'.ready_queue

abbrev pub running_task : ℕ → Tasks → Tasks
running_task task t = record t { current = some task }

pub step : Call → History → Option History
unfolding lock unlock
step (call_lock task) h = do
  (turn, m, t) ← lock h.mutex (running_task task h.tasks)
  some (record {
    mutex = m;
    tasks = t;
    calls = h.calls ++ (task ∷ []);
    granted = h.granted ++ granted_by turn task;
    unlocks = h.unlocks;
  })
step call_unlock h = do
  (m, t) ← unlock h.mutex h.tasks
  some (record h {
    mutex = m;
    tasks = t;
    granted = h.granted ++ woken h.tasks t;
    unlocks = h.unlocks + 1;
  })

pub run : List Call → History → Option History
run [] h = some h
run (c ∷ cs) h = do h' ← step c h; run cs h'

-- From `held` calls of `lock` that no `unlock` answered, no prefix has more calls of `unlock` than
-- calls of `lock`.
abbrev pub Balanced : ℕ → List Call → Type 0
Balanced held [] = Unit {0}
Balanced held (call_lock task ∷ cs) = Balanced (held + 1) cs
Balanced zero (call_unlock ∷ cs) = ⊥
Balanced (suc held) (call_unlock ∷ cs) = Balanced held cs

-- One if the mutex is held.
abbrev pub holders : Bool → ℕ
holders true = 1
holders false = 0

pub record IsFair (h : History) : Type 0 where
  pub order : h.granted ++ h.mutex.wait_queue ≡ h.calls
  pub exclusion : length h.granted ≡ h.unlocks + holders h.mutex.locked
  pub idle : h.mutex.locked ≡ false → h.mutex.wait_queue ≡ []

pub drop_appended : (xs ys : List ℕ) → drop (length xs) (xs ++ ys) ≡ ys
drop_appended [] ys = refl
drop_appended (x ∷ xs) ys = drop_appended xs ys

pub drop_all : (xs : List ℕ) → drop (length xs) xs ≡ []
drop_all [] = refl
drop_all (x ∷ xs) = drop_all xs

lock-IsFair :
    (task : ℕ) (h : History)
    → IsFair h
    → (h' : History) × (step (call_lock task) h ≡ some h')
      × IsFair h'
      × (holders h'.mutex.locked + length h'.mutex.wait_queue
          ≡ holders h.mutex.locked + length h.mutex.wait_queue + 1)
unfolding step lock block_current
lock-IsFair task h v = elim (Bool-cases h.mutex.locked) [
  | inl held ↦ (
    record {
      mutex = record h.mutex { wait_queue = h.mutex.wait_queue ++ (task ∷ []) };
      tasks = record h.tasks {
        current = none;
        status = λ j. if task == j then blocked else h.tasks.status j;
      };
      calls = h.calls ++ (task ∷ []);
      granted = h.granted ++ [];
      unlocks = h.unlocks;
    },
    rw held,
    record {
      order = rw (append-nil h.granted) (
          sym (append_assoc h.granted h.mutex.wait_queue (task ∷ []))
          ∙ ap (λ xs. xs ++ (task ∷ [])) v.order);
      exclusion = rw (append-nil h.granted) v.exclusion;
      idle = λ e. cc;
    },
    omega (arith, length-append h.mutex.wait_queue (task ∷ [])),
  )
  | inr free ↦ (
    record {
      mutex = record h.mutex { locked = true };
      tasks = running_task task h.tasks;
      calls = h.calls ++ (task ∷ []);
      granted = h.granted ++ (task ∷ []);
      unlocks = h.unlocks;
    },
    rw free,
    (let nil : h.mutex.wait_queue ≡ [] = v.idle free in
        let all : h.granted ≡ h.calls =
          sym (append-nil h.granted) ∙ ap (λ xs. h.granted ++ xs) (sym nil) ∙ v.order in
        let none_held : length h.granted ≡ h.unlocks + 0 = rw free at v.exclusion in
        record {
          order = rw (nil, all) (append-nil (h.calls ++ (task ∷ [])));
          exclusion = omega (arith, length-append h.granted (task ∷ []), none_held);
          idle = λ e. cc;
        }),
    rw free (omega arith),
  )
]

unlock-IsFair :
    (h : History)
    → IsFair h
    → h.mutex.locked ≡ true
    → (h' : History) × (step call_unlock h ≡ some h')
      × IsFair h'
      × (holders h'.mutex.locked + length h'.mutex.wait_queue + 1
          ≡ holders h.mutex.locked + length h.mutex.wait_queue)
unfolding step unlock unlock_on wakeup
unlock-IsFair h v held = go h.mutex.wait_queue refl
  where
    go :
        (xs : List ℕ)
        → h.mutex.wait_queue ≡ xs
        → (h' : History) × (step call_unlock h ≡ some h')
          × IsFair h'
          × (holders h'.mutex.locked + length h'.mutex.wait_queue + 1
              ≡ holders h.mutex.locked + length h.mutex.wait_queue)
    go [] e = (
      record {
        mutex = record h.mutex { locked = false };
        tasks = h.tasks;
        calls = h.calls;
        granted = h.granted ++ woken h.tasks h.tasks;
        unlocks = h.unlocks + 1;
      },
      rw (held, e),
      (let quiet : woken h.tasks h.tasks ≡ [] = drop_all h.tasks.ready_queue in
          let one : length h.granted ≡ h.unlocks + 1 = rw held at v.exclusion in
          record {
            order = rw quiet (ap (λ xs. xs ++ h.mutex.wait_queue) (append-nil h.granted) ∙ v.order);
            exclusion = rw (quiet, append-nil h.granted) (omega (arith, one));
            idle = λ z. e;
          }),
      rw (held, e),
    )
    go (task ∷ rest) e =
        let t' : Tasks = record h.tasks {
          ready_queue = h.tasks.ready_queue ++ (task ∷ []);
          status = λ j. if task == j then ready else h.tasks.status j;
        } in
        let wakes : woken h.tasks t' ≡ task ∷ [] = drop_appended h.tasks.ready_queue (task ∷ []) in
        let one : length h.granted ≡ h.unlocks + 1 = rw held at v.exclusion in
        (
          record {
            mutex = record h.mutex { wait_queue = rest };
            tasks = t';
            calls = h.calls;
            granted = h.granted ++ woken h.tasks t';
            unlocks = h.unlocks + 1;
          },
          rw (held, e),
          record {
            order = rw wakes (
                append_assoc h.granted (task ∷ []) rest
                ∙ ap (λ xs. h.granted ++ xs) (sym e)
                ∙ v.order);
            exclusion = rw (wakes, held) (omega (arith, length-append h.granted (task ∷ []), one));
            idle = λ z. cc;
          },
          rw (held, e) (omega arith),
        )

run-from :
    (cs : List Call) (h : History)
    → IsFair h
    → Balanced (holders h.mutex.locked + length h.mutex.wait_queue) cs
    → (h' : History) × (run cs h ≡ some h') × IsFair h'
unfolding run
run-from [] h v b = (h, refl, v)
run-from (call_lock task ∷ cs) h v b =
    let (h₁, e, v₁, n) = lock-IsFair task h v in
    let (h', r, v') = run-from cs h₁ v₁ (subst (λ k. Balanced k cs) (sym n) b) in (h', rw e r, v')
run-from (call_unlock ∷ cs) h v b = elim (Bool-cases h.mutex.locked) [
  | inl held ↦
      let (h₁, e, v₁, n) = unlock-IsFair h v held in
      let k : holders h.mutex.locked + length h.mutex.wait_queue
          ≡ suc (holders h₁.mutex.locked + length h₁.mutex.wait_queue) =
        omega (arith, n) in
      let (h', r, v') = run-from cs h₁ v₁ (subst (λ k. Balanced k (call_unlock ∷ cs)) k b) in
      (h', rw e r, v')
  | inr free ↦
      let z : holders h.mutex.locked + length h.mutex.wait_queue ≡ 0 = rw (free, v.idle free) in
      absurd (subst (λ k. Balanced k (call_unlock ∷ cs)) z b)
]

abbrev pub fresh : Tasks → History
fresh t = record { mutex = new_blocking; tasks = t; calls = []; granted = []; unlocks = 0 }

-- Whatever calls of `lock` and `unlock` a blocking mutex gets, as long as no prefix of them has more
-- of `unlock`, none of them panics; and the tasks granted the mutex, then those that wait for it,
-- are those that called `lock`, in that order, of which as many are granted it as called `unlock`,
-- and one more exactly while it is locked. While it is not locked no task waits.
pub run-IsFair :
    (t : Tasks) (cs : List Call)
    → Balanced 0 cs
    → (h : History) × (run cs (fresh t) ≡ some h) × IsFair h
unfolding new_blocking
run-IsFair t cs b =
    run-from cs (fresh t) (record { order = refl; exclusion = refl; idle = λ e. refl }) b
