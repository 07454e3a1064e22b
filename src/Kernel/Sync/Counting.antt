-- ===== src/Kernel/Sync/Counting.antt =====
-- The semaphore of kernel/src/sync/semaphore.rs under a sequence of calls.
use lemon_core.Base.{
  ℕ, zero, suc, ◌+◌, ◌^◌, ◌≤◌, ◌<◌, min, ◌≡◌, false, true, ltb, refl, sym, ap, ◌∙◌, some, List, [],
  ◌∷◌, ◌++◌, append_assoc, append-nil, arith, ◌==◌, if◌then◌else◌, length, length-append,
}
use lemon_core.Kernel.Task.{ready, Tasks, wakeup, block_current}
use lemon_core.Kernel.Sync.{ℤ, pos, negsuc, new_semaphore, up, down, wake_first}
use lemon_core.Kernel.Sync.Fifo.{woken, running_task, drop_appended, drop_all}
use lemon_core.Kernel.Sync.History.{
  Call, call_down, call_up, History, step, run, Balances, IsCounting, total_calls, order_passes,
  parked_history, parked-IsCounting,
}

-- The tasks that wait called `down`.
waiting_bound :
    (initial : ℕ) (h : History)
    → IsCounting initial h
    → length h.semaphore.wait_queue ≤ length h.calls
waiting_bound initial h v =
    omega (
      arith,
      length-append h.passed h.semaphore.wait_queue,
      ap (λ (xs : List ℕ). length xs) v.order,
    )

-- A call of `down` by a task, which is the one that runs, or a call of `up`.
down-IsCounting :
    (initial task : ℕ) (h : History) (c : ℤ)
    → h.semaphore.count ≡ c
    → IsCounting initial h
    → initial + total_calls h + 1 < 2 ^ 63
    → (h' : History) × (step (call_down task) h ≡ some h')
      × IsCounting initial h'
      × (total_calls h' ≡ suc (total_calls h))
unfolding step down block_current
down-IsCounting initial task h (pos zero) e v u =
    let b : Balances (pos 0) (initial + h.ups) (length h.passed) (length h.semaphore.wait_queue) =
      rw e at v.balance in
    (
      parked_history task (negsuc 0) h,
      rw e,
      parked-IsCounting initial task 0 h v.order (omega (arith, b)) b.1,
      omega (arith, length-append h.calls (task ∷ [])),
    )
down-IsCounting initial task h (pos (suc n)) e v u =
    let b : Balances (pos (suc n)) (initial + h.ups) (length h.passed)
        (length h.semaphore.wait_queue) =
      rw e at v.balance in
    (
      record {
        semaphore = record h.semaphore { count = pos n };
        tasks = running_task task h.tasks;
        calls = h.calls ++ (task ∷ []);
        passed = h.passed ++ (task ∷ []);
        ups = h.ups;
      },
      rw e,
      record {
        order = order_passes task h.passed h.semaphore.wait_queue h.calls b.1 v.order;
        balance = (omega (arith, b, length-append h.passed (task ∷ [])), b.1);
      },
      omega (arith, length-append h.calls (task ∷ [])),
    )
down-IsCounting initial task h (negsuc n) e v u =
    let b : Balances (negsuc n) (initial + h.ups) (length h.passed)
        (length h.semaphore.wait_queue) =
      rw e at v.balance in
    let stays : suc n == 2 ^ 63 ≡ false = ground (arith, b.1, waiting_bound initial h v, u) in
    (
      parked_history task (negsuc (suc n)) h,
      rw (e, stays) refl,
      parked-IsCounting initial task (suc n) h v.order b.0 b.1,
      omega (arith, length-append h.calls (task ∷ [])),
    )

-- What a call of `up` leaves that wakes a task, with the count `c`.
woken_history : ℕ → List ℕ → ℤ → History → History
woken_history task rest c h =
    let t' : Tasks = record h.tasks {
      ready_queue = h.tasks.ready_queue ++ (task ∷ []);
      status = λ j. if task == j then ready else h.tasks.status j;
    } in
    record h {
      semaphore = record { count = c; wait_queue = rest };
      tasks = t';
      passed = h.passed ++ woken h.tasks t';
      ups = h.ups + 1;
    }

woken-IsCounting :
    (initial task : ℕ) (c : ℤ) (h : History) (rest : List ℕ)
    → h.semaphore.wait_queue ≡ task ∷ rest
    → h.passed ++ h.semaphore.wait_queue ≡ h.calls
    → Balances c (initial + (h.ups + 1)) (length (h.passed ++ (task ∷ []))) (length rest)
    → IsCounting initial (woken_history task rest c h)
unfolding woken_history
woken-IsCounting initial task c h rest f o b =
    let wakes = drop_appended h.tasks.ready_queue (task ∷ []) in
    record {
      order =
          rw wakes (append_assoc h.passed (task ∷ []) rest ∙ ap (λ xs. h.passed ++ xs) (sym f) ∙ o);
      balance = rw wakes b;
    }

up-IsCounting :
    (initial : ℕ) (h : History) (c : ℤ) (xs : List ℕ)
    → h.semaphore.count ≡ c
    → h.semaphore.wait_queue ≡ xs
    → IsCounting initial h
    → initial + total_calls h + 1 < 2 ^ 63
    → (h' : History) × (step call_up h ≡ some h')
      × IsCounting initial h'
      × (total_calls h' ≡ suc (total_calls h))
unfolding step up wake_first wakeup woken_history
up-IsCounting initial h (pos n) xs e f v u =
    let b : Balances (pos n) (initial + h.ups) (length h.passed) (length h.semaphore.wait_queue) =
      rw e at v.balance in
    let stays : suc n == 2 ^ 63 ≡ false = ground (arith, b.0, u) in
    let quiet : woken h.tasks h.tasks ≡ [] = drop_all h.tasks.ready_queue in
    (
      record h {
        semaphore = record h.semaphore { count = pos (suc n) };
        passed = h.passed ++ woken h.tasks h.tasks;
        ups = h.ups + 1;
      },
      rw (e, stays) refl,
      record {
        order = rw (quiet, append-nil h.passed) v.order;
        balance = rw (quiet, append-nil h.passed) (omega (arith, b), b.1);
      },
      omega arith,
    )
up-IsCounting initial h (negsuc n) [] e f v u =
    let b : Balances (negsuc n) (initial + h.ups) (length h.passed)
        (length h.semaphore.wait_queue) =
      rw e at v.balance in
    absurd (omega (arith, b.1, ap (λ (xs : List ℕ). length xs) f))
up-IsCounting initial h (negsuc zero) (task ∷ rest) e f v u =
    let b : Balances (negsuc 0) (initial + h.ups) (length h.passed)
        (length h.semaphore.wait_queue) =
      rw e at v.balance in
    (
      woken_history task rest (pos 0) h,
      rw (e, f),
      woken-IsCounting initial task (pos 0) h rest f v.order (
        omega (arith, b, length-append h.passed (task ∷ [])),
        omega (arith, b.1, ap (λ (xs : List ℕ). length xs) f),
      ),
      omega arith,
    )
up-IsCounting initial h (negsuc (suc n)) (task ∷ rest) e f v u =
    let b : Balances (negsuc (suc n)) (initial + h.ups) (length h.passed)
        (length h.semaphore.wait_queue) =
      rw e at v.balance in
    (
      woken_history task rest (negsuc n) h,
      rw (e, f),
      woken-IsCounting initial task (negsuc n) h rest f v.order (
        omega (arith, b, length-append h.passed (task ∷ [])),
        omega (arith, b.1, ap (λ (xs : List ℕ). length xs) f),
      ),
      omega arith,
    )

run-from :
    (initial : ℕ) (cs : List Call) (h : History)
    → IsCounting initial h
    → initial + total_calls h + length cs < 2 ^ 63
    → (h' : History) × (run cs h ≡ some h') × IsCounting initial h'
unfolding run
run-from initial [] h v u = (h, refl, v)
run-from initial (call_down task ∷ cs) h v u =
    let (h₁, e, v₁, n) =
      down-IsCounting initial task h h.semaphore.count refl v (omega (arith, u)) in
    let (h', r, v') = run-from initial cs h₁ v₁ (omega (arith, n, u)) in (h', rw e r, v')
run-from initial (call_up ∷ cs) h v u =
    let (h₁, e, v₁, n) =
      up-IsCounting initial h h.semaphore.count h.semaphore.wait_queue refl refl v
        (omega (arith, u)) in
    let (h', r, v') = run-from initial cs h₁ v₁ (omega (arith, n, u)) in (h', rw e r, v')

abbrev pub fresh : ℕ → Tasks → History
fresh n t = record { semaphore = new_semaphore n; tasks = t; calls = []; passed = []; ups = 0 }

least :
    (initial : ℕ) (h : History) (c : ℤ)
    → h.semaphore.count ≡ c
    → IsCounting initial h
    → length h.passed ≡ min (length h.calls) (initial + h.ups)
least initial h (pos n) e v =
    let b : Balances (pos n) (initial + h.ups) (length h.passed) (length h.semaphore.wait_queue) =
      rw e at v.balance in
    omega (
      arith,
      b,
      length-append h.passed h.semaphore.wait_queue,
      ap (λ (xs : List ℕ). length xs) v.order,
    )
least initial h (negsuc n) e v =
    let b : Balances (negsuc n) (initial + h.ups) (length h.passed)
        (length h.semaphore.wait_queue) =
      rw e at v.balance in
    omega (
      arith,
      b,
      length-append h.passed h.semaphore.wait_queue,
      ap (λ (xs : List ℕ). length xs) v.order,
    )

-- Whatever calls of `down` and `up` a semaphore created with a count of `n` gets, `n` and the number
-- of calls together below 2 ^ 63, none of them panics; the tasks that passed, then those that wait, are
-- those that called `down`, in that order; and as many passed as the smaller of the number of calls of
-- `down` and of `n` plus that of `up`.
pub run-IsCounting :
    (n : ℕ) (t : Tasks) (cs : List Call)
    → n + length cs < 2 ^ 63
    → (h : History) × (run cs (fresh n t) ≡ some h)
      × (h.passed ++ h.semaphore.wait_queue ≡ h.calls)
      × (length h.passed ≡ min (length h.calls) (n + h.ups))
unfolding new_semaphore
run-IsCounting n t cs u =
    let small : ltb n (2 ^ 63) ≡ true = ground (arith, u) in
    let start : IsCounting n (fresh n t) = record {
      order = refl;
      balance = rw small (omega arith, refl);
    } in
    let (h, e, v) = run-from n cs (fresh n t) start (omega (arith, u)) in
    (h, e, v.order, least n h h.semaphore.count refl v)
