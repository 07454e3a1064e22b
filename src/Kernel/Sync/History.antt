-- ===== src/Kernel/Sync/History.antt =====
-- A semaphore of kernel/src/sync/semaphore.rs with what happened to it.
use lemon_core.Base.{
  ℕ, suc, ◌+◌, ◌≡◌, refl, sym, ap, ◌∙◌, Option, none, some, List, [], ◌∷◌, ◌++◌, append_assoc,
  append-nil, arith, ◌==◌, if◌then◌else◌, length, length-append, ◌>>=◌,
}
use lemon_core.Kernel.Task.{blocked, Tasks}
use lemon_core.Kernel.Sync.{ℤ, pos, negsuc, Semaphore, up, down}
use lemon_core.Kernel.Sync.Fifo.{granted_by, woken, running_task}

pub data Call : Type 0 where
  call_down : ℕ → Call
  call_up : Call

-- The semaphore with what happened to it: the tasks that called `down`, those that passed, both in
-- order, and the number of calls of `up`.
pub record History : Type 0 where
  pub semaphore : Semaphore
  pub tasks : Tasks
  pub calls : List ℕ
  pub passed : List ℕ
  pub ups : ℕ

unfoldable pub step : Call → History → Option History
unfolding up down
step (call_down task) h = do
  (turn, s, t) ← down h.semaphore (running_task task h.tasks)
  some (record {
    semaphore = s;
    tasks = t;
    calls = h.calls ++ (task ∷ []);
    passed = h.passed ++ granted_by turn task;
    ups = h.ups;
  })
step call_up h =
    let (s, t) = up h.semaphore h.tasks in
    some
      (record h { semaphore = s; tasks = t; passed = h.passed ++ woken h.tasks t; ups = h.ups + 1 })

unfoldable pub run : List Call → History → Option History
run [] h = some h
run (c ∷ cs) h = do h' ← step c h; run cs h'

-- What a count says of the `total` of the initial count and the calls of `up`, of the number of
-- tasks that passed, and of that of those that wait.
abbrev pub Balances : ℤ → ℕ → ℕ → ℕ → Type 0
Balances (pos n) total passed waiting = (n + passed ≡ total) × (waiting ≡ 0)
Balances (negsuc n) total passed waiting = (passed ≡ total) × (waiting ≡ suc n)

pub record IsCounting (initial : ℕ) (h : History) : Type 0 where
  pub order : h.passed ++ h.semaphore.wait_queue ≡ h.calls
  pub balance :
      Balances h.semaphore.count (initial + h.ups) (length h.passed) (length h.semaphore.wait_queue)

-- The number of calls so far.
abbrev pub total_calls : History → ℕ
total_calls h = h.ups + length h.calls

no_elements : (xs : List ℕ) → length xs ≡ 0 → xs ≡ []
no_elements [] e = refl
no_elements (x ∷ xs) e = absurd (omega (arith, e))

-- The order of grants when a task comes to wait, when it passes at once, and when one is woken.
order_waits :
    (task : ℕ) (passed waiting calls : List ℕ)
    → passed ++ waiting ≡ calls
    → (passed ++ []) ++ (waiting ++ (task ∷ [])) ≡ calls ++ (task ∷ [])
order_waits task passed waiting calls e =
    rw (append-nil passed)
      (sym (append_assoc passed waiting (task ∷ [])) ∙ ap (λ xs. xs ++ (task ∷ [])) e)

pub order_passes :
    (task : ℕ) (passed waiting calls : List ℕ)
    → length waiting ≡ 0
    → passed ++ waiting ≡ calls
    → (passed ++ (task ∷ [])) ++ waiting ≡ calls ++ (task ∷ [])
order_passes task passed waiting calls z e =
    let nil : waiting ≡ [] = no_elements waiting z in
    let all : passed ≡ calls = sym (append-nil passed) ∙ ap (λ xs. passed ++ xs) (sym nil) ∙ e in
    rw (nil, all) (append-nil (calls ++ (task ∷ [])))

-- What a call of `down` leaves that parks its task with the count `c`.
abbrev pub parked_history : ℕ → ℤ → History → History
parked_history task c h = record {
  semaphore = record { count = c; wait_queue = h.semaphore.wait_queue ++ (task ∷ []) };
  tasks = record h.tasks {
    current = none;
    status = λ j. if task == j then blocked else h.tasks.status j;
  };
  calls = h.calls ++ (task ∷ []);
  passed = h.passed ++ [];
  ups = h.ups;
}

pub parked-IsCounting :
    (initial task n : ℕ) (h : History)
    → h.passed ++ h.semaphore.wait_queue ≡ h.calls
    → length h.passed ≡ initial + h.ups
    → length h.semaphore.wait_queue ≡ n
    → IsCounting initial (parked_history task (negsuc n) h)
parked-IsCounting initial task n h o p w = record {
  order = order_waits task h.passed h.semaphore.wait_queue h.calls o;
  balance = (
    ap (λ (xs : List ℕ). length xs) (append-nil h.passed) ∙ p,
    omega (arith, w, length-append h.semaphore.wait_queue (task ∷ [])),
  );
}
