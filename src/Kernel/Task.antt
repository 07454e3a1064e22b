-- ===== src/Kernel/Task.antt =====
-- kernel/src/task/manager.rs, kernel/src/task/processor.rs and kernel/src/task/mod.rs: the ready
-- queue, the status of each task, and the task that runs.
use lemon_core.Base.{ℕ, ◌==◌, if◌then◌else◌, Option, none, some, List, [], ◌∷◌, ◌++◌, ◌>>=◌}

pub data Status : Type 0 where
  ready running blocked : Status

-- A task is the number of its control block.
pub record Tasks : Type 0 where
  pub ready_queue : List ℕ
  pub current : Option ℕ
  pub status : ℕ → Status

abbrev pub set_status : ℕ → Status → Tasks → Tasks
set_status task st t = record t { status = λ j. if task == j then st else t.status j }

unfoldable pub add : ℕ → Tasks → Tasks
add task t = record t { ready_queue = t.ready_queue ++ (task ∷ []) }

-- On what the ready queue holds.
fetch_from : Tasks → List ℕ → Option (ℕ × Tasks)
fetch_from t [] = none
fetch_from t (task ∷ rest) = some (task, record t { ready_queue = rest })

pub fetch : Tasks → Option (ℕ × Tasks)
unfolding fetch_from
fetch t = fetch_from t t.ready_queue

unfoldable pub wakeup : ℕ → Tasks → Tasks
unfolding add
wakeup task t = add task (set_status task ready t)

-- `suspend_current_and_run_next`, up to its jump to the scheduler.
unfoldable pub suspend_current : Tasks → Option Tasks
unfolding add
suspend_current t = do
  task ← t.current
  some (add task (set_status task ready (record t { current = none })))

-- `block_current`; `block_current_and_run_next` is this and the jump to the scheduler.
unfoldable pub block_current : Tasks → Option Tasks
block_current t = do task ← t.current; some (set_status task blocked (record t { current = none }))

-- On what `fetch` gives.
run_fetched : Tasks → Option (ℕ × Tasks) → Tasks
run_fetched t none = t
run_fetched t (some (task, t')) = set_status task running (record t' { current = some task })

-- One turn of the loop of `run_tasks`, up to the switch to the task.
pub run_next : Tasks → Tasks
unfolding fetch run_fetched
run_next t = run_fetched t (fetch t)
