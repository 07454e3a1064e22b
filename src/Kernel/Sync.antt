-- ===== src/Kernel/Sync.antt =====
-- kernel/src/sync/mutex.rs, kernel/src/sync/semaphore.rs and kernel/src/sync/condvar.rs. A call
-- runs to its return or to the point where it gives the processor away; `none` is a panic.
use lemon_core.Base.{
  ℕ, zero, suc, ◌-◌, ◌^◌, ltb, ◌==◌, Bool, true, false, if◌then◌else◌, Option, some, List, [], ◌∷◌,
  ◌++◌, ◌>>=◌, ◌>>◌, assert,
}
use lemon_core.Kernel.Task.{Tasks, wakeup, suspend_current, block_current}
pub mod Fifo
pub mod History
pub mod Counting
mod Tests

-- How a call goes on: it is over; it is over once the task is woken; it goes round its loop again
-- once the task runs again.
pub data Turn : Type 0 where
  done parked retry : Turn

-- `lock` and `unlock` of a spin mutex, whose state is `locked`.
pub spin_lock : Bool → Tasks → Option (Turn × Bool × Tasks)
spin_lock true t = do t' ← suspend_current t; some (retry, true, t')
spin_lock false t = some (done, true, t)

pub record BlockingInner : Type 0 where
  pub locked : Bool
  pub wait_queue : List ℕ

pub new_blocking : BlockingInner
new_blocking = record { locked = false; wait_queue = [] }

pub lock : BlockingInner → Tasks → Option (Turn × BlockingInner × Tasks)
unfolding block_current
lock m t =
    let park = do
      task ← t.current
      t' ← block_current t
      some (parked, record m { wait_queue = m.wait_queue ++ (task ∷ []) }, t')
    in if m.locked then park else some (done, record m { locked = true }, t)

-- On what `wait_queue.pop_front()` finds.
unlock_on : BlockingInner → Tasks → List ℕ → BlockingInner × Tasks
unfolding wakeup
unlock_on m t [] = (record m { locked = false }, t)
unlock_on m t (task ∷ rest) = (record m { wait_queue = rest }, wakeup task t)

pub unlock : BlockingInner → Tasks → Option (BlockingInner × Tasks)
unfolding unlock_on
unlock m t = do assert m.locked; some (unlock_on m t m.wait_queue)

-- The `isize` of a semaphore's count and of a system call's result.
pub data ℤ : Type 0 where
  pos : ℕ → ℤ
  negsuc : ℕ → ℤ

-- `count += 1` and `count -= 1`, which wrap.
abbrev pub increment : ℤ → ℤ
increment (pos n) = if suc n == 2 ^ 63 then negsuc (2 ^ 63 - 1) else pos (suc n)
increment (negsuc zero) = pos 0
increment (negsuc (suc n)) = negsuc n

abbrev pub decrement : ℤ → ℤ
decrement (pos zero) = negsuc 0
decrement (pos (suc n)) = pos n
decrement (negsuc n) = if suc n == 2 ^ 63 then pos (2 ^ 63 - 1) else negsuc (suc n)

abbrev pub is_positive : ℤ → Bool
is_positive (pos (suc n)) = true
is_positive (pos zero) = false
is_positive (negsuc n) = false

abbrev pub is_negative : ℤ → Bool
is_negative (pos n) = false
is_negative (negsuc n) = true

pub record Semaphore : Type 0 where
  pub count : ℤ
  pub wait_queue : List ℕ

-- `as isize` of a `usize`.
abbrev pub as_isize : ℕ → ℤ
as_isize n = if ltb n (2 ^ 63) then pos n else negsuc (2 ^ 64 - 1 - n)

pub new_semaphore : ℕ → Semaphore
new_semaphore res_count = record { count = as_isize res_count; wait_queue = [] }

-- `if let Some(task) = wait_queue.pop_front() { wakeup(task) }`: the queue left and the tasks.
pub wake_first : List ℕ → Tasks → List ℕ × Tasks
unfolding wakeup
wake_first [] t = ([], t)
wake_first (task ∷ rest) t = (rest, wakeup task t)

pub up : Semaphore → Tasks → Semaphore × Tasks
unfolding wake_first
up s t =
    let count' = increment s.count in
    let (queue', t') = wake_first s.wait_queue t in
    if is_positive count'
    then (record s { count = count' }, t)
    else (record { count = count'; wait_queue = queue' }, t')

pub down : Semaphore → Tasks → Option (Turn × Semaphore × Tasks)
unfolding block_current
down s t =
    let count' = decrement s.count in
    let park = do
      task ← t.current
      t' ← block_current t
      some (parked, record { count = count'; wait_queue = s.wait_queue ++ (task ∷ []) }, t')
    in if is_negative count' then park else some (done, record s { count = count' }, t)

-- A condition variable is its wait queue.
pub signal : List ℕ → Tasks → List ℕ × Tasks
unfolding wake_first
signal queue t = wake_first queue t

-- The part of `wait_with_mutex` after the unlock of the mutex and before its `lock`.
pub wait : List ℕ → Tasks → Option (List ℕ × Tasks)
unfolding block_current
wait queue t = do task ← t.current; t' ← block_current t; some (queue ++ (task ∷ []), t')
