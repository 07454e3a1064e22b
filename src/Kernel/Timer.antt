-- ===== src/Kernel/Timer.antt =====
-- kernel/src/timer.rs, and `sys_sleep` of kernel/src/syscall/sync.rs. The binary heap of timers is a
-- list here: `peek` finds a timer that expires first, `pop` takes it out.
use lemon_core.Base.{
  ℕ, zero, suc, ◌+◌, ◌/◌, ◌%◌, ◌^◌, Option, none, some, List, [], ◌∷◌, leb, if◌then◌else◌, length,
  ◌>>=◌,
}
use lemon_core.Kernel.Task.{Tasks, wakeup, block_current}
pub mod Wakes
pub mod Sleep
mod Tests

pub record TimeCondVar : Type 0 where
  pub expire_ms : ℕ
  pub task : ℕ

-- `get_time_ms` of the `mtime` register, at `clock_freq` ticks per second.
pub time_ms : ℕ → ℕ → ℕ
time_ms clock_freq mtime = mtime / (clock_freq / 1000)

-- The timers with one that expires first at the head: the order of the source turns `expire_ms` round.
first_of : TimeCondVar → TimeCondVar × List TimeCondVar → TimeCondVar × List TimeCondVar
first_of t (u, rest) = if leb t.expire_ms u.expire_ms then (t, u ∷ rest) else (u, t ∷ rest)

take_first : TimeCondVar → List TimeCondVar → TimeCondVar × List TimeCondVar
unfolding first_of
take_first t [] = (t, [])
take_first t (u ∷ us) = first_of t (take_first u us)

-- `peek`, and the heap after the `pop` of what it finds.
pub peek : List TimeCondVar → Option (TimeCondVar × List TimeCondVar)
unfolding take_first
peek [] = none
peek (t ∷ ts) = some (take_first t ts)

pub add_timer : ℕ → ℕ → List TimeCondVar → List TimeCondVar
add_timer expire_ms task timers = record { expire_ms = expire_ms; task = task } ∷ timers

-- The loop of `check_timer`, at most `rounds` times; `none` is the loop not over after so many.
check_timer_from :
    ℕ
    → (List TimeCondVar → Tasks → Option (List TimeCondVar × Tasks))
    → List TimeCondVar
    → Tasks
    → Option (TimeCondVar × List TimeCondVar)
    → Option (List TimeCondVar × Tasks)
check_timer_from now next timers t none = some (timers, t)
check_timer_from now next timers t (some (timer, rest)) =
    if leb timer.expire_ms now then next rest (wakeup timer.task t) else some (timers, t)

pub check_timer_loop : ℕ → ℕ → List TimeCondVar → Tasks → Option (List TimeCondVar × Tasks)
unfolding peek check_timer_from
check_timer_loop zero now timers t = none
check_timer_loop (suc rounds) now timers t =
    check_timer_from now (check_timer_loop rounds now) timers t (peek timers)

pub check_timer : ℕ → List TimeCondVar → Tasks → Option (List TimeCondVar × Tasks)
unfolding check_timer_loop
check_timer now timers t = check_timer_loop (suc (length timers)) now timers t

-- `sys_sleep`, up to its jump to the scheduler: the timers and the tasks then.
pub sys_sleep : ℕ → ℕ → List TimeCondVar → Tasks → Option (List TimeCondVar × Tasks)
unfolding add_timer
sys_sleep now ms timers t = do
  task ← t.current
  t' ← block_current t
  some (add_timer ((now + ms) % 2 ^ 64) task timers, t')
