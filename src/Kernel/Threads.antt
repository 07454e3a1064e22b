-- ===== src/Kernel/Threads.antt =====
-- kernel/src/syscall/thread.rs: the threads of a process. The memory of a thread's stack and trap
-- context is left out here; `none` is a panic.
use lemon_core.Base.{
  ℕ, suc, ◌+◌, ◌-◌, Option, none, some, List, ◌++◌, ◌==◌, if◌then◌else◌, length, take, replicate,
  ◌>>=◌, index,
}
use lemon_core.Kernel.Recycle.{alloc}
use lemon_core.Kernel.Slots.{Slots, slot, put}
use lemon_core.Kernel.Sync.{ℤ, pos, negsuc}
use lemon_core.Kernel.Task.{add}
use lemon_core.Kernel.Process.{World, at}
pub mod Lists
mod Tests

-- `tasks.resize_with(n, || None)`.
pub resize_with : Slots ℕ → ℕ → Slots ℕ
resize_with ts n = take n ts ++ replicate (n - length ts) none

-- `sys_thread_create` in process `p`, with the number of the control block that the new task gets:
-- the thread id, and the world then.
pub sys_thread_create : ℕ → ℕ → World → ℕ × World
unfolding resize_with
sys_thread_create p task w =
    let (tid, tids) = alloc (w.task_res_allocator p) in
    (
      tid,
      record w {
        task_res_allocator = at w.task_res_allocator p tids;
        process = at w.process task p;
        res = at w.res task (some tid);
        task_exit_code = at w.task_exit_code task none;
        tasks = add task w.tasks;
        threads = at w.threads p (put (resize_with (w.threads p) (tid + 1)) tid (some task));
      },
    )

pub sys_gettid : ℕ → World → Option ℕ
sys_gettid task w = w.res task

-- On the exit code of the thread waited for.
waited : ℕ → ℕ → World → Option ℤ → ℤ × World
waited p tid w (some code) =
    (code, record w { threads = at w.threads p (put (w.threads p) tid none) })
waited p tid w none = (negsuc 1, w)

waited_slot : ℕ → ℕ → World → Option ℕ → ℤ × World
unfolding waited
waited_slot p tid w none = (negsuc 0, w)
waited_slot p tid w (some t) = waited p tid w (w.task_exit_code t)

-- `sys_waittid` by `task` of process `p`.
pub sys_waittid : ℕ → ℕ → ℕ → World → Option (ℤ × World)
unfolding waited_slot
sys_waittid task p tid w = do
  own ← w.res task
  if own == tid
      then some (negsuc 0, w)
      else (do t ← index (w.threads p) tid; some (waited_slot p tid w t))
