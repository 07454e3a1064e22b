-- ===== src/Kernel/Threads/Tests.antt =====
-- A process with the threads 0, 1 and 2, of which 1 has exited and given its id back.
use lemon_core.Base.{
  ℕ, ◌+◌, ◌≡◌, refl, false, none, some, [], ◌∷◌, arith, ltb, ◌==◌, if◌then◌else◌, length,
}
use lemon_core.Kernel.Recycle.{alloc}
use lemon_core.Kernel.Sync.{pos}
use lemon_core.Kernel.Slots.{slot}
use lemon_core.Kernel.Task.{running}
use lemon_core.Kernel.Process.{World}
use lemon_core.Kernel.Threads.{sys_thread_create, sys_waittid}
use lemon_core.Kernel.Threads.Lists.{sys_thread_create-slot, sys_waittid-sys_thread_create}

abbrev threads : World
threads = record {
  pid = λ p. p;
  is_zombie = λ p. false;
  parent = λ p. none;
  children = λ p. [];
  exit_code = λ p. pos 0;
  signals = λ p. 0;
  fd_table = λ p. [];
  threads = λ p. some 20 ∷ some 21 ∷ some 22 ∷ [];
  task_res_allocator = λ p. record { current = 3; recycled = 1 ∷ [] };
  process = λ t. 5;
  res = λ t. if t == 20 then some 0 else if t == 22 then some 2 else none;
  task_exit_code = λ t. if t == 21 then some (pos 9) else none;
  pid2process = (5, 5) ∷ [];
  pid_allocator = record { current = 6; recycled = [] };
  tasks = record { ready_queue = 22 ∷ []; current = some 20; status = λ t. running };
  daemon = 0;
}

sys_thread_create-slot_example :
    let (tid, w') = sys_thread_create 5 23 threads in
    (tid ≡ (alloc (threads.task_res_allocator 5)).0)
    × (length (w'.threads 5) ≡ tid + 1)
    × ((j : ℕ)
        → slot (w'.threads 5) j
          ≡ (if tid == j then some 23 else if ltb j tid then slot (threads.threads 5) j else none))
sys_thread_create-slot_example = sys_thread_create-slot 5 23 threads

-- The new thread gets id 1, and thread 2, which still runs, is out of the list.
sys_waittid-sys_thread_create_example : sys_waittid 20 5 2 (sys_thread_create 5 23 threads).1 ≡ none
unfolding alloc
sys_waittid-sys_thread_create_example =
    sys_waittid-sys_thread_create 5 23 20 0 2 threads (omega arith) (λ e. cc) refl (λ e. cc)
