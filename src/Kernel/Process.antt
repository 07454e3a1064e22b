-- ===== src/Kernel/Process.antt =====
-- kernel/src/task/mod.rs, kernel/src/task/pcb.rs, kernel/src/task/manager.rs and
-- kernel/src/syscall/process.rs: processes, how they start, end, and are waited for. A process
-- or a task is the number of its control block; `none` is a panic. Memory sets, the current
-- directory, the locks of a process, the stacks of threads and the entries of /proc are left out.
use lemon_core.Base.{
  ℕ, zero, suc, ◌+◌, ◌-◌, ◌^◌, Bool, true, false, not, ◌&&◌, ◌||◌, Option, none, some, List, [],
  ◌∷◌, ◌++◌, ◌==◌, if◌then◌else◌, length, take, ◌>>=◌, ◌>>◌, assert,
}
use lemon_core.Kernel.Recycle.{RecycleAllocator, new, alloc, dealloc}
use lemon_core.Kernel.Slots.{Slots, slot}
use lemon_core.Kernel.Sync.{ℤ, pos, negsuc, as_isize}
use lemon_core.Kernel.Task.{Tasks, add}
pub mod Handover
pub mod Ending
pub mod Steps
pub mod Family
pub mod Waiting
mod Tests

-- The fields of the control blocks, each by the number of the block: first those of processes, then
-- those of tasks, where `res` is the thread id of the user resources while the task has them.
pub record World : Type 0 where
  pub pid : ℕ → ℕ
  pub is_zombie : ℕ → Bool
  pub parent : ℕ → Option ℕ
  pub children : ℕ → List ℕ
  pub exit_code : ℕ → ℤ
  pub signals : ℕ → ℕ
  pub fd_table : ℕ → Slots ℕ
  pub threads : ℕ → Slots ℕ
  pub task_res_allocator : ℕ → RecycleAllocator
  pub process : ℕ → ℕ
  pub res : ℕ → Option ℕ
  pub task_exit_code : ℕ → Option ℤ
  pub pid2process : List (ℕ × ℕ)
  pub pid_allocator : RecycleAllocator
  pub tasks : Tasks
  pub daemon : ℕ

-- The field of block `i` set.
abbrev pub at {ℓ} : {A : Type ℓ} → (ℕ → A) → ℕ → A → ℕ → A
at f i v j = if i == j then v else f j

-- `PID2PCB`.
abbrev pub pid2process_get : ℕ → List (ℕ × ℕ) → Option ℕ
pid2process_get pid [] = none
pid2process_get pid ((k, p) ∷ rest) =
    let later = pid2process_get pid rest in if k == pid then some p else later

abbrev without_pid : ℕ → List (ℕ × ℕ) → List (ℕ × ℕ)
without_pid pid [] = []
without_pid pid ((k, p) ∷ rest) =
    let kept = without_pid pid rest in if k == pid then kept else (k, p) ∷ kept

abbrev is_some {ℓ} : {A : Type ℓ} → Option A → Bool
is_some none = false
is_some (some a) = true

pub remove_from_pid2process : ℕ → World → Option World
remove_from_pid2process pid w = do
  assert (is_some (pid2process_get pid w.pid2process))
  some (record w { pid2process = without_pid pid w.pid2process })

pub insert_into_pid2process : ℕ → ℕ → World → World
insert_into_pid2process pid p w = record w {
  pid2process = (pid, p) ∷ without_pid pid w.pid2process;
}

-- `fork`, with the numbers of the control blocks that the new process and its task get.
pub fork : ℕ → ℕ → ℕ → World → Option World
unfolding insert_into_pid2process
fork self child task w = do
  assert (length (w.threads self) == 1)
  main ← slot (w.threads self) 0
  assert (is_some (w.res main))
  let (pid, pids) = alloc w.pid_allocator
  let (tid, tids) = alloc new
  let w1 = record w {
    pid = at w.pid child pid;
    is_zombie = at w.is_zombie child false;
    parent = at w.parent child (some self);
    children = at (at w.children child []) self (w.children self ++ (child ∷ []));
    exit_code = at w.exit_code child (pos 0);
    signals = at w.signals child 0;
    fd_table = at w.fd_table child (w.fd_table self);
    threads = at w.threads child (some task ∷ []);
    task_res_allocator = at w.task_res_allocator child tids;
    process = at w.process task child;
    res = at w.res task (some tid);
    task_exit_code = at w.task_exit_code task none;
    pid_allocator = pids;
  }
  let w2 = insert_into_pid2process pid child w1
  some (record w2 { tasks = add task w2.tasks })

-- User resources that are dropped: `dealloc_tid` of the process.
pub drop_res : ℕ → World → ℕ → Option World
drop_res p w tid = do
  a ← dealloc (w.task_res_allocator p) tid
  some (record w { task_res_allocator = at w.task_res_allocator p a })

-- The children of a process that exits go to the daemon, one by one.
pub adopt : World → List ℕ → World
adopt w [] = w
adopt w (child ∷ rest) =
    adopt
      (record w {
        parent = at w.parent child (some w.daemon);
        children = at w.children w.daemon (w.children w.daemon ++ (child ∷ []));
      })
      rest

-- The user resources taken from the tasks of a process: the thread ids.
take_res_of : World → ℕ → (World → List ℕ × World) → Option ℕ → List ℕ × World
take_res_of w t next none = next w
take_res_of w t next (some tid) =
    let (tids, w') = next (record w { res = at w.res t none }) in (tid ∷ tids, w')

pub take_res : World → Slots ℕ → List ℕ × World
unfolding take_res_of
take_res w [] = ([], w)
take_res w (none ∷ rest) = take_res w rest
take_res w (some t ∷ rest) = take_res_of w t (λ w'. take_res w' rest) (w.res t)

pub drop_all : ℕ → World → List ℕ → Option World
unfolding drop_res
drop_all p w [] = some w
drop_all p w (tid ∷ tids) = do w' ← drop_res p w tid; drop_all p w' tids

-- The end of a process, when its main thread exits. The daemon cannot end: its control block would be
-- borrowed twice.
pub exit_process : ℕ → ℤ → World → Option World
unfolding remove_from_pid2process adopt take_res drop_all
exit_process p code w = do
  w1 ← remove_from_pid2process (w.pid p) w
  let w2 = record w1 { is_zombie = at w1.is_zombie p true; exit_code = at w1.exit_code p code }
  assert (not (p == w.daemon))
  let w3 = adopt w2 (w2.children p)
  let (tids, w4) = take_res w3 (w3.threads p)
  w5 ← drop_all p w4 tids
  some (record w5 {
    children = at w5.children p [];
    fd_table = at w5.fd_table p [];
    threads = at w5.threads p (take 1 (w5.threads p));
  })

-- How `exit_current_and_run_next` goes on, up to its jump to the scheduler.
pub data Exit : Type 0 where
  shut_down : Bool → Exit
  exited : World → Exit

is_zero : ℤ → Bool
is_zero (pos n) = n == 0
is_zero (negsuc n) = false

pub exit_current : ℤ → World → Option Exit
unfolding drop_res exit_process is_zero
exit_current code w = do
  t ← w.tasks.current
  tid ← w.res t
  let p = w.process t
  w1 ←
      drop_res p
        (record w {
          task_exit_code = at w.task_exit_code t (some code);
          res = at w.res t none;
          tasks = record w.tasks { current = none };
        })
        tid
  if not (tid == 0)
      then some (exited w1)
      else if w1.pid p == 0
      then some (shut_down (not (is_zero code)))
      else (do w2 ← exit_process p code w1; some (exited w2))

-- `pid as usize`.
abbrev as_usize : ℤ → ℕ
as_usize (pos n) = n
as_usize (negsuc n) = 2 ^ 64 - 1 - n

abbrev is_any : ℤ → Bool
is_any (pos n) = false
is_any (negsuc n) = n == 0

-- Whether a call for `pid` means a process.
abbrev pub matches : World → ℤ → ℕ → Bool
matches w pid c = is_any pid || as_usize pid == w.pid c

abbrev pub any_child : (ℕ → Bool) → List ℕ → Bool
any_child test [] = false
any_child test (c ∷ cs) = test c || any_child test cs

-- The first child that passes a test, and the others.
abbrev pub find_child : (ℕ → Bool) → List ℕ → Option (ℕ × List ℕ)
find_child test [] = none
find_child test (c ∷ cs) =
    let later = find_child test cs in
    if test c then some (c, cs) else (do (found, rest) ← later; some (found, c ∷ rest))

-- How often a control block stands in a list, and in `PID2PCB`.
abbrev pub occurs : ℕ → List ℕ → ℕ
occurs c [] = 0
occurs c (d ∷ ds) = let n = occurs c ds in if d == c then suc n else n

abbrev pub registrations : ℕ → List (ℕ × ℕ) → ℕ
registrations c [] = 0
registrations c ((k, p) ∷ rest) = let n = registrations c rest in if p == c then suc n else n

-- `Arc::strong_count` of a child that was taken off a list: the call has a reference, and so have the
-- entries of `PID2PCB` and of the list; `others` are those of the other processes' lists, and of the
-- calls under way.
abbrev pub strong_count : (ℕ → ℕ) → World → ℕ → List ℕ → ℕ
strong_count others w child rest =
    1 + registrations child w.pid2process + occurs child rest + others child

reap : ℕ → (ℕ → ℕ) → Bool → World → Option (ℕ × List ℕ) → Option (ℤ × Option ℤ × World)
reap self others translates w none = some (negsuc 1, none, w)
reap self others translates w (some (child, rest)) = do
  assert (strong_count others w child rest == 1)
  assert translates
  some (
    as_isize (w.pid child),
    some (w.exit_code child),
    record w { children = at w.children self rest },
  )

-- `sys_waitpid` of process `self`: what it returns, the exit code that it stores, and the world then.
-- `translates` says whether the address for the exit code translates in the memory of the process.
pub sys_waitpid : ℕ → (ℕ → ℕ) → Bool → ℤ → World → Option (ℤ × Option ℤ × World)
unfolding reap
sys_waitpid self others translates pid w =
    if not (any_child (matches w pid) (w.children self))
    then some (negsuc 0, none, w)
    else reap self others translates w
        (find_child (λ c. w.is_zombie c && matches w pid c) (w.children self))
