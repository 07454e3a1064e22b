-- ===== src/Kernel/Calls.antt =====
-- kernel/src/syscall/sync.rs, and the calls of kernel/src/syscall/fs.rs that change the table of
-- open files alone. A call runs to its return or to the point where it gives the processor away.
use lemon_core.Base.{
  ◌^◌, ◌%◌, ltb, assert, ℕ, suc, ◌+◌, Bool, false, Option, none, some, List, [], leb, if◌then◌else◌,
  length, ◌>>=◌, ◌>>◌,
}
use lemon_core.Kernel.Task.{Tasks}
use lemon_core.Kernel.Sync.{
  Turn, done, ℤ, pos, negsuc, retry, BlockingInner, new_blocking, spin_lock, lock, unlock,
  Semaphore, new_semaphore, up, down, signal, wait,
}
use lemon_core.Kernel.Slots.{Slots, slot, put, create, alloc_fd, resize}
pub mod Files
mod Tests

-- A mutex of a process, spinning or blocking.
pub data Mutex : Type 0 where
  spin : Bool → Mutex
  blocking : BlockingInner → Mutex

-- The part of a process that these calls use, and the tasks of the kernel. A file is a number.
pub record System : Type 0 where
  pub mutex_list : Slots Mutex
  pub semaphore_list : Slots Semaphore
  pub condvar_list : Slots (List ℕ)
  pub fd_table : Slots ℕ
  pub tasks : Tasks

-- How a call goes on, what it returns, and the system then.
abbrev pub Result : Type 0
Result = Option (Turn × ℤ × System)

abbrev pub returns : ℤ → System → Result
returns n s = some (done, n, s)

abbrev minus_one : ℤ
minus_one = negsuc 0

pub sys_mutex_create : Bool → System → Result
sys_mutex_create is_blocking s =
    let mutex : Mutex = (if is_blocking then blocking new_blocking else spin false) in
    let (id, list') = create mutex s.mutex_list in
    returns (pos id) (record s { mutex_list = list' })

lock_slot : ℕ → System → Option Mutex → Result
lock_slot id s none = returns minus_one s
lock_slot id s (some (spin locked)) = do
  (turn, locked', t) ← spin_lock locked s.tasks
  some (turn, pos 0, record s { mutex_list = put s.mutex_list id (some (spin locked')); tasks = t })
lock_slot id s (some (blocking m)) = do
  (turn, m', t) ← lock m s.tasks
  some (turn, pos 0, record s { mutex_list = put s.mutex_list id (some (blocking m')); tasks = t })

pub sys_mutex_lock : ℕ → System → Result
unfolding lock_slot
sys_mutex_lock id s = lock_slot id s (slot s.mutex_list id)

unlock_slot : ℕ → System → Option Mutex → Result
unlock_slot id s none = returns minus_one s
unlock_slot id s (some (spin locked)) =
    returns (pos 0) (record s { mutex_list = put s.mutex_list id (some (spin false)) })
unlock_slot id s (some (blocking m)) = do
  (m', t) ← unlock m s.tasks
  returns (pos 0) (record s { mutex_list = put s.mutex_list id (some (blocking m')); tasks = t })

pub sys_mutex_unlock : ℕ → System → Result
unfolding unlock_slot
sys_mutex_unlock id s = unlock_slot id s (slot s.mutex_list id)

pub sys_semaphore_create : ℕ → System → Result
sys_semaphore_create res_count s =
    let (id, list') = create (new_semaphore res_count) s.semaphore_list in
    returns (pos id) (record s { semaphore_list = list' })

up_slot : ℕ → System → Option Semaphore → Result
up_slot id s none = returns minus_one s
up_slot id s (some sem) =
    let (sem', t) = up sem s.tasks in
    returns (pos 0) (record s { semaphore_list = put s.semaphore_list id (some sem'); tasks = t })

pub sys_semaphore_up : ℕ → System → Result
unfolding up_slot
sys_semaphore_up id s = up_slot id s (slot s.semaphore_list id)

down_slot : ℕ → System → Option Semaphore → Result
down_slot id s none = returns minus_one s
down_slot id s (some sem) = do
  (turn, sem', t) ← down sem s.tasks
  some (turn, pos 0, record s { semaphore_list = put s.semaphore_list id (some sem'); tasks = t })

pub sys_semaphore_down : ℕ → System → Result
unfolding down_slot
sys_semaphore_down id s = down_slot id s (slot s.semaphore_list id)

pub sys_condvar_create : System → Result
sys_condvar_create s =
    let (id, list') = create {A = List ℕ} [] s.condvar_list in
    returns (pos id) (record s { condvar_list = list' })

signal_slot : ℕ → System → Option (List ℕ) → Result
signal_slot id s none = returns minus_one s
signal_slot id s (some queue) =
    let (queue', t) = signal queue s.tasks in
    returns (pos 0) (record s { condvar_list = put s.condvar_list id (some queue'); tasks = t })

pub sys_condvar_signal : ℕ → System → Result
unfolding signal_slot
sys_condvar_signal id s = signal_slot id s (slot s.condvar_list id)

-- `wait_with_mutex` up to where it blocks: the mutex is unlocked, and the task waits. Once woken it
-- locks the mutex, as `sys_mutex_lock` does, and returns 0.
wait_slot : ℕ → ℕ → System → Option (List ℕ) → Option Mutex → Result
unfolding unlock_slot
wait_slot id mutex_id s none m = returns minus_one s
wait_slot id mutex_id s (some queue) none = returns minus_one s
wait_slot id mutex_id s (some queue) (some m) = do
  (_, _, s') ← unlock_slot mutex_id s (some m)
  (queue', t) ← wait queue s'.tasks
  some (retry, pos 0, record s' { condvar_list = put s'.condvar_list id (some queue'); tasks = t })

pub sys_condvar_wait : ℕ → ℕ → System → Result
unfolding wait_slot
sys_condvar_wait id mutex_id s =
    wait_slot id mutex_id s (slot s.condvar_list id) (slot s.mutex_list mutex_id)

-- `alloc_fd`, and the store of the file under the number that it gave.
pub install : ℕ → System → ℕ × System
install file s =
    let (fd, table) = alloc_fd s.fd_table in (fd, record s { fd_table = put table fd (some file) })

dup_slot : System → Option ℕ → Result
unfolding install
dup_slot s none = returns minus_one s
dup_slot s (some file) = let (fd, s') = install file s in returns (pos fd) s'

pub sys_dup : ℕ → System → Result
unfolding dup_slot
sys_dup fd s = dup_slot s (slot s.fd_table fd)

-- The table made as long as `new_fd + 1`, which wraps at 2 ^ 64; `none` is the panic of the heap.
widen : ℕ → ℕ → Slots ℕ → Option (Slots ℕ)
widen capacity new_fd table = do
  assert (leb ((new_fd + 1) % 2 ^ 64) capacity)
  some (resize table ((new_fd + 1) % 2 ^ 64))

-- `capacity` is the number of entries that the heap has room for in the table.
pub sys_dup2 : ℕ → ℕ → ℕ → System → Result
unfolding widen
sys_dup2 capacity old_fd new_fd s =
    if leb (length s.fd_table) old_fd then returns minus_one s else do
      wide ←
          if leb (length s.fd_table) new_fd
          then widen capacity new_fd s.fd_table
          else some s.fd_table
      assert (ltb old_fd (length wide))
      assert (ltb new_fd (length wide))
      returns (pos 0) (record s { fd_table = put wide new_fd (slot wide old_fd) })

-- `take()` of a slot: what it held.
close_slot : ℕ → System → Option ℕ → Result
close_slot fd s none = returns minus_one s
close_slot fd s (some file) = returns (pos 0) (record s { fd_table = put s.fd_table fd none })

pub sys_close : ℕ → System → Result
unfolding close_slot
sys_close fd s =
    if leb (length s.fd_table) fd then returns minus_one s else close_slot fd s (slot s.fd_table fd)

-- The two ends of a new pipe become open files; the numbers that the call writes for the program.
pub sys_pipe : ℕ → ℕ → System → ℕ × ℕ × System
unfolding install
sys_pipe pipe_read pipe_write s =
    let (read_fd, s₁) = install pipe_read s in
    let (write_fd, s₂) = install pipe_write s₁ in (read_fd, write_fd, s₂)
