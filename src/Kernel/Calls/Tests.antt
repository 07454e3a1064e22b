-- ===== src/Kernel/Calls/Tests.antt =====
-- Runs of the system calls on concrete inputs.
use lemon_core.Base.{ℕ, ◌<◌, ◌≡◌, false, none, some, [], ◌∷◌, ◌==◌, if◌then◌else◌}
use lemon_core.Kernel.Task.{ready}
use lemon_core.Kernel.Slots.{Slots, slot}
use lemon_core.Kernel.Calls.{System, spin, sys_pipe}
use lemon_core.Kernel.Calls.Files.{sys_pipe-slot}

-- Files 10 and 11 are open under 0 and 2.
abbrev table : Slots ℕ
table = some 10 ∷ none ∷ some 11 ∷ []

abbrev system : System
system = record {
  mutex_list = some (spin false) ∷ [];
  semaphore_list = [];
  condvar_list = [];
  fd_table = table;
  tasks = record { ready_queue = []; current = some 1; status = λ j. ready };
}

sys_pipe-slot_example :
    let (read_fd, write_fd, s') = sys_pipe 20 21 system in
    (slot table read_fd ≡ none)
    × (slot table write_fd ≡ none)
    × (read_fd < write_fd)
    × ((j : ℕ)
        → slot s'.fd_table j
          ≡ (if write_fd == j then some 21 else (if read_fd == j then some 20 else slot table j)))
sys_pipe-slot_example = sys_pipe-slot 20 21 system
