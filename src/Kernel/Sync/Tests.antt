-- ===== src/Kernel/Sync/Tests.antt =====
-- Runs of the mutex and of the semaphore on concrete inputs.
use lemon_core.Base.{arith, ◌+◌, min, ◌≡◌, none, some, List, [], ◌∷◌, ◌++◌, length}
use lemon_core.Kernel.Task.{Tasks, ready}
use lemon_core.Kernel.Sync.Fifo
use lemon_core.Kernel.Sync.Fifo.{IsFair, call_lock, call_unlock, run-IsFair}
use lemon_core.Kernel.Sync.Counting
use lemon_core.Kernel.Sync.Counting.{run-IsCounting}
use lemon_core.Kernel.Sync.History
use lemon_core.Kernel.Sync.History.{call_down, call_up}

abbrev idle : Tasks
idle = record { ready_queue = []; current = none; status = λ j. ready }

-- Task 2 waits while task 1 holds the mutex, and gets it from there.
abbrev handed_over : List Fifo.Call
handed_over = call_lock 1 ∷ call_lock 2 ∷ call_unlock ∷ call_unlock ∷ call_lock 1 ∷ []

run-IsFair_example :
    (h : Fifo.History) × (Fifo.run handed_over (Fifo.fresh idle) ≡ some h) × IsFair h
run-IsFair_example = run-IsFair idle handed_over tt

abbrev contended : List History.Call
contended = call_down 1 ∷ call_down 2 ∷ call_down 3 ∷ call_up ∷ []

run-IsCounting_example :
    (h : History.History) × (History.run contended (Counting.fresh 1 idle) ≡ some h)
    × (h.passed ++ h.semaphore.wait_queue ≡ h.calls)
    × (length h.passed ≡ min (length h.calls) (1 + h.ups))
run-IsCounting_example = run-IsCounting 1 idle contended (omega arith)
