-- ===== src/Kernel/Timer/Tests.antt =====
-- Timers of two tasks.
use lemon_core.Base.{
  ◌+◌, ◌≤◌, ◌<◌, ◌≡◌, refl, true, none, some, List, [], ◌∷◌, arith, ◌==◌, if◌then◌else◌, contains,
}
use lemon_core.Kernel.Task.{Tasks, ready, running, blocked}
use lemon_core.Kernel.Timer.{TimeCondVar, check_timer, sys_sleep}
use lemon_core.Kernel.Timer.Wakes.{tally, Wakes, check_timer-Wakes}
use lemon_core.Kernel.Timer.Sleep.{is_timer, sys_sleep-check_timer}

abbrev tasks : Tasks
tasks = record {
  ready_queue = 5 ∷ [];
  current = some 7;
  status = λ j. if j == 7 then running else ready;
}

abbrev timers : List TimeCondVar
timers =
    record { expire_ms = 300; task = 3 }
    ∷ record { expire_ms = 100; task = 1 }
    ∷ record { expire_ms = 200; task = 2 }
    ∷ []

check_timer-Wakes_example :
    (timers' : List TimeCondVar) × (t' : Tasks) × (check_timer 250 timers tasks
      ≡ some (timers', t'))
    × Wakes 250 timers tasks timers' t'
check_timer-Wakes_example = check_timer-Wakes 250 timers tasks

sys_sleep-check_timer_example :
    (timers' : List TimeCondVar) × (t' : Tasks) × (sys_sleep 1000 50 timers tasks
      ≡ some (timers', t'))
    × (t'.current ≡ none)
    × (t'.status 7 ≡ blocked)
    × (timers'' : List TimeCondVar) × (t'' : Tasks) × (check_timer 1049 timers' t'
        ≡ some (timers'', t''))
    × (1000 + 50 ≤ 1049 → (contains 7 t''.ready_queue ≡ true) × (t''.status 7 ≡ ready))
    × (1049 < 1000 + 50
        → tally (is_timer (1000 + 50) 7) timers'' ≡ 1 + tally (is_timer (1000 + 50) 7) timers)
sys_sleep-check_timer_example = sys_sleep-check_timer 1000 50 1049 7 timers tasks refl (omega arith)
