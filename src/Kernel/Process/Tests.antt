-- ===== src/Kernel/Process/Tests.antt =====
-- The daemon (process 0), its child 1, and the child 2 of that; 2 ends and 1 waits.
use lemon_core.Base.{
  ℕ, ◌+◌, ◌-◌, ◌≡◌, refl, ◌⊎◌, inl, inr, true, false, none, some, List, [], ◌∷◌, ◌++◌, arith, ◌==◌,
  if◌then◌else◌, Bool-cases, contains, Distinct,
}
use lemon_core.Kernel.Recycle.{RecycleAllocator}
use lemon_core.Kernel.Sync.{pos, negsuc}
use lemon_core.Kernel.Task.{running}
use lemon_core.Kernel.Process.{World, exit_process, sys_waitpid}
use lemon_core.Kernel.Process.Ending.{CanEnd, HasEnded, exit_process-HasEnded}
use lemon_core.Kernel.Process.Steps.{IsFamily}
use lemon_core.Kernel.Process.Family.{◌⟶◌, ends, here, onward, reachable-IsFamily}
use lemon_core.Kernel.Process.Waiting.{heirs, sys_waitpid-exit_process}

abbrev ids : RecycleAllocator
ids = record { current = 3; recycled = [] }

abbrev one_thread : RecycleAllocator
one_thread = record { current = 1; recycled = [] }

abbrev three : World
three = record {
  pid = λ p. p;
  is_zombie = λ p. false;
  parent = λ p. if p == 1 then some 0 else if p == 2 then some 1 else none;
  children = λ p. if p == 0 then 1 ∷ [] else if p == 1 then 2 ∷ [] else [];
  exit_code = λ p. pos 0;
  signals = λ p. 0;
  fd_table = λ p. some 7 ∷ [];
  threads = λ p. some (p + 10) ∷ [];
  task_res_allocator = λ p. one_thread;
  process = λ t. t - 10;
  res = λ t. some 0;
  task_exit_code = λ t. none;
  pid2process = (2, 2) ∷ (1, 1) ∷ (0, 0) ∷ [];
  pid_allocator = ids;
  tasks = record { ready_queue = 10 ∷ 11 ∷ []; current = none; status = λ t. running };
  daemon = 0;
}

two-CanEnd : CanEnd 2 three
two-CanEnd = record { other = λ e. cc; registered = refl; out = ((omega arith, refl), tt) }

exit_process-HasEnded_example :
    (w' : World) × (exit_process 2 (negsuc 1) three ≡ some w') × HasEnded 2 (negsuc 1) three w'
exit_process-HasEnded_example = exit_process-HasEnded 2 (negsuc 1) three two-CanEnd

three-IsFamily : IsFamily three
three-IsFamily = record {
  child_of = λ p c k. listed p c (Bool-cases (p == 0)) (Bool-cases (p == 1)) k;
  distinct = λ p. once p (Bool-cases (p == 0)) (Bool-cases (p == 1));
}
  where
    listed :
        (p c : ℕ)
        → (p == 0 ≡ true) ⊎ (p == 0 ≡ false)
        → (p == 1 ≡ true) ⊎ (p == 1 ≡ false)
        → contains c (three.children p) ≡ true
        → three.parent c ≡ some p
    listed p c (inl z) q k = ground arith
    listed p c (inr z) (inl q) k = ground arith
    listed p c (inr z) (inr q) k = absurd (ground (arith, (rw (z, q) at k)))

    once :
        (p : ℕ)
        → (p == 0 ≡ true) ⊎ (p == 0 ≡ false)
        → (p == 1 ≡ true) ⊎ (p == 1 ≡ false)
        → Distinct (three.children p)
    once p (inl z) q = rw z (refl, tt)
    once p (inr z) (inl q) = rw (z, q) (refl, tt)
    once p (inr z) (inr q) = rw (z, q) tt

abbrev after : World
after = exit_process-HasEnded_example.0

step_taken : three ⟶ after
step_taken = ends 2 (negsuc 1) two-CanEnd exit_process-HasEnded_example.1

reachable-IsFamily_example : IsFamily after
reachable-IsFamily_example = reachable-IsFamily three-IsFamily (onward step_taken here)

-- 1 ends while the daemon waits, which then has 2 as a child.
one-CanEnd : CanEnd 1 three
one-CanEnd = record { other = λ e. cc; registered = refl; out = ((omega arith, refl), tt) }

sys_waitpid-exit_process_example :
    (w' : World) × (w'' : World) × (exit_process 1 (negsuc 1) three ≡ some w')
    × (sys_waitpid 0 (λ c. 0) true (pos 1) w' ≡ some (pos 1, some (negsuc 1), w''))
    × (front : List ℕ) × (back : List ℕ) × (heirs 0 1 three ≡ front ++ (1 ∷ back))
    × (w''.children 0 ≡ front ++ back)
sys_waitpid-exit_process_example =
    sys_waitpid-exit_process 0 1 (negsuc 1) (λ c. 0) three three-IsFamily one-CanEnd (omega arith)
      (λ e. cc) refl (λ c k. refl) (λ e. cc, (λ e. refl, (λ e. cc, tt))) refl
