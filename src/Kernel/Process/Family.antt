-- ===== src/Kernel/Process/Family.antt =====
-- Parents and children as processes start, end, and are waited for.
use lemon_core.Base.{ℕ, ◌≡◌, ◌≢◌, Bool, Option, some}
use lemon_core.Kernel.Sync.{ℤ}
use lemon_core.Kernel.Process.{World, fork, exit_process, sys_waitpid}
use lemon_core.Kernel.Process.Ending.{CanEnd}
use lemon_core.Kernel.Process.Steps.{
  IsFamily, IsNew, fork-IsFamily, exit_process-IsFamily, waits-IsFamily,
}

infix 40 ◌⟶◌ ◌⟶*◌
-- What the calls do to the processes: one starts, one other than the daemon ends, or a process waits.
pub data ◌⟶◌ : World → World → Type 0 where
  starts :
      {w w' : World} (self child task : ℕ)
      → IsNew child w
      → child ≢ self
      → fork self child task w ≡ some w'
      → w ⟶ w'
  ends : {w w' : World} (p : ℕ) (code : ℤ) → CanEnd p w → exit_process p code w ≡ some w' → w ⟶ w'
  waits :
      {w w' : World} (self : ℕ) (others : ℕ → ℕ) (translates : Bool) (pid r : ℤ) (code : Option ℤ)
      → sys_waitpid self others translates pid w ≡ some (r, code, w')
      → w ⟶ w'

pub data ◌⟶*◌ : World → World → Type 0 where
  here : {w : World} → w ⟶* w
  onward : {w w' w'' : World} → w ⟶ w' → w' ⟶* w'' → w ⟶* w''

-- However processes start, end and are waited for, every child has the process that lists it as its
-- parent, and no process is listed twice: so no process has two parents.
pub reachable-IsFamily : {w w' : World} → IsFamily w → w ⟶* w' → IsFamily w'
reachable-IsFamily i here = i
reachable-IsFamily i (onward step rest) = reachable-IsFamily (step_family i step) rest
  where
    step_family : {w w' : World} → IsFamily w → w ⟶ w' → IsFamily w'
    step_family i (starts self child task new ne e) = fork-IsFamily self child task i new ne e
    step_family i (ends p code c e) = exit_process-IsFamily p code i c e
    step_family {w} {w'} i (waits self others translates pid r code e) =
        waits-IsFamily w w' self others translates pid r code i e
