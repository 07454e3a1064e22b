-- ===== src/Kernel/Process/Ending.antt =====
-- A process that ends, seen from every process.
use lemon_core.Base.{
  ℕ, ◌<◌, ◌≡◌, ◌≢◌, refl, sym, ap, subst, ◌∙◌, inl, inr, true, false, none, some, List, [], ◌∷◌,
  ◌++◌, arith, ltb, ◌==◌, if◌then◌else◌, ==_iff, Bool-cases, take, contains,
}
use lemon_core.Kernel.Recycle.{RecycleAllocator, dealloc}
use lemon_core.Kernel.Sync.{ℤ}
use lemon_core.Kernel.Process.{
  World, at, pid2process_get, remove_from_pid2process, without_pid, drop_res, drop_all,
  exit_process, is_some,
}
use lemon_core.Kernel.Process.Handover.{adopt-children, take_res-tids_of, tids_of, holds}

-- Ids that the allocator gave out and has not got back, each once.
abbrev pub AllOut : RecycleAllocator → List ℕ → Type 0
AllOut a [] = Unit {0}
AllOut a (tid ∷ tids) =
    ((tid < a.current) × (contains tid a.recycled ≡ false))
    × AllOut (record a { recycled = tid ∷ a.recycled }) tids

-- The ids given back, one after the other.
abbrev pub with_recycled : RecycleAllocator → List ℕ → RecycleAllocator
with_recycled a [] = a
with_recycled a (tid ∷ tids) = with_recycled (record a { recycled = tid ∷ a.recycled }) tids

drop_all-with_recycled :
    (p : ℕ) (w : World) (tids : List ℕ)
    → AllOut (w.task_res_allocator p) tids
    → (f : ℕ → RecycleAllocator) × (drop_all p w tids ≡ some (record w { task_res_allocator = f }))
      × ((j : ℕ)
          → f j ≡ (
              if p == j
              then with_recycled (w.task_res_allocator p) tids
              else w.task_res_allocator j))
unfolding drop_all drop_res dealloc
drop_all-with_recycled p w [] out = (
  w.task_res_allocator,
  refl,
  λ j. elim (Bool-cases (p == j)) [
    | inl e ↦ rw e (ap w.task_res_allocator (sym ((==_iff p j).0 e)))
    | inr n ↦ rw n refl
  ],
)
drop_all-with_recycled p w (tid ∷ tids) out =
    let a : RecycleAllocator = record (w.task_res_allocator p) {
      recycled = tid ∷ (w.task_res_allocator p).recycled;
    } in
    let w1 : World = record w { task_res_allocator = at w.task_res_allocator p a } in
    let same : p == p ≡ true = (==_iff p p).1 refl in
    let here : w1.task_res_allocator p ≡ a = rw same refl in
    let low : ltb tid (w.task_res_allocator p).current ≡ true = ground (arith, out.0.0) in
    let (f, done, after) =
      drop_all-with_recycled p w1 tids (subst (λ x. AllOut x tids) (sym here) out.1) in
    (
      f,
      rw (low, out.0.1) done,
      λ j. after j ∙ elim (Bool-cases (p == j)) [
        | inl e ↦ rw e (ap (λ x. with_recycled x tids) here)
        | inr n ↦ rw n refl
      ],
    )

-- A process as it ends: it is not the daemon, it is registered, and the thread ids that its tasks hold
-- are out.
pub record CanEnd (p : ℕ) (w : World) : Type 0 where
  pub other : p ≢ w.daemon
  pub registered : is_some (pid2process_get (w.pid p) w.pid2process) ≡ true
  pub out : AllOut (w.task_res_allocator p) (tids_of w.res (w.threads p))

-- What is left of a process that ended, and of all others: first what `PID2PCB` and the fields of
-- processes hold, then those of tasks, then what stays.
pub record HasEnded (p : ℕ) (code : ℤ) (w w' : World) : Type 0 where
  pub pid2process : w'.pid2process ≡ without_pid (w.pid p) w.pid2process
  pub registered :
      (q : ℕ)
      → pid2process_get q w'.pid2process
        ≡ (if w.pid p == q then none else pid2process_get q w.pid2process)
  pub is_zombie : (j : ℕ) → w'.is_zombie j ≡ (if p == j then true else w.is_zombie j)
  pub exit_code : (j : ℕ) → w'.exit_code j ≡ (if p == j then code else w.exit_code j)
  pub parent :
      (j : ℕ) → w'.parent j ≡ (if contains j (w.children p) then some w.daemon else w.parent j)
  pub children :
      (j : ℕ)
      → w'.children j ≡ (
          if p == j
          then []
          else if w.daemon == j
          then w.children j ++ w.children p
          else w.children j)
  pub fd_table : (j : ℕ) → w'.fd_table j ≡ (if p == j then [] else w.fd_table j)
  pub threads : (j : ℕ) → w'.threads j ≡ (if p == j then take 1 (w.threads p) else w.threads j)
  pub task_res_allocator :
      (j : ℕ)
      → w'.task_res_allocator j ≡ (
          if p == j
          then with_recycled (w.task_res_allocator p) (tids_of w.res (w.threads p))
          else w.task_res_allocator j)
  pub res : (t : ℕ) → w'.res t ≡ (if holds t (w.threads p) then none else w.res t)
  pub daemon : w'.daemon ≡ w.daemon
  pub pid : w'.pid ≡ w.pid
  pub signals : w'.signals ≡ w.signals
  pub process : w'.process ≡ w.process
  pub task_exit_code : w'.task_exit_code ≡ w.task_exit_code
  pub pid_allocator : w'.pid_allocator ≡ w.pid_allocator
  pub tasks : w'.tasks ≡ w.tasks

pid2process_get-without_pid :
    (pid q : ℕ) (xs : List (ℕ × ℕ))
    → pid2process_get q (without_pid pid xs) ≡ (if pid == q then none else pid2process_get q xs)
pid2process_get-without_pid pid q [] = ground arith
pid2process_get-without_pid pid q ((k, p) ∷ xs) =
    let rest = pid2process_get-without_pid pid q xs in
    elim (Bool-cases (k == pid)) [
      | inl e ↦ rw e (
          rest ∙ elim (Bool-cases (pid == q)) [
            | inl s ↦ rw s refl
            | inr n ↦ let apart : k == q ≡ false = ground (arith, e, n) in rw (n, apart) refl
          ])
      | inr m ↦ rw m (elim (Bool-cases (k == q)) [
        | inl s ↦ let apart : pid == q ≡ false = ground (arith, m, s) in rw (s, apart) refl
        | inr n ↦ rw n rest
      ])
    ]

-- A process other than the daemon, whose thread ids are out, ends: it is a zombie with its exit code,
-- without children and files, with but its first thread; its pid stands for nothing, and no other
-- stands for anything else; its thread ids are given back, and its tasks hold none; its children go to
-- the end of the daemon's, with the daemon as parent; all else is as it was.
pub exit_process-HasEnded :
    (p : ℕ) (code : ℤ) (w : World)
    → CanEnd p w
    → (w' : World) × (exit_process p code w ≡ some w') × HasEnded p code w w'
unfolding exit_process remove_from_pid2process
exit_process-HasEnded p code w c =
    let w2 : World = record w {
      pid2process = without_pid (w.pid p) w.pid2process;
      is_zombie = at w.is_zombie p true;
      exit_code = at w.exit_code p code;
    } in
    let (f, g, adopted, parents, lists) = adopt-children w2 (w.children p) in
    let w3 : World = record w2 { parent = f; children = g } in
    let (r, taken, held) = take_res-tids_of w3 (w.threads p) in
    let w4 : World = record w3 { res = r } in
    let (a, done, after) = drop_all-with_recycled p w4 (tids_of w.res (w.threads p)) c.out in
    let not_daemon : p == w.daemon ≡ false = ground (arith, c.other) in
    (
      record w4 {
        task_res_allocator = a;
        children = at g p [];
        fd_table = at w.fd_table p [];
        threads = at w.threads p (take 1 (w.threads p));
      },
      rw (c.registered, not_daemon, adopted, taken, done) refl,
      record {
        pid2process = refl;
        registered = λ q. pid2process_get-without_pid (w.pid p) q w.pid2process;
        is_zombie = λ j. refl;
        exit_code = λ j. refl;
        parent = parents;
        children = λ j. ap (λ xs. if p == j then [] else xs) (lists j);
        fd_table = λ j. refl;
        threads = λ j. refl;
        task_res_allocator = after;
        res = held;
        daemon = refl;
        pid = refl;
        signals = refl;
        process = refl;
        task_exit_code = refl;
        pid_allocator = refl;
        tasks = refl;
      },
    )
