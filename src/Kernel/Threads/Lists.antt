-- ===== src/Kernel/Threads/Lists.antt =====
-- The list of threads as threads come and are waited for.
use lemon_core.Base.{
  ℕ, zero, suc, ◌+◌, ◌-◌, ◌<◌, ◌≡◌, refl, ap, ◌∙◌, ◌≢◌, ◌⊎◌, inl, inr, true, false, Option, none,
  some, [], ◌∷◌, arith, ltb, ◌==◌, if◌then◌else◌, ==_iff, Bool-cases, length, length-append, take,
  replicate, length-take, length-replicate,
}
use lemon_core.Kernel.Recycle.{alloc}
use lemon_core.Kernel.Slots.{
  Slots, index-slot, index_beyond, slot, put, slot-put, slot-append, length-put, slot_in,
}
use lemon_core.Kernel.Sync.{ℤ, negsuc}
use lemon_core.Kernel.Process.{World, at}
use lemon_core.Kernel.Threads.{resize_with, sys_thread_create, sys_waittid, waited, waited_slot}

length-resize_with : (ts : Slots ℕ) (n : ℕ) → length (resize_with ts n) ≡ n
unfolding resize_with
length-resize_with ts n = omega (
  arith,
  length-append (take n ts) (replicate (n - length ts) none),
  length-take n ts,
  length-replicate {A = Option ℕ} (n - length ts) none,
)

slot-take : (ts : Slots ℕ) (n j : ℕ) → slot (take n ts) j ≡ (if ltb j n then slot ts j else none)
unfolding slot
slot-take [] zero j = ground arith
slot-take [] (suc n) j = ground arith
slot-take (t ∷ ts) zero j = ground arith
slot-take (t ∷ ts) (suc n) zero = ground arith
slot-take (t ∷ ts) (suc n) (suc j) = slot-take ts n j ∙ ground arith

-- A new thread stands at its id, each thread with a lower id stays, and the list ends there: a thread
-- with a higher id is no longer in it.
pub sys_thread_create-slot :
    (p task : ℕ) (w : World)
    → let (tid, w') = sys_thread_create p task w in
      (tid ≡ (alloc (w.task_res_allocator p)).0)
      × (length (w'.threads p) ≡ tid + 1)
      × ((j : ℕ)
          → slot (w'.threads p) j
            ≡ (if tid == j then some task else if ltb j tid then slot (w.threads p) j else none))
unfolding sys_thread_create resize_with
sys_thread_create-slot p task w =
    let tid : ℕ = (alloc (w.task_res_allocator p)).0 in
    let same : p == p ≡ true = (==_iff p p).1 refl in
    let size = length-resize_with (w.threads p) (tid + 1) in
    (
      refl,
      rw same (length-put (resize_with (w.threads p) (tid + 1)) tid (some task) ∙ size),
      λ j. rw same (
          slot-put (resize_with (w.threads p) (tid + 1)) tid j (some task) (omega (arith, size))
          ∙ kept (w.threads p) tid j (Bool-cases (tid == j))),
    )
  where
    kept :
        (ts : Slots ℕ) (tid j : ℕ)
        → (tid == j ≡ true) ⊎ (tid == j ≡ false)
        → (if tid == j then some task else slot (resize_with ts (tid + 1)) j)
          ≡ (if tid == j then some task else if ltb j tid then slot ts j else none)
    kept ts tid j (inl e) = rw e refl
    kept ts tid j (inr n) = rw n (
        slot-append (take (tid + 1) ts) (tid + 1 - length ts) j
        ∙ (slot-take ts (tid + 1) j
            ∙ ap (λ b. if b then slot ts j else none)
                (let e : ltb j (tid + 1) ≡ ltb j tid = ground arith in e)))

waiter_kept :
    (p task waiter own : ℕ) (w : World)
    → waiter ≢ task
    → w.res waiter ≡ some own
    → (sys_thread_create p task w).1.res waiter ≡ some own
unfolding sys_thread_create
waiter_kept p task waiter own w ne r =
    let apart : task == waiter ≡ false = ground (arith, ne) in rw apart r

-- A thread with a higher id than the one that a new thread gets is lost: to wait for it afterwards is
-- an index out of range, whichever other thread waits.
pub sys_waittid-sys_thread_create :
    (p task waiter own tid : ℕ) (w : World)
    → (alloc (w.task_res_allocator p)).0 < tid
    → waiter ≢ task
    → w.res waiter ≡ some own
    → own ≢ tid
    → sys_waittid waiter p tid (sys_thread_create p task w).1 ≡ none
unfolding sys_waittid
sys_waittid-sys_thread_create p task waiter own tid w h ne r other =
    let (same, size, slots) = sys_thread_create-slot p task w in
    let w' : World = (sys_thread_create p task w).1 in
    let own' : w'.res waiter ≡ some own = waiter_kept p task waiter own w ne r in
    let apart : own == tid ≡ false = ground (arith, other) in
    rw (own', apart, index_beyond (w'.threads p) tid (omega (arith, size, same, h))) refl

-- A thread that has exited is waited for once: the first call returns its exit code and empties its
-- slot alone, and a second call returns -1 and changes nothing.
pub sys_waittid_twice :
    (p waiter own tid t : ℕ) (code : ℤ) (w : World)
    → w.res waiter ≡ some own
    → own ≢ tid
    → slot (w.threads p) tid ≡ some t
    → w.task_exit_code t ≡ some code
    → (w' : World) × (sys_waittid waiter p tid w ≡ some (code, w'))
      × ((j : ℕ) → slot (w'.threads p) j ≡ (if tid == j then none else slot (w.threads p) j))
      × (sys_waittid waiter p tid w' ≡ some (negsuc 0, w'))
unfolding sys_waittid waited_slot waited
sys_waittid_twice p waiter own tid t code w r other s e =
    let apart : own == tid ≡ false = ground (arith, other) in
    let same : p == p ≡ true = (==_iff p p).1 refl in
    let low : tid < length (w.threads p) = slot_in (w.threads p) tid t s in
    let low' : tid < length (put (w.threads p) tid none) =
      omega (arith, low, length-put (w.threads p) tid none) in
    let found = index-slot (w.threads p) tid low ∙ ap some s in
    let gone : slot (put (w.threads p) tid none) tid ≡ none =
      slot-put (w.threads p) tid tid none low ∙ rw ((==_iff tid tid).1 refl) refl in
    let emptied = index-slot (put (w.threads p) tid none) tid low' ∙ ap some gone in
    (
      record w { threads = at w.threads p (put (w.threads p) tid none) },
      rw (r, apart, found, e) refl,
      λ j. rw same (slot-put (w.threads p) tid j none low),
      rw (r, apart, same, emptied) refl,
    )
