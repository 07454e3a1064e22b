-- ===== src/Kernel/Frames/Room.antt =====
-- How many frames are left, and an allocation while some are.
use lemon_core.Base.{
  ℕ, suc, ◌+◌, ◌-◌, ◌%◌, ◌^◌, ◌≤◌, ◌<◌, ◌≡◌, refl, ap, subst, ◌≢◌, true, false, some, List, [], ◌∷◌,
  arith, ◌==◌, if◌then◌else◌, length,
}
use lemon_core.Kernel.Frames.{
  StackFrameAllocator, Memory, alloc, alloc_from, alloc_tracked, track, zero_fill,
}
use lemon_core.Kernel.Frames.Ownership.{
  IsValid, in_use, Allocates, alloc-Allocates, Zeroes, alloc_tracked-Zeroes,
}

-- The number of frames that the allocator can still hand out.
unfoldable pub available : StackFrameAllocator → ℕ
available a = length a.recycled + (a.end - a.current)

-- What an allocation that hands out `frame` leaves.
pub record Allocated (start : ℕ) (m : Memory) (a : StackFrameAllocator) (frame : ℕ) (m' : Memory)
    (a' : StackFrameAllocator) : Type 0 where
  pub result : alloc_tracked m a ≡ (some frame, m', a')
  pub valid : IsValid start a'
  pub fresh : in_use start a frame ≡ false
  pub physical : frame < 2 ^ 44
  pub marked : (j : ℕ) → in_use start a' j ≡ (if frame == j then true else in_use start a j)
  pub cleared : (q i : ℕ) → m' q i ≡ (if frame == q then 0 else m q i)
  pub left : available a' + 1 ≡ available a

room :
    (start : ℕ) (a : StackFrameAllocator) (xs : List ℕ)
    → IsValid start a
    → a.recycled ≡ xs
    → 1 ≤ available a
    → (frame : ℕ) × (a' : StackFrameAllocator) × (alloc_from a xs ≡ (some frame, a'))
      × (available a' + 1 ≡ available a)
unfolding alloc_from available
room start a [] v e h =
    let none_left : length a.recycled ≡ 0 = rw e refl in
    let more : a.current == a.end ≡ false = ground (arith, none_left) in
    (
      (a.current + 1 - 1) % 2 ^ 44,
      record a { current = a.current + 1 },
      rw more refl,
      left none_left v.within (ground (arith, v.within)),
    )
  where
    left :
        {n current end : ℕ}
        → n ≡ 0
        → current ≤ end
        → current ≢ end
        → n + (end - (current + 1)) + 1 ≡ n + (end - current)
    left z w ne = omega (arith, ne)
room start a (frame ∷ rest) v e h =
    let some_left : length a.recycled ≡ suc (length rest) = rw e refl in
    (frame % 2 ^ 44, record a { recycled = rest }, refl, omega (arith, some_left))

-- While a frame is left, a tracked allocation succeeds.
pub alloc_tracked-Allocated :
    (start : ℕ) (m : Memory) (a : StackFrameAllocator)
    → IsValid start a
    → 1 ≤ available a
    → (frame : ℕ) × (m' : Memory) × (a' : StackFrameAllocator) × Allocated start m a frame m' a'
unfolding alloc_tracked alloc track zero_fill
alloc_tracked-Allocated start m a v h =
    let (frame, a', e, left) = room start a a.recycled v refl h in
    let (valid, fresh, range, marked) = subst (Allocates start a) e (alloc-Allocates start a v) in
    (
      frame,
      zero_fill m frame,
      a',
      record {
        result = ap (track m) e;
        valid = valid;
        fresh = fresh;
        physical = omega (arith, range, v.physical);
        marked = marked;
        cleared = subst (Zeroes m) (ap (track m) e) (alloc_tracked-Zeroes m a);
        left = left;
      },
    )
