-- ===== src/Kernel/Frames/Ownership.antt =====
-- Which frames are in use, and that none is handed out twice.
use lemon_core.Base.{
  ℕ, ◌+◌, ◌-◌, ◌%◌, ◌^◌, ◌≤◌, ◌<◌, ◌≡◌, refl, ◌↔◌, inl, inr, Bool, true, false, not, ◌&&◌, Option,
  none, some, List, [], ◌∷◌, arith, ltb, leb, ◌==◌, if◌then◌else◌, Bool-cases, contains, All,
  Distinct,
}
use lemon_core.Kernel.Frames.{
  StackFrameAllocator, Memory, new, init, alloc, alloc_from, dealloc, zero_fill, track,
  alloc_tracked,
}

-- `start` is the first frame that the allocator was given.
pub record IsValid (start : ℕ) (a : StackFrameAllocator) : Type 0 where
  pub from_start : start ≤ a.current
  pub within : a.current ≤ a.end
  pub physical : a.end ≤ 2 ^ 44
  pub below : All (λ ppn. (start ≤ ppn) × (ppn < a.current)) a.recycled
  pub distinct : Distinct a.recycled

-- Whether a frame is handed out.
unfoldable pub in_use : ℕ → StackFrameAllocator → ℕ → Bool
in_use start a ppn = leb start ppn && (ltb ppn a.current && not (contains ppn a.recycled))

All-mono :
    (start m n : ℕ) (xs : List ℕ)
    → m ≤ n
    → All (λ ppn. (start ≤ ppn) × (ppn < m)) xs
    → All (λ ppn. (start ≤ ppn) × (ppn < n)) xs
All-mono start m n [] h a = tt
All-mono start m n (x ∷ xs) h a = ((a.0.0, omega arith), All-mono start m n xs h a.1)

All-contains :
    (start n : ℕ) (xs : List ℕ) → All (λ ppn. (start ≤ ppn) × (ppn < n)) xs → contains n xs ≡ false
All-contains start n [] a = refl
All-contains start n (x ∷ xs) a = ground (arith, All-contains start n xs a.1)

-- After `init` with a range of physical frames the allocator is valid and no frame is in use.
pub init-in_use :
    (l r : ℕ)
    → l ≤ r
    → r ≤ 2 ^ 44
    → IsValid l (init new l r) × ((ppn : ℕ) → in_use l (init new l r) ppn ≡ false)
unfolding init new in_use
init-in_use l r h p = (
  record { from_start = omega arith; within = h; physical = p; below = tt; distinct = tt },
  λ ppn. ground arith,
)

-- What `alloc` may do: hand out a frame of the range that was not in use, or, with every frame of
-- the range in use, nothing.
abbrev pub Allocates : ℕ → StackFrameAllocator → Option ℕ × StackFrameAllocator → Type 0
Allocates start a (none, a') =
    (a' ≡ a) × ((ppn : ℕ) → start ≤ ppn → ppn < a.end → in_use start a ppn ≡ true)
Allocates start a (some ppn, a') =
    IsValid start a'
    × (in_use start a ppn ≡ false)
    × ((start ≤ ppn) × (ppn < a.end))
    × ((j : ℕ) → in_use start a' j ≡ (if ppn == j then true else in_use start a j))

alloc_from-Allocates :
    (start : ℕ) (a : StackFrameAllocator) (xs : List ℕ)
    → IsValid start a
    → a.recycled ≡ xs
    → Allocates start a (alloc_from a xs)
unfolding alloc_from in_use
alloc_from-Allocates start a [] v e = elim (Bool-cases (a.current == a.end)) [
  | inl spent ↦ rw spent (refl, λ ppn l h. rw e (ground arith))
  | inr more ↦ rw more (
      let small : (a.current + 1 - 1) % 2 ^ 44 ≡ a.current = ground arith in
      rw small (
        record {
          from_start = omega (arith, v.from_start);
          within = ground (arith, v.within);
          physical = v.physical;
          below = All-mono start a.current (a.current + 1) a.recycled (omega arith) v.below;
          distinct = v.distinct;
        },
        ground arith,
        (v.from_start, ground arith),
        λ j. ground (arith, All-contains start a.current a.recycled v.below),
      ))
]
alloc_from-Allocates start a (ppn ∷ rest) v e =
    let low : All (λ p. (start ≤ p) × (p < a.current)) (ppn ∷ rest) = rw e at v.below in
    let apart : Distinct (ppn ∷ rest) = rw e at v.distinct in
    let small : ppn % 2 ^ 44 ≡ ppn = omega arith in
    rw small (
      record {
        from_start = v.from_start;
        within = v.within;
        physical = v.physical;
        below = low.1;
        distinct = apart.1;
      },
      rw e (ground arith),
      (low.0.0, omega arith),
      λ j. rw e (ground arith),
    )

-- `alloc` hands out a frame of the range that was not in use, and marks it alone as in use; it
-- returns nothing only when every frame of the range is in use.
pub alloc-Allocates :
    (start : ℕ) (a : StackFrameAllocator) → IsValid start a → Allocates start a (alloc a)
unfolding alloc
alloc-Allocates start a v = alloc_from-Allocates start a a.recycled v refl

-- `dealloc` of a frame in use succeeds, and that frame alone is no longer in use.
pub dealloc-in_use :
    (start : ℕ) {a : StackFrameAllocator} (ppn : ℕ)
    → IsValid start a
    → in_use start a ppn ≡ true
    → (a' : StackFrameAllocator) × (dealloc a ppn ≡ some a')
      × IsValid start a'
      × ((j : ℕ) → in_use start a' j ≡ (if ppn == j then false else in_use start a j))
unfolding dealloc in_use
dealloc-in_use start {a} ppn v h = (
  record a { recycled = ppn ∷ a.recycled },
  ground arith,
  record {
    from_start = v.from_start;
    within = v.within;
    physical = v.physical;
    below = (ground arith, v.below);
    distinct = (ground arith, v.distinct);
  },
  λ j. ground arith,
)

-- `dealloc` panics on each frame of the range that is not in use.
pub dealloc-none :
    (start : ℕ) (a : StackFrameAllocator) (ppn : ℕ)
    → start ≤ ppn
    → (dealloc a ppn ≡ none) ↔ (in_use start a ppn ≡ false)
unfolding dealloc in_use
dealloc-none start a ppn h = ground arith

-- What a tracked allocation leaves in memory: the frame handed out is zero, all others are as before.
abbrev pub Zeroes : Memory → Option ℕ × Memory × StackFrameAllocator → Type 0
Zeroes m (none, m', a) = m' ≡ m
Zeroes m (some ppn, m', a) = (q i : ℕ) → m' q i ≡ (if ppn == q then 0 else m q i)

track-Zeroes : (m : Memory) (r : Option ℕ × StackFrameAllocator) → Zeroes m (track m r)
unfolding track zero_fill
track-Zeroes m (none, a) = refl
track-Zeroes m (some ppn, a) = λ q i. ground arith

-- A tracked allocation clears the frame that it hands out, and no byte of another frame.
pub alloc_tracked-Zeroes : (m : Memory) (a : StackFrameAllocator) → Zeroes m (alloc_tracked m a)
unfolding alloc_tracked
alloc_tracked-Zeroes m a = track-Zeroes m (alloc a)
