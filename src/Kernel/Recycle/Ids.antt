-- ===== src/Kernel/Recycle/Ids.antt =====
-- Which ids are in use: the ones handed out and not yet recycled.
use lemon_core.Base.{
  ℕ, ◌≤◌, ◌<◌, ◌≡◌, refl, ◌↔◌, Bool, true, false, not, ◌&&◌, none, some, List, [], ◌∷◌, arith, ltb,
  ◌==◌, if◌then◌else◌, contains, All, Distinct,
}
use lemon_core.Kernel.Recycle.{RecycleAllocator, new, alloc, dealloc, alloc_from}

pub record IsValid (a : RecycleAllocator) : Type 0 where
  pub below : All (λ id. id < a.current) a.recycled
  pub distinct : Distinct a.recycled

-- Whether an id is in use.
pub in_use : RecycleAllocator → ℕ → Bool
in_use a id = ltb id a.current && not (contains id a.recycled)

All-mono : {m n : ℕ} (xs : List ℕ) → m ≤ n → All (λ id. id < m) xs → All (λ id. id < n) xs
All-mono [] h a = tt
All-mono {m} {n} (x ∷ xs) h a = (omega arith, All-mono {m = m} {n = n} xs h a.1)

-- An allocator starts with no id in use.
pub in_use-new : IsValid new × ((id : ℕ) → in_use new id ≡ false)
unfolding new in_use
in_use-new = (record { below = tt; distinct = tt }, λ id. ground arith)

All-contains : (n : ℕ) (xs : List ℕ) → All (λ id. id < n) xs → contains n xs ≡ false
All-contains n [] a = refl
All-contains n (x ∷ xs) a = ground (arith, All-contains n xs a.1)

-- `alloc` hands out an id that is not in use, which is in use from then on; no other id changes.
pub alloc-in_use :
    {a : RecycleAllocator}
    → IsValid a
    → let (id, a') = alloc a in
      IsValid a'
      × (in_use a id ≡ false)
      × ((j : ℕ) → in_use a' j ≡ (if id == j then true else in_use a j))
unfolding alloc in_use
alloc-in_use {a} v = go a.recycled refl
  where
    go :
        (xs : List ℕ)
        → a.recycled ≡ xs
        → let (id, a') = alloc_from a xs in
          IsValid a'
          × (in_use a id ≡ false)
          × ((j : ℕ) → in_use a' j ≡ (if id == j then true else in_use a j))
    go [] e = (
      record { below = All-mono a.recycled (omega arith) v.below; distinct = v.distinct },
      ground arith,
      λ j. ground (arith, All-contains a.current a.recycled v.below),
    )
    go (id ∷ rest) e =
        let low : All (λ id. id < a.current) (id ∷ rest) = rw e at v.below in
        let apart : Distinct (id ∷ rest) = rw e at v.distinct in
        (
          record { below = low.1; distinct = apart.1 },
          rw e (ground arith),
          λ j. rw e (ground arith),
        )

-- `dealloc` of an id in use succeeds, and that id alone is no longer in use.
pub dealloc-in_use :
    {a : RecycleAllocator} (id : ℕ)
    → IsValid a
    → in_use a id ≡ true
    → (a' : RecycleAllocator) × (dealloc a id ≡ some a')
      × IsValid a'
      × ((j : ℕ) → in_use a' j ≡ (if id == j then false else in_use a j))
unfolding dealloc in_use
dealloc-in_use {a} id v h = (
  record a { recycled = id ∷ a.recycled },
  ground arith,
  record { below = (ground arith, v.below); distinct = (ground arith, v.distinct) },
  λ j. ground arith,
)

-- `dealloc` panics exactly on an id that is not in use, so no id is recycled twice.
pub dealloc-none : (a : RecycleAllocator) (id : ℕ) → (dealloc a id ≡ none) ↔ (in_use a id ≡ false)
unfolding dealloc in_use
dealloc-none a id = ground arith
