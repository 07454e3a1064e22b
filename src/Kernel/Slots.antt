-- ===== src/Kernel/Slots.antt =====
-- The lists of slots that a process keeps: `fd_table`, `mutex_list`, `semaphore_list` and
-- `condvar_list` of kernel/src/task/pcb.rs, and how an index into one is given out.
use lemon_core.Base.{
  take, take_all, get_elem?, length-replicate, length-append, ℕ, zero, suc, ◌+◌, ◌-◌, ◌≤◌, ◌<◌, ◌≡◌,
  refl, ap, ◌≢◌, Option, none, some, List, [], ◌∷◌, ◌++◌, arith, ◌==◌, if◌then◌else◌, length,
  replicate,
}

abbrev pub Slots {ℓ} : Type ℓ → Type ℓ
Slots A = List (Option A)

-- `match list.get(i) { Some(Some(x)) => .., _ => .. }`: both ways to miss are `none`.
unfoldable pub slot {ℓ} : {A : Type ℓ} → Slots A → ℕ → Option A
slot [] i = none
slot (x ∷ xs) zero = x
slot (x ∷ xs) (suc i) = slot xs i

-- `list.iter().position(Option::is_none)`, from index `i` on.
pub position_none {ℓ} : {A : Type ℓ} → ℕ → Slots A → Option ℕ
position_none i [] = none
position_none i (none ∷ xs) = some i
position_none i (some x ∷ xs) = position_none (suc i) xs

pub put {ℓ} : {A : Type ℓ} → Slots A → ℕ → Option A → Slots A
put [] i v = []
put (x ∷ xs) zero v = v ∷ xs
put (x ∷ xs) (suc i) v = x ∷ put xs i v

create_at {ℓ} : {A : Type ℓ} → A → Slots A → Option ℕ → ℕ × Slots A
create_at v xs (some i) = (i, put xs i (some v))
create_at v xs none = (length xs, xs ++ (some v ∷ []))

-- Into the first free slot, or into a new one at the end.
pub create {ℓ} : {A : Type ℓ} → A → Slots A → ℕ × Slots A
unfolding position_none create_at
create v xs = create_at v xs (position_none 0 xs)

fd_at {ℓ} : {A : Type ℓ} → Slots A → Option ℕ → ℕ × Slots A
fd_at xs (some fd) = (fd, xs)
fd_at xs none = (length xs, xs ++ (none ∷ []))

-- `alloc_fd`: a free slot, which stays free.
pub alloc_fd {ℓ} : {A : Type ℓ} → Slots A → ℕ × Slots A
unfolding position_none fd_at
alloc_fd xs = fd_at xs (position_none 0 xs)

-- `resize(n, None)`.
pub resize {ℓ} : {A : Type ℓ} → Slots A → ℕ → Slots A
resize xs n = take n xs ++ replicate (n - length xs) none

pub slot-put {ℓ} :
    {A : Type ℓ} (xs : Slots A) (i j : ℕ) (v : Option A)
    → i < length xs
    → slot (put xs i v) j ≡ (if i == j then v else slot xs j)
unfolding slot put
slot-put [] i j v h = absurd (omega (arith, h))
slot-put (x ∷ xs) zero zero v h = ground arith
slot-put (x ∷ xs) zero (suc j) v h = ground arith
slot-put (x ∷ xs) (suc i) zero v h = ground arith
slot-put (x ∷ xs) (suc i) (suc j) v h = rw (same i j) (slot-put xs i j v (omega (arith, h)))
  where
    same : (i j : ℕ) → (suc i == suc j) ≡ (i == j)
    same i j = ground arith

-- A list with free slots behind it has the same files.
pub slot-append {ℓ} :
    {A : Type ℓ} (xs : Slots A) (n j : ℕ) → slot (xs ++ replicate n none) j ≡ slot xs j
unfolding slot
slot-append [] zero j = refl
slot-append [] (suc n) zero = refl
slot-append [] (suc n) (suc j) = slot-append [] n j
slot-append (x ∷ xs) n zero = refl
slot-append (x ∷ xs) n (suc j) = slot-append xs n j

pub slot-length {ℓ} : {A : Type ℓ} (xs : Slots A) (j : ℕ) → length xs ≤ j → slot xs j ≡ none
unfolding slot
slot-length [] j h = refl
slot-length (x ∷ xs) zero h = absurd (omega (arith, h))
slot-length (x ∷ xs) (suc j) h = slot-length xs j (omega (arith, h))

put-append {ℓ} :
    {A : Type ℓ} (xs : Slots A) (v : Option A)
    → put (xs ++ (none ∷ [])) (length xs) v ≡ xs ++ (v ∷ [])
unfolding put
put-append [] v = refl
put-append (x ∷ xs) v = ap (λ ys. x ∷ ys) (put-append xs v)

-- The slot that `position_none` finds: the first free one.
FirstFree {ℓ} : {A : Type ℓ} → ℕ → Slots A → Option ℕ → Type ℓ
FirstFree i xs none = (j : ℕ) → j < length xs → slot xs j ≢ none
FirstFree i xs (some k) =
    (d : ℕ) × (k ≡ i + d)
    × (d < length xs)
    × (slot xs d ≡ none)
    × ((j : ℕ) → j < d → slot xs j ≢ none)

next_free {ℓ} :
    {A : Type ℓ} (i : ℕ) (x : A) (xs : Slots A) (r : Option ℕ)
    → FirstFree (suc i) xs r
    → FirstFree i (some x ∷ xs) r
unfolding FirstFree slot
next_free i x xs none f = taken (length xs) f
  where
    taken :
        (n : ℕ)
        → ((j : ℕ) → j < n → slot xs j ≢ none)
        → (j : ℕ) → j < suc n
        → slot (some x ∷ xs) j ≢ none
    taken n g zero h = λ e. cc
    taken n g (suc j) h = g j (omega (arith, h))
next_free i x xs (some k) (d, e, h, free, before) =
    (suc d, omega (arith, e), omega (arith, h), free, λ j l. taken_below j l)
  where
    taken_below : (j : ℕ) → j < suc d → slot (some x ∷ xs) j ≢ none
    taken_below zero l = λ e. cc
    taken_below (suc j) l = before j (omega (arith, l))

position_none-FirstFree {ℓ} :
    {A : Type ℓ} (i : ℕ) (xs : Slots A) → FirstFree i xs (position_none i xs)
unfolding FirstFree position_none slot
position_none-FirstFree i [] = λ j h. absurd (omega (arith, h))
position_none-FirstFree i (none ∷ xs) =
    (0, omega arith, omega arith, refl, λ j h. absurd (omega (arith, h)))
position_none-FirstFree i (some x ∷ xs) =
    next_free i x xs (position_none (suc i) xs) (position_none-FirstFree (suc i) xs)

-- What it means that `id` with the list `ys` is a new entry `v` of the list `xs`: the lowest index
-- that had none, which alone changes.
pub record IsEntry {ℓ} {A : Type ℓ} (v : A) (xs : Slots A) (r : ℕ × Slots A) : Type ℓ where
  pub was_free : slot xs r.0 ≡ none
  pub lowest : (j : ℕ) → j < r.0 → slot xs j ≢ none
  pub entry : (j : ℕ) → slot r.1 j ≡ (if r.0 == j then some v else slot xs j)

slot-push {ℓ} :
    {A : Type ℓ} (v : A) (xs : Slots A) (j : ℕ)
    → slot (xs ++ (some v ∷ [])) j ≡ (if length xs == j then some v else slot xs j)
unfolding slot
slot-push v [] zero = ground arith
slot-push v [] (suc j) = ground arith
slot-push v (x ∷ xs) zero = ground arith
slot-push v (x ∷ xs) (suc j) = ground (arith, slot-push v xs j)

create_at-IsEntry {ℓ} :
    {A : Type ℓ} (v : A) (xs : Slots A) (r : Option ℕ)
    → FirstFree 0 xs r
    → IsEntry v xs (create_at v xs r)
unfolding FirstFree create_at
create_at-IsEntry v xs none f = record {
  was_free = slot-length xs (length xs) (omega arith);
  lowest = f;
  entry = slot-push v xs;
}
create_at-IsEntry v xs (some k) (d, e, h, free, before) =
    let k₁ : k ≡ d = omega (arith, e) in
    record {
      was_free = rw k₁ free;
      lowest = rw k₁ before;
      entry = λ j. slot-put xs k j (some v) (omega (arith, k₁, h));
    }

-- A new object of a process gets the lowest index that is free; there it is found, and at every
-- other index what was there before.
pub create-IsEntry {ℓ} : {A : Type ℓ} (v : A) (xs : Slots A) → IsEntry v xs (create v xs)
unfolding create
create-IsEntry v xs = create_at-IsEntry v xs (position_none 0 xs) (position_none-FirstFree 0 xs)

fd_at-create_at {ℓ} :
    {A : Type ℓ} (v : A) (xs : Slots A) (r : Option ℕ)
    → let (fd, ys) = fd_at xs r in (fd, put ys fd (some v)) ≡ create_at v xs r
unfolding fd_at create_at
fd_at-create_at v xs none = ap (λ ys. (length xs, ys)) (put-append xs (some v))
fd_at-create_at v xs (some k) = refl

-- `alloc_fd` followed by the store of a file makes a new entry of it.
pub alloc_fd-create {ℓ} :
    {A : Type ℓ} (v : A) (xs : Slots A)
    → let (fd, ys) = alloc_fd xs in (fd, put ys fd (some v)) ≡ create v xs
unfolding alloc_fd create
alloc_fd-create v xs = fd_at-create_at v xs (position_none 0 xs)

pub slot_in {ℓ} : {A : Type ℓ} (xs : Slots A) (i : ℕ) (v : A) → slot xs i ≡ some v → i < length xs
unfolding slot
slot_in [] i v e = cc
slot_in (x ∷ xs) zero v e = omega arith
slot_in (x ∷ xs) (suc i) v e = omega (arith, slot_in xs i v e)

pub resize-slot {ℓ} :
    {A : Type ℓ} (xs : Slots A) (n j : ℕ) → length xs ≤ n → slot (resize xs n) j ≡ slot xs j
unfolding resize
resize-slot xs n j h = rw (take_all n xs h) (slot-append xs (n - length xs) j)

pub length-resize {ℓ} :
    {A : Type ℓ} (xs : Slots A) (n : ℕ) → length xs ≤ n → length (resize xs n) ≡ n
unfolding resize
length-resize {A = A} xs n h = rw (take_all n xs h) (
    omega (
      arith,
      length-append xs (replicate (n - length xs) none),
      length-replicate {A = Option A} (n - length xs) none,
    ))

pub length-resize_zero {ℓ} : {A : Type ℓ} (xs : Slots A) → length (resize xs 0) ≡ 0
unfolding resize
length-resize_zero xs = let z : 0 - length xs ≡ 0 = omega arith in rw z

pub length-put {ℓ} :
    {A : Type ℓ} (xs : Slots A) (i : ℕ) (v : Option A) → length (put xs i v) ≡ length xs
unfolding put
length-put [] i v = refl
length-put (x ∷ xs) zero v = refl
length-put (x ∷ xs) (suc i) v = ap suc (length-put xs i v)

-- An index in range is the slot there.
pub index-slot {ℓ} :
    {A : Type ℓ} (xs : Slots A) (i : ℕ) → i < length xs → get_elem? xs i ≡ some (slot xs i)
unfolding slot
index-slot [] i h = absurd (omega (arith, h))
index-slot (x ∷ xs) zero h = refl
index-slot (x ∷ xs) (suc i) h = index-slot xs i (omega (arith, h))

pub index_beyond {ℓ} : {A : Type ℓ} (xs : List A) (i : ℕ) → length xs ≤ i → get_elem? xs i ≡ none
index_beyond [] i h = refl
index_beyond (x ∷ xs) zero h = absurd (omega (arith, h))
index_beyond (x ∷ xs) (suc i) h = index_beyond xs i (omega (arith, h))
