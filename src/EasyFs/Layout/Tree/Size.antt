-- ===== src/EasyFs/Layout/Tree/Size.antt =====
-- How many blocks a number of leaves takes in a tree of indirect blocks, its root not counted.
use lemon_core.Base.{
  ℕ, zero, suc, ◌+◌, ◌-◌, ◌*◌, ◌/◌, ◌≤◌, min, ◌≡◌, refl, sym, ap, ◌∙◌, ◌≢◌, arith, dec_lt, ◌==◌,
  if◌then◌else◌,
}

-- The leaves below a block with so many levels.
unfoldable pub cap : ℕ → ℕ
cap zero = 1
cap (suc levels) = 128 * cap levels

-- The blocks that `x` leaves take below a block with `n` entries, when a child of `c` leaves takes
-- `size`, the children included.
unfoldable pub entries_size : (ℕ → ℕ) → ℕ → ℕ → ℕ → ℕ
entries_size size c zero x = 0
entries_size size c (suc n) x =
    if x == 0 then 0 else 1 + size (min x c) + entries_size size c n (x - c)

unfoldable pub tree_size : ℕ → ℕ → ℕ
unfolding entries_size cap
tree_size zero x = 0
tree_size (suc levels) x = entries_size (tree_size levels) (cap levels) 128 x

pub entries_size-zero : (size : ℕ → ℕ) (c n : ℕ) → entries_size size c n 0 ≡ 0
unfolding entries_size
entries_size-zero size c zero = refl
entries_size-zero size c (suc n) = refl

pub entries_size_mono :
    (size : ℕ → ℕ) (c n : ℕ)
    → ((x y : ℕ) → x ≤ y → size x ≤ size y)
    → (x y : ℕ) → x ≤ y
    → entries_size size c n x ≤ entries_size size c n y
unfolding entries_size
entries_size_mono size c zero mono x y h = omega arith
entries_size_mono size c (suc n) mono x y h = ground (
  arith,
  mono (min x c) (min y c) (omega arith),
  entries_size_mono size c n mono (x - c) (y - c) (omega arith),
)

pub tree_size_mono : (levels x y : ℕ) → x ≤ y → tree_size levels x ≤ tree_size levels y
unfolding tree_size
tree_size_mono zero x y h = omega arith
tree_size_mono (suc levels) x y h =
    entries_size_mono (tree_size levels) (cap levels) 128 (tree_size_mono levels) x y h

pub tree_size-zero : (levels : ℕ) → tree_size levels 0 ≡ 0
unfolding tree_size
tree_size-zero zero = refl
tree_size-zero (suc levels) = entries_size-zero (tree_size levels) (cap levels) 128

pub entries_size-suc :
    (size : ℕ → ℕ) (c n x : ℕ)
    → x ≢ 0
    → entries_size size c (suc n) x ≡ 1 + size (min x c) + entries_size size c n (x - c)
unfolding entries_size
entries_size-suc size c n x h = ground arith

pub entries_size-none : (size : ℕ → ℕ) (c x : ℕ) → entries_size size c 0 x ≡ 0
unfolding entries_size
entries_size-none size c x = refl

pub cap-pos : (levels : ℕ) → 1 ≤ cap levels
unfolding cap
cap-pos zero = omega arith
cap-pos (suc levels) = omega (arith, cap-pos levels)

-- Leaves beyond the entries take no blocks.
pub entries_size-min :
    (size : ℕ → ℕ) (c n x : ℕ)
    → 1 ≤ c
    → entries_size size c n (min x (n * c)) ≡ entries_size size c n x
entries_size-min size c zero x h =
    entries_size-none size c (min x (0 * c)) ∙ sym (entries_size-none size c x)
entries_size-min size c (suc n) x h = elim (dec_lt 0 x) [
  | yes p ↦
      let y : ℕ = min x (suc n * c) in
      let a : min y c ≡ min x c = omega arith in
      let b : y - c ≡ min (x - c) (n * c) = omega arith in
      let now : entries_size size c (suc n) y
          ≡ 1 + size (min x c) + entries_size size c n (min (x - c) (n * c)) =
        rw (← a, ← b) (entries_size-suc size c n y (omega arith)) in
      omega
        (arith, now, entries_size-min size c n (x - c) h, entries_size-suc size c n x (omega arith))
  | no p ↦ let z : min x (suc n * c) ≡ x = omega arith in ap (entries_size size c (suc n)) z
]

-- The trees that an inode has, in closed form.
pub tree_size_one : (x : ℕ) → x ≤ 128 → tree_size 1 x ≡ x
unfolding tree_size cap
tree_size_one x h = go 128 x h
  where
    go : (n x : ℕ) → x ≤ n → entries_size (tree_size 0) (cap 0) n x ≡ x
    go zero x h = entries_size-none (tree_size 0) 1 x ∙ omega arith
    go (suc n) x h = elim (dec_lt 0 x) [
      | yes p ↦
          omega
            (arith, entries_size-suc (tree_size 0) 1 n x (omega arith), go n (x - 1) (omega arith))
      | no p ↦ let z : x ≡ 0 = omega arith in rw z (entries_size-zero (tree_size 0) 1 (suc n))
    ]

pub tree_size_two : (x : ℕ) → x ≤ 16384 → tree_size 2 x ≡ x + (x + 127) / 128
unfolding tree_size cap
tree_size_two x h = go 128 x h
  where
    go : (n x : ℕ) → x ≤ n * 128 → entries_size (tree_size 1) 128 n x ≡ x + (x + 127) / 128
    go zero x h = entries_size-none (tree_size 1) 128 x ∙ omega arith
    go (suc n) x h = elim (dec_lt 0 x) [
      | yes p ↦ omega (
        arith,
        entries_size-suc (tree_size 1) 128 n x (omega arith),
        tree_size_one (min x 128) (omega arith),
        go n (x - 128) (omega arith),
      )
      | no p ↦ let z : x ≡ 0 = omega arith in rw z (entries_size-zero (tree_size 1) 128 (suc n))
    ]

pub tree_size_three :
    (x : ℕ) → x ≤ 2097152 → tree_size 3 x ≡ x + (x + 127) / 128 + (x + 16383) / 16384
unfolding tree_size cap
tree_size_three x h = go 128 x h
  where
    go :
        (n x : ℕ)
        → x ≤ n * 16384
        → entries_size (tree_size 2) 16384 n x ≡ x + (x + 127) / 128 + (x + 16383) / 16384
    go zero x h = entries_size-none (tree_size 2) 16384 x ∙ omega arith
    go (suc n) x h = elim (dec_lt 0 x) [
      | yes p ↦ omega (
        arith,
        entries_size-suc (tree_size 2) 16384 n x (omega arith),
        tree_size_two (min x 16384) (omega arith),
        go n (x - 16384) (omega arith),
      )
      | no p ↦ let z : x ≡ 0 = omega arith in rw z (entries_size-zero (tree_size 2) 16384 (suc n))
    ]
