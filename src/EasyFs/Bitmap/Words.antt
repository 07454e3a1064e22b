-- ===== src/EasyFs/Bitmap/Words.antt =====
-- The search in a bitmap block, and a write of one of its bits.
use lemon_core.Base.{
  ℕ, zero, suc, ◌+◌, ◌-◌, ◌*◌, ◌≤◌, ◌<◌, ◌≡◌, refl, ◌∙◌, inl, inr, Bool, true, false, ◌&&◌, Option,
  none, some, [], ◌∷◌, arith, ◌==◌, if◌then◌else◌, Bool-cases, length, set, length-set, get_or,
  get_or-set, All,
}
use lemon_core.EasyFs.Bitmap.{Word, BitmapBlock, has_clear, trailing_ones, find_word, write_bit}

-- A bit of a block.
abbrev pub bit : BitmapBlock → ℕ → ℕ → Bool
bit ws j b = get_or (get_or ws j []) b false

has_clear-false : (w : Word) (b : ℕ) → has_clear w ≡ false → b < length w → get_or w b false ≡ true
unfolding has_clear
has_clear-false [] b h l = absurd (omega arith)
has_clear-false (x ∷ w) zero h l = ground arith
has_clear-false (x ∷ w) (suc b) h l = ground (arith, has_clear-false w b)

trailing_ones-clear :
    (w : Word)
    → has_clear w ≡ true
    → (trailing_ones w < length w) × (get_or w (trailing_ones w) false ≡ false)
unfolding has_clear trailing_ones
trailing_ones-clear [] h = cc
trailing_ones-clear (true ∷ w) h = ground (arith, trailing_ones-clear w h)
trailing_ones-clear (false ∷ w) h = (omega arith, refl)

trailing_ones-le : (w : Word) → trailing_ones w ≤ length w
unfolding trailing_ones
trailing_ones-le [] = omega arith
trailing_ones-le (true ∷ w) = omega (arith, trailing_ones-le w)
trailing_ones-le (false ∷ w) = omega arith

trailing_ones-set : (w : Word) (b : ℕ) → b < trailing_ones w → get_or w b false ≡ true
unfolding trailing_ones
trailing_ones-set [] b h = absurd (omega arith)
trailing_ones-set (true ∷ w) zero h = refl
trailing_ones-set (true ∷ w) (suc b) h = trailing_ones-set w b (omega arith)
trailing_ones-set (false ∷ w) b h = absurd (omega arith)

abbrev pub IsWord : Word → Type 0
IsWord w = length w ≡ 64

-- What the search finds, from index `i` on: nothing when all bits are set, and else the first
-- clear bit.
abbrev pub Finds : ℕ → BitmapBlock → Option (ℕ × ℕ) → Type 0
Finds i ws none = (j b : ℕ) → j < length ws → b < 64 → bit ws j b ≡ true
Finds i ws (some (k, t)) =
    (i ≤ k)
    × (k - i < length ws)
    × (t < 64)
    × (bit ws (k - i) t ≡ false)
    × ((j b : ℕ) → b < 64 → j * 64 + b < (k - i) * 64 + t → bit ws j b ≡ true)

find_later :
    (i : ℕ) (w : Word) (ws : BitmapBlock) (r : Option (ℕ × ℕ))
    → IsWord w
    → has_clear w ≡ false
    → Finds (i + 1) ws r
    → Finds i (w ∷ ws) r
find_later i w ws none l h f = all
  where
    all : (j b : ℕ) → j < length (w ∷ ws) → b < 64 → bit (w ∷ ws) j b ≡ true
    all zero b p q = has_clear-false w b h (omega arith)
    all (suc j) b p q = f j b (omega arith) q
find_later i w ws (some (k, t)) l h (ik, kl, t64, clear, before) =
    let e : k - i ≡ suc (k - (i + 1)) = omega arith in
    (omega arith, omega arith, t64, rw e clear, rw e all)
  where
    all : (j b : ℕ) → b < 64 → j * 64 + b < suc (k - (i + 1)) * 64 + t → bit (w ∷ ws) j b ≡ true
    all zero b p q = has_clear-false w b h (omega arith)
    all (suc j) b p q = before j b p (omega arith)

-- The search finds the first clear bit of the block.
pub find_word-Finds : (i : ℕ) (ws : BitmapBlock) → All IsWord ws → Finds i ws (find_word i ws)
unfolding find_word
find_word-Finds i [] a = λ j b h l. absurd (omega arith)
find_word-Finds i (w ∷ ws) a = elim (Bool-cases (has_clear w)) [
  | inl here ↦ rw here (
      let (l, clear) = trailing_ones-clear w here in
      let e : i - i ≡ 0 = omega arith in
      rw e (omega arith, omega arith, omega (arith, a.0), clear, first))
  | inr full ↦
      rw full (find_later i w ws (find_word (i + 1) ws) a.0 full (find_word-Finds (i + 1) ws a.1))
]
  where
    first : (j b : ℕ) → b < 64 → j * 64 + b < 0 * 64 + trailing_ones w → bit (w ∷ ws) j b ≡ true
    first zero b p q = trailing_ones-set w b (omega arith)
    first (suc j) b p q = absurd (omega (arith, trailing_ones-le w, a.0))

-- A write in range changes the bit written and no other.
pub bit-write_bit :
    (ws : BitmapBlock) (k t j b : ℕ) (v : Bool)
    → k < length ws
    → t < length (get_or ws k [])
    → bit (write_bit ws k t v) j b ≡ (if k == j && t == b then v else bit ws j b)
unfolding write_bit
bit-write_bit ws k t j b v h l = ground (
  arith,
  get_or-set ws k j (set (get_or ws k []) t v) [] h,
  get_or-set (get_or ws k []) t b v false l,
)

All-get_or : (ws : BitmapBlock) (k : ℕ) → All IsWord ws → k < length ws → IsWord (get_or ws k [])
All-get_or [] k a h = absurd (omega arith)
All-get_or (w ∷ ws) zero a h = a.0
All-get_or (w ∷ ws) (suc k) a h = All-get_or ws k a.1 (omega arith)

All-set : (ws : BitmapBlock) (k : ℕ) (w : Word) → All IsWord ws → IsWord w → All IsWord (set ws k w)
All-set [] k w a h = tt
All-set (x ∷ ws) zero w a h = (h, a.1)
All-set (x ∷ ws) (suc k) w a h = (a.0, All-set ws k w a.1 h)

-- The shape of a bitmap block.
pub record IsBlock (ws : BitmapBlock) : Type 0 where
  pub words : length ws ≡ 64
  pub bits : All IsWord ws

pub length-word : {ws : BitmapBlock} (k : ℕ) → IsBlock ws → k < 64 → length (get_or ws k []) ≡ 64
length-word {ws} k v h = All-get_or ws k v.bits (omega (arith, v.words))

pub write_bit-IsBlock :
    {ws : BitmapBlock} (k t : ℕ) (v : Bool) → IsBlock ws → k < 64 → IsBlock (write_bit ws k t v)
unfolding write_bit
write_bit-IsBlock {ws} k t v s h = record {
  words = length-set ws k (set (get_or ws k []) t v) ∙ s.words;
  bits =
      All-set ws k (set (get_or ws k []) t v) s.bits
        (length-set (get_or ws k []) t v ∙ length-word k s h);
}
