-- ===== src/EasyFs/Bitmap/Search.antt =====
-- The bits of a bitmap, and the search for a clear one.
use lemon_core.Base.{
  ℕ, zero, suc, ◌+◌, ◌-◌, ◌*◌, ◌/◌, ◌%◌, ◌≤◌, ◌<◌, ◌≡◌, refl, ◌∙◌, inl, inr, Bool, true, false,
  Option, none, some, arith, dec_lt, ◌==◌, if◌then◌else◌, Bool-cases,
}
use lemon_core.EasyFs.Bitmap.{
  block_bits, Bitmap, Blocks, update, find_word, write_bit, alloc_from, alloc_in,
}
use lemon_core.EasyFs.Bitmap.Words.{
  bit, Finds, find_word-Finds, bit-write_bit, IsBlock, length-word, write_bit-IsBlock,
}

unfoldable pub bit_of : Bitmap → Blocks → ℕ → Bool
bit_of bm d n = bit (d (bm.start_block_id + n / 4096)) (n % 4096 / 64) (n % 64)

-- Each block of the bitmap is 64 words of 64 bits.
abbrev pub IsShaped : Bitmap → Blocks → Type 0
IsShaped bm d = (k : ℕ) → k < bm.blocks → IsBlock (d (bm.start_block_id + k))

-- A write of bit `n` writes that bit alone.
pub bit_of-update :
    (bm : Bitmap) (d : Blocks) (n m : ℕ) (v : Bool)
    → IsBlock (d (bm.start_block_id + n / 4096))
    → let id = bm.start_block_id + n / 4096 in
      bit_of bm (update d id (write_bit (d id) (n % 4096 / 64) (n % 64) v)) m
      ≡ (if n == m then v else bit_of bm d m)
unfolding bit_of
bit_of-update bm d n m v s = ground (
  arith,
  bit-write_bit (d (bm.start_block_id + n / 4096)) (n % 4096 / 64) (n % 64) (m % 4096 / 64) (m % 64)
      v (omega (arith, s.words)) (omega (arith, length-word (n % 4096 / 64) s (omega arith))),
)

pub update-IsShaped :
    (bm : Bitmap) (d : Blocks) (n : ℕ) (v : Bool)
    → IsShaped bm d
    → let id = bm.start_block_id + n / 4096 in
      IsShaped bm (update d id (write_bit (d id) (n % 4096 / 64) (n % 64) v))
update-IsShaped bm d n v s k h =
    elim (Bool-cases (bm.start_block_id + n / 4096 == bm.start_block_id + k)) [
      | inl e ↦
          rw e (
            write_bit-IsBlock (n % 4096 / 64) (n % 64) v (s (n / 4096) (ground arith))
              (omega arith))
      | inr e ↦ rw e (s k h)
    ]

-- What the search from block `block_id` on may give, with `rounds` blocks left.
abbrev pub Allocates : Bitmap → ℕ → ℕ → Blocks → Option ℕ × Blocks → Type 0
Allocates bm block_id rounds d (none, d') =
    (d' ≡ d)
    × ((m : ℕ) → block_id * 4096 ≤ m → m < (block_id + rounds) * 4096 → bit_of bm d m ≡ true)
Allocates bm block_id rounds d (some n, d') =
    (block_id * 4096 ≤ n)
    × (n < (block_id + rounds) * 4096)
    × (bit_of bm d n ≡ false)
    × ((m : ℕ) → block_id * 4096 ≤ m → m < n → bit_of bm d m ≡ true)
    × IsShaped bm d'
    × ((m : ℕ) → bit_of bm d' m ≡ (if n == m then true else bit_of bm d m))

-- The block's bits, by their numbers.
in_block :
    (bm : Bitmap) (d : Blocks) (block_id m : ℕ)
    → block_id * 4096 ≤ m
    → m < block_id * 4096 + 4096
    → bit_of bm d m
      ≡ bit
          (d (bm.start_block_id + block_id))
          ((m - block_id * 4096) / 64)
          ((m - block_id * 4096) % 64)
unfolding bit_of
in_block bm d block_id m l h =
    let e : m / 4096 ≡ block_id = omega arith in
    let e' : m % 4096 / 64 ≡ (m - block_id * 4096) / 64 = omega arith in
    let e'' : m % 64 ≡ (m - block_id * 4096) % 64 = omega arith in rw (e, e', e'')

full_block :
    (bm : Bitmap) (d : Blocks) (block_id m : ℕ)
    → IsBlock (d (bm.start_block_id + block_id))
    → Finds 0 (d (bm.start_block_id + block_id)) none
    → block_id * 4096 ≤ m
    → m < block_id * 4096 + 4096
    → bit_of bm d m ≡ true
full_block bm d block_id m s f l h =
    in_block bm d block_id m l h
    ∙ f ((m - block_id * 4096) / 64) ((m - block_id * 4096) % 64) (omega (arith, s.words))
        (omega arith)

-- Where the code numbers a bit, it finds it again.
numbered :
    (block_id k t : ℕ)
    → k < 64
    → t < 64
    → let n = block_id * block_bits + k * 64 + t in
      (n / 4096 ≡ block_id) × (n % 4096 / 64 ≡ k) × (n % 64 ≡ t)
numbered block_id k t h l = omega arith

alloc_found :
    (bm : Bitmap) (rounds block_id k t : ℕ) (d : Blocks) (rest : Option ℕ × Blocks)
    → IsShaped bm d
    → block_id < bm.blocks
    → Finds 0 (d (bm.start_block_id + block_id)) (some (k, t))
    → Allocates bm block_id (suc rounds) d (alloc_in bm block_id d (some (k, t)) rest)
unfolding alloc_in bit_of
alloc_found bm rounds block_id k t d rest s h (_, kl, t64, clear, before) =
    let block = s block_id h in
    let k64 : k < 64 = omega (arith, block.words) in
    let n : ℕ = block_id * block_bits + k * 64 + t in
    let e = numbered block_id k t k64 t64 in
    let same : k - 0 ≡ k = omega arith in
    (
      omega arith,
      omega arith,
      rw (bit_of, e.0, e.1, e.2) (rw same at clear),
      λ m l u.
          in_block bm d block_id m l (omega arith)
          ∙ before ((m - block_id * 4096) / 64) ((m - block_id * 4096) % 64) (omega arith)
              (omega arith),
      rw (e.0, e.1, e.2) at (update-IsShaped bm d n true s),
      λ m. rw (e.0, e.1, e.2) at (bit_of-update bm d n m true (rw e.0 block)),
    )

alloc_in-Allocates :
    (bm : Bitmap) (rounds block_id : ℕ) (d : Blocks) (o : Option (ℕ × ℕ)) (rest : Option ℕ × Blocks)
    → IsShaped bm d
    → block_id < bm.blocks
    → Finds 0 (d (bm.start_block_id + block_id)) o
    → Allocates bm (block_id + 1) rounds d rest
    → Allocates bm block_id (suc rounds) d (alloc_in bm block_id d o rest)
unfolding alloc_in
alloc_in-Allocates bm rounds block_id d none (none, d') s h f (same, after) = (
  same,
  λ m l u. elim (dec_lt m ((block_id + 1) * 4096)) [
    | yes p ↦ full_block bm d block_id m (s block_id h) f l (omega arith)
    | no p ↦ after m (omega arith) (omega arith)
  ],
)
alloc_in-Allocates bm rounds block_id d none (some n, d') s h f (l, u, clear, before, s', one) = (
  omega arith,
  omega arith,
  clear,
  λ m l' u'. elim (dec_lt m ((block_id + 1) * 4096)) [
    | yes p ↦ full_block bm d block_id m (s block_id h) f l' (omega arith)
    | no p ↦ before m (omega arith) u'
  ],
  s',
  one,
)
alloc_in-Allocates bm rounds block_id d (some (k, t)) rest s h f after =
    alloc_found bm rounds block_id k t d rest s h f

pub alloc_from-Allocates :
    (bm : Bitmap) (rounds block_id : ℕ) (d : Blocks)
    → IsShaped bm d
    → block_id + rounds ≤ bm.blocks
    → Allocates bm block_id rounds d (alloc_from bm rounds block_id d)
unfolding alloc_from
alloc_from-Allocates bm zero block_id d s h = (refl, λ m l u. absurd (omega arith))
alloc_from-Allocates bm (suc rounds) block_id d s h =
    let low : block_id < bm.blocks = omega arith in
    alloc_in-Allocates bm rounds block_id d (find_word 0 (d (bm.start_block_id + block_id)))
      (alloc_from bm rounds (block_id + 1) d) s low (find_word-Finds 0 _ (s block_id low).bits)
      (alloc_from-Allocates bm rounds (block_id + 1) d s (omega arith))
