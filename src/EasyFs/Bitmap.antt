-- ===== src/EasyFs/Bitmap.antt =====
-- easy-fs/src/bitmap.rs: the bitmap that hands out inode and data block numbers.
use lemon_core.Base.{
  ℕ, zero, suc, ◌+◌, ◌*◌, ◌/◌, ◌%◌, Bool, true, false, not, ◌||◌, Option, none, some, List, [], ◌∷◌,
  ◌==◌, if◌then◌else◌, set, get_or, ◌>>◌, assert,
}
use lemon_core.EasyFs.Config.{block_bits}
pub mod Words
pub mod Search
pub mod Bits
mod Tests

-- A `u64` as its 64 bits, the lowest first; a bitmap block as its 64 words.
abbrev pub Word : Type 0
Word = List Bool

abbrev pub BitmapBlock : Type 0
BitmapBlock = List Word

-- What the device holds, block by block, seen through the block cache.
abbrev pub Blocks : Type 0
Blocks = ℕ → BitmapBlock

pub record Bitmap : Type 0 where
  pub start_block_id : ℕ
  pub blocks : ℕ

unfoldable pub new : ℕ → ℕ → Bitmap
new start_block_id blocks = record { start_block_id = start_block_id; blocks = blocks }

-- `bit64 != u64::MAX`: a bit is clear.
unfoldable pub has_clear : Word → Bool
has_clear [] = false
has_clear (b ∷ bs) = not b || has_clear bs

unfoldable pub trailing_ones : Word → ℕ
trailing_ones [] = 0
trailing_ones (true ∷ bs) = suc (trailing_ones bs)
trailing_ones (false ∷ bs) = 0

-- `iter().enumerate().find(..)`, from index `i` on: the first word with a clear bit, as its index
-- and its number of trailing ones.
unfoldable pub find_word : ℕ → BitmapBlock → Option (ℕ × ℕ)
find_word i [] = none
find_word i (w ∷ ws) =
    let rest = find_word (i + 1) ws in if has_clear w then some (i, trailing_ones w) else rest

-- `block[bits64_id] |= 1 << inner_id` and `block[bits64_id] &= !(1 << inner_id)`.
unfoldable pub write_bit : BitmapBlock → ℕ → ℕ → Bool → BitmapBlock
write_bit block bits64_id inner_id b =
    set block bits64_id (set (get_or block bits64_id []) inner_id b)

-- Writes one block of the device.
abbrev pub update : Blocks → ℕ → BitmapBlock → Blocks
update d id block j = if id == j then block else d j

-- The closure of `alloc` on what `find` gives, and the return or the next round after it.
alloc_in : Bitmap → ℕ → Blocks → Option (ℕ × ℕ) → Option ℕ × Blocks → Option ℕ × Blocks
alloc_in bm block_id d none rest = rest
alloc_in bm block_id d (some (bits64_id, inner_id)) rest =
    let id = bm.start_block_id + block_id in
    (
      some (block_id * block_bits + bits64_id * 64 + inner_id),
      update d id (write_bit (d id) bits64_id inner_id true),
    )

-- The loop of `alloc`, with `rounds` blocks left from `block_id` on.
pub alloc_from : Bitmap → ℕ → ℕ → Blocks → Option ℕ × Blocks
unfolding alloc_in find_word write_bit
alloc_from bm zero block_id d = (none, d)
alloc_from bm (suc rounds) block_id d =
    let rest = alloc_from bm rounds (block_id + 1) d in
    alloc_in bm block_id d (find_word 0 (d (bm.start_block_id + block_id))) rest

unfoldable pub alloc : Bitmap → Blocks → Option ℕ × Blocks
unfolding alloc_from
alloc bm d = alloc_from bm bm.blocks 0 d

-- A bit as `(block_id, bits64_id, inner_id)`.
pub decomposition : ℕ → ℕ × ℕ × ℕ
decomposition bit =
    let bit_in_block = bit % block_bits in (bit / block_bits, bit_in_block / 64, bit_in_block % 64)

-- `dealloc`; `none` is its failed assertion.
pub dealloc : Bitmap → Blocks → ℕ → Option Blocks
unfolding decomposition
dealloc bm d bit = do
  let (block_id, bits64_id, inner_id) = decomposition bit
  let id = bm.start_block_id + block_id
  assert (get_or (get_or (d id) bits64_id []) inner_id false)
  some (update d id (write_bit (d id) bits64_id inner_id false))

unfoldable pub maximum : Bitmap → ℕ
maximum bm = bm.blocks * block_bits
