-- ===== src/EasyFs/Bitmap/Bits.antt =====
-- `alloc` and `dealloc` on the bits that a bitmap numbers.
use lemon_core.Base.{
  ℕ, ◌+◌, ◌/◌, ◌%◌, ◌<◌, ◌≡◌, subst, ◌↔◌, true, false, Option, none, some, arith, ◌==◌,
  if◌then◌else◌,
}
use lemon_core.EasyFs.Bitmap.{
  Bitmap, Blocks, update, write_bit, alloc, alloc_from, dealloc, maximum,
}
use lemon_core.EasyFs.Bitmap.Search.{
  bit_of, IsShaped, bit_of-update, update-IsShaped, Allocates, alloc_from-Allocates,
}

-- Bit `n` of a bitmap, where the code looks for it.
-- What `alloc` may do: number the first clear bit of the bitmap and set it alone, or, with every
-- bit set, number nothing and change nothing.
abbrev pub AllocSpec : Bitmap → Blocks → Option ℕ × Blocks → Type 0
AllocSpec bm d (none, d') = (d' ≡ d) × ((m : ℕ) → m < maximum bm → bit_of bm d m ≡ true)
AllocSpec bm d (some n, d') =
    (n < maximum bm)
    × (bit_of bm d n ≡ false)
    × ((m : ℕ) → m < n → bit_of bm d m ≡ true)
    × IsShaped bm d'
    × ((m : ℕ) → bit_of bm d' m ≡ (if n == m then true else bit_of bm d m))

alloc_spec :
    (bm : Bitmap) (d : Blocks) (r : Option ℕ × Blocks)
    → Allocates bm 0 bm.blocks d r
    → AllocSpec bm d r
unfolding maximum
alloc_spec bm d (none, d') (same, full) = (same, λ m h. full m (omega arith) (omega arith))
alloc_spec bm d (some n, d') (l, u, clear, before, s, one) =
    (omega arith, clear, λ m h. before m (omega arith) h, s, one)

-- `alloc` gives the number of the first clear bit of the bitmap and sets that bit alone; it gives
-- nothing exactly when all bits are set, and then changes nothing.
pub alloc-AllocSpec : (bm : Bitmap) (d : Blocks) → IsShaped bm d → AllocSpec bm d (alloc bm d)
unfolding alloc
alloc-AllocSpec bm d s =
    alloc_spec bm d (alloc_from bm bm.blocks 0 d)
      (alloc_from-Allocates bm bm.blocks 0 d s (omega arith))

decompose : (n : ℕ) → n % 4096 % 64 ≡ n % 64
decompose n = omega arith

-- `dealloc` of a set bit of the bitmap clears that bit alone.
dealloc-bit_of :
    (bm : Bitmap) (d : Blocks) (n : ℕ)
    → IsShaped bm d
    → n < maximum bm
    → bit_of bm d n ≡ true
    → (d' : Blocks) × (dealloc bm d n ≡ some d')
      × IsShaped bm d'
      × ((m : ℕ) → bit_of bm d' m ≡ (if n == m then false else bit_of bm d m))
unfolding dealloc maximum bit_of
dealloc-bit_of bm d n s h b =
    let id = bm.start_block_id + n / 4096 in
    (
      update d id (write_bit (d id) (n % 4096 / 64) (n % 64) false),
      rw (decompose, b),
      update-IsShaped bm d n false s,
      λ m. bit_of-update bm d n m false (s (n / 4096) (omega arith)),
    )

-- `dealloc` panics exactly on a bit that is clear: no block is freed twice.
pub dealloc-none :
    (bm : Bitmap) (d : Blocks) (n : ℕ) → (dealloc bm d n ≡ none) ↔ (bit_of bm d n ≡ false)
unfolding dealloc bit_of
dealloc-none bm d n = rw decompose (ground arith)

-- A number that `alloc` gave can be freed at once, and then every bit is as before.
pub dealloc-alloc :
    (bm : Bitmap) (d d' : Blocks) (n : ℕ)
    → IsShaped bm d
    → alloc bm d ≡ (some n, d')
    → (d'' : Blocks) × (dealloc bm d' n ≡ some d'') × ((m : ℕ) → bit_of bm d'' m ≡ bit_of bm d m)
dealloc-alloc bm d d' n s e =
    let (h, clear, _, s', one) = subst (AllocSpec bm d) e (alloc-AllocSpec bm d s) in
    let (d'', run, _, cleared) = dealloc-bit_of bm d' n s' h (ground (arith, one n)) in
    (d'', run, λ m. ground (arith, cleared m, one m))
