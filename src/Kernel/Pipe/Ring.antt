-- ===== src/Kernel/Pipe/Ring.antt =====
-- The ring buffer of a pipe as the queue of the bytes that it holds.
use lemon_core.Base.{
  ℕ, zero, suc, ◌+◌, ◌%◌, ◌≤◌, ◌<◌, ◌≡◌, ◌≢◌, refl, ap, ap₂, sym, ◌∙◌, some, List, [], ◌∷◌, ◌++◌,
  arith, length, get_or, set, length-set, get_or-set_self, get_or-set_ne, get_elem?-eq-get_or,
  store-eq-some, if◌then◌else◌, ◌==◌,
}
use lemon_core.Kernel.Pipe.{
  set_write_end, PipeRingBuffer, RingBufferStatus, full, empty, normal, new, write_byte, read_byte,
  available_to_read, available_to_write,
}

-- The positions agree with the status.
abbrev Agrees : RingBufferStatus → ℕ → ℕ → Type 0
Agrees normal head tail = head ≢ tail
Agrees _ head tail = head ≡ tail

pub record IsValid (r : PipeRingBuffer) : Type 0 where
  pub storage : length r.arr ≡ 32
  pub head_in : r.head < 32
  pub tail_in : r.tail < 32
  pub agrees : Agrees r.status r.head r.tail

-- The `n` bytes from position `h` on, going round.
abbrev pub span : List ℕ → ℕ → ℕ → List ℕ
span arr h zero = []
span arr h (suc n) = get_or arr h 0 ∷ span arr ((h + 1) % 32) n

pub contents : PipeRingBuffer → List ℕ
contents r = span r.arr r.head (available_to_read r)

length-span : (arr : List ℕ) (h n : ℕ) → length (span arr h n) ≡ n
length-span arr h zero = refl
length-span arr h (suc n) = ap suc (length-span arr ((h + 1) % 32) n)

pub length-contents : (r : PipeRingBuffer) → length (contents r) ≡ available_to_read r
unfolding contents
length-contents r = length-span r.arr r.head (available_to_read r)

shift_mod : (h n : ℕ) → ((h + 1) % 32 + n) % 32 ≡ (h + suc n) % 32
shift_mod h n = omega arith

-- A write just past a span extends it by the byte written.
span-set :
    (arr : List ℕ) (x n h : ℕ)
    → length arr ≡ 32
    → h < 32
    → n < 32
    → span (set arr ((h + n) % 32) x) h (suc n) ≡ span arr h n ++ (x ∷ [])
span-set arr x zero h l hh hn =
    let e : (h + 0) % 32 ≡ h = omega arith in
    ap (λ y. y ∷ [])
      (ap (λ i. get_or (set arr i x) h 0) e ∙ get_or-set_self arr h x 0 (omega arith))
span-set arr x (suc n) h l hh hn = ap₂ ◌∷◌ (get_or-set_ne arr x 0 (omega arith)) (
    ap (λ i. span (set arr i x) ((h + 1) % 32) (suc n)) (sym (shift_mod h n))
    ∙ span-set arr x n ((h + 1) % 32) l (omega arith) (omega arith))

-- The available bytes lie between head and tail.
pub tail-available :
    {r : PipeRingBuffer}
    → IsValid r
    → (available_to_read r ≤ 32) × ((r.head + available_to_read r) % 32 ≡ r.tail)
unfolding available_to_read
tail-available v = ground arith

pub available_sum :
    {r : PipeRingBuffer} → IsValid r → available_to_read r + available_to_write r ≡ 32
unfolding available_to_read available_to_write
available_sum v = ground arith

abbrev pub written : PipeRingBuffer → ℕ → PipeRingBuffer
written r x = record r {
  arr = set r.arr r.tail x;
  tail = (r.tail + 1) % 32;
  status = if (r.tail + 1) % 32 == r.head then full else normal;
}

write_byte-eq-some : {r : PipeRingBuffer} (x : ℕ) → IsValid r → write_byte r x ≡ some (written r x)
unfolding write_byte
write_byte-eq-some {r} x v = ground (arith, store-eq-some r.arr r.tail x)

written-IsValid : {r : PipeRingBuffer} (x : ℕ) → IsValid r → IsValid (written r x)
written-IsValid {r} x v = ground (arith, length-set r.arr r.tail x)

available-written :
    {r : PipeRingBuffer} (x : ℕ)
    → IsValid r
    → available_to_read r < 32
    → available_to_read (written r x) ≡ suc (available_to_read r)
unfolding available_to_read
available-written x v h = ground arith

-- A new pipe's ring is valid and holds nothing.
pub new-IsValid : IsValid new × (contents new ≡ [])
unfolding new contents available_to_read
new-IsValid = (omega arith, refl)

-- A write into a valid ring that is not full succeeds, keeps the ring valid, and puts the byte
-- behind the bytes that the ring holds.
pub write_byte-contents :
    {r : PipeRingBuffer} (x : ℕ)
    → IsValid r
    → available_to_write r ≢ 0
    → (r' : PipeRingBuffer) × (write_byte r x ≡ some r')
      × IsValid r'
      × (contents r' ≡ contents r ++ (x ∷ []))
      × (r'.write_end ≡ r.write_end)
unfolding contents
write_byte-contents {r} x v h =
    let sum = available_sum v in
    let room : available_to_read r < 32 = omega (arith, sum) in
    (
      written r x,
      write_byte-eq-some x v,
      written-IsValid x v,
      ap (span (set r.arr r.tail x) r.head) (available-written x v room)
          ∙ ap (λ i. span (set r.arr i x) r.head (suc (available_to_read r)))
              (sym (tail-available v).1)
          ∙ span-set r.arr x (available_to_read r) r.head v.storage v.head_in room,
      refl,
    )

abbrev pub advanced : PipeRingBuffer → PipeRingBuffer
advanced r = record r {
  head = (r.head + 1) % 32;
  status = if (r.head + 1) % 32 == r.tail then empty else normal;
}

available-advanced :
    {r : PipeRingBuffer}
    → IsValid r
    → available_to_read r ≢ 0
    → available_to_read r ≡ suc (available_to_read (advanced r))
unfolding available_to_read
available-advanced v h = ground arith

-- A read from a valid ring that is not empty succeeds, keeps the ring valid, and takes the oldest
-- of the bytes that the ring holds.
pub read_byte-contents :
    {r : PipeRingBuffer}
    → IsValid r
    → available_to_read r ≢ 0
    → (c : ℕ) × (r' : PipeRingBuffer) × (read_byte r ≡ some (c, r'))
      × IsValid r'
      × (contents r ≡ c ∷ contents r')
      × (r'.write_end ≡ r.write_end)
unfolding contents read_byte
read_byte-contents {r} v h = (
  get_or r.arr r.head 0,
  advanced r,
  ground (arith, get_elem?-eq-get_or r.arr r.head 0),
  ground arith,
  ap (span r.arr r.head) (available-advanced v h),
  refl,
)

-- Naming the write end does not touch the bytes.
pub set_write_end-contents :
    {r : PipeRingBuffer} (pipe : ℕ)
    → IsValid r
    → IsValid (set_write_end r pipe) × (contents (set_write_end r pipe) ≡ contents r)
unfolding set_write_end contents available_to_read
set_write_end-contents pipe v = (ground arith, refl)
