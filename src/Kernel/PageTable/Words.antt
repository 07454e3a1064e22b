-- ===== src/Kernel/PageTable/Words.antt =====
-- Entries as bytes of memory.
use lemon_core.Base.{
  ℕ, zero, suc, ◌+◌, ◌-◌, ◌*◌, ◌/◌, ◌^◌, ◌<◌, ◌≡◌, refl, sym, ap, ap₂, ◌∙◌, inl, inr, true, false,
  ◌&&◌, arith, ltb, leb, ◌==◌, ==_iff, Bool-cases,
}
use lemon_core.Kernel.Frames.{Memory}
use lemon_core.Kernel.PageEntry.{PageTableEntry, empty, is_valid, flags}
use lemon_core.Kernel.PageTable.{le_value, digit, load, store_entry}

bound : ℕ → ℕ
bound zero = 1
bound (suc n) = 256 * bound n

le_value_ext :
    (n : ℕ) (f g : ℕ → ℕ) (a b : ℕ)
    → ((k : ℕ) → k < n → f (a + k) ≡ g (b + k))
    → le_value n f a ≡ le_value n g b
le_value_ext zero f g a b h = refl
le_value_ext (suc n) f g a b h =
    let first : f a ≡ g b =
      ap f (sym (let z : a + 0 ≡ a = omega arith in z))
      ∙ h 0 (omega arith)
      ∙ ap g (let z : b + 0 ≡ b = omega arith in z) in
    ap₂ (λ x y. x + 256 * y) first
      (le_value_ext n f g (a + 1) (b + 1)
        (λ i l. ap f (omega arith) ∙ h (i + 1) (omega arith) ∙ ap g (omega arith)))

le_value-digit : (n v : ℕ) → v < bound n → le_value n (digit v) 0 ≡ v
unfolding bound
le_value-digit zero v h = omega arith
le_value-digit (suc n) v h =
    let rest : le_value n (digit v) (0 + 1) ≡ v / 256 =
      le_value_ext n (digit v) (digit (v / 256)) (0 + 1) 0 (λ k l.
        ap (digit v) (let e : 0 + 1 + k ≡ suc k = omega arith in e)
        ∙ ap (digit (v / 256)) (let z : k ≡ 0 + k = omega arith in z))
      ∙ le_value-digit n (v / 256) (omega (arith, h)) in
    omega (arith, rest)

-- An entry that fits 64 bits, read where it was written.
pub load-store_entry :
    (m : Memory) (frame i : ℕ) (e : PageTableEntry)
    → e.bits < 2 ^ 64
    → load (store_entry m frame i e) frame i ≡ e
unfolding load store_entry bound
load-store_entry m frame i e h =
    ap (λ b. record { bits = b })
      (le_value_ext 8 (store_entry m frame i e frame) (digit e.bits) (8 * i) 0 (λ k l.
          let same : frame == frame ≡ true = (==_iff _ _).1 refl in
          let low : leb (8 * i) (8 * i + k) ≡ true = ground arith in
          let high : ltb (8 * i + k) (8 * i + 8) ≡ true = ground arith in
          let at : 8 * i + k - 8 * i ≡ 0 + k = omega arith in rw (same, low, high, at) refl)
        ∙ le_value-digit 8 e.bits h)

pub load-store_entry_ne :
    (m : Memory) (frame i frame' i' : ℕ) (e : PageTableEntry)
    → (frame == frame' && i == i') ≡ false
    → load (store_entry m frame i e) frame' i' ≡ load m frame' i'
unfolding load store_entry
load-store_entry_ne m frame i frame' i' e h =
    ap (λ b. record { bits = b })
      (le_value_ext 8 (store_entry m frame i e frame') (m frame') (8 * i') (8 * i') (λ k l.
        elim (Bool-cases (frame == frame')) [
          | inl same ↦
              let out : (leb (8 * i) (8 * i' + k) && ltb (8 * i' + k) (8 * i + 8)) ≡ false =
                ground arith in
              rw (same, out) refl
          | inr other ↦ rw other refl
        ]))

pub load_ext :
    (m m' : Memory) (frame i : ℕ)
    → ((j : ℕ) → m frame j ≡ m' frame j)
    → load m frame i ≡ load m' frame i
unfolding load
load_ext m m' frame i h =
    ap (λ b. record { bits = b }) (le_value_ext 8 (m frame) (m' frame) (8 * i) (8 * i) (λ k l. h _))

le_value-zero : (n : ℕ) (f : ℕ → ℕ) (a : ℕ) → ((j : ℕ) → f j ≡ 0) → le_value n f a ≡ 0
le_value-zero zero f a h = refl
le_value-zero (suc n) f a h = omega (arith, h a, le_value-zero n f (a + 1) h)

-- A frame of zeros has empty entries.
pub load-zero : (m : Memory) (frame i : ℕ) → ((j : ℕ) → m frame j ≡ 0) → load m frame i ≡ empty
unfolding load empty
load-zero m frame i h = ap (λ b. record { bits = b }) (le_value-zero 8 (m frame) (8 * i) h)

pub store_entry_other :
    (m : Memory) (frame i f j : ℕ) (e : PageTableEntry)
    → frame == f ≡ false
    → store_entry m frame i e f j ≡ m f j
unfolding store_entry
store_entry_other m frame i f j e h = rw h refl

pub empty-invalid : is_valid empty ≡ false
unfolding empty is_valid flags
empty-invalid = refl
