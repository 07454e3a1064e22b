-- ===== src/Kernel/Address/Pages.antt =====
-- Addresses against page numbers, and the walk over a range of pages.
use lemon_core.Base.{
  ℕ, zero, suc, ◌+◌, ◌-◌, ◌*◌, ◌^◌, ◌≤◌, ◌<◌, ◌≡◌, subst, ◌≢◌, ◌↔◌, ◌⊎◌, inl, inr, true, false,
  some, List, [], ◌∷◌, arith, leb, ◌==◌, leb→le, ==_iff, Bool-cases,
}
use lemon_core.Kernel.Address.{
  virt_addr_from, usize_from, page_offset, is_aligned, by_floor, by_ceil, page_from, indexes,
  SimpleRange, new, next, collect, collect_next,
}

-- A virtual address survives the way to a `usize` and back, and the `usize` is canonical: from bit
-- 38 on, all its bits are equal.
pub virt_addr_from-usize_from :
    (addr : ℕ)
    → addr < 2 ^ 39
    → (virt_addr_from (usize_from addr) ≡ addr)
      × ((usize_from addr < 2 ^ 38) ⊎ (2 ^ 64 - 2 ^ 38 ≤ usize_from addr))
      × (usize_from addr < 2 ^ 64)
unfolding virt_addr_from usize_from
virt_addr_from-usize_from addr h = elim (Bool-cases (leb (2 ^ 38) addr)) [
  | inl high ↦
      let h₁ : 2 ^ 38 ≤ addr = leb→le _ _ high in
      rw high (omega arith, inr (omega arith), omega arith)
  | inr low ↦ let h₁ : addr < 2 ^ 38 = ground arith in rw low (omega arith, inl h₁, omega arith)
]

-- The three indexes of a virtual page number are below 512 and are its digits.
pub indexes-digits :
    (vpn : ℕ)
    → vpn < 2 ^ 27
    → let (i, j, k) = indexes vpn in
      (i < 512) × (j < 512) × (k < 512) × ((i * 512 + j) * 512 + k ≡ vpn)
unfolding indexes
indexes-digits vpn h = omega arith

-- The page below an address and the page above it: rounding goes to the nearest page boundary below
-- and above, and an address is converted to its page without a panic exactly if both are the same.
pub by_floor-by_ceil :
    (addr : ℕ)
    → (by_floor addr * 4096 + page_offset addr ≡ addr)
      × (addr ≤ by_ceil addr * 4096)
      × (by_ceil addr * 4096 < addr + 4096)
      × ((page_from addr ≡ some (by_ceil addr)) ↔ (by_floor addr ≡ by_ceil addr))
unfolding by_floor by_ceil page_offset page_from is_aligned
by_floor-by_ceil addr = elim (Bool-cases (addr == 0)) [
  | inl z ↦
      let z₁ : addr ≡ 0 = (==_iff _ _).0 z in
      rw z (omega arith, omega arith, omega arith, ground arith)
  | inr pos ↦
      let p : addr ≢ 0 = λ e. cc ((==_iff _ 0).1 e) in
      rw pos (omega arith, omega (arith, p), omega (arith, p), ground (arith, p))
]

-- The pages from `start` on.
abbrev pub upward : ℕ → ℕ → List ℕ
upward start zero = []
upward start (suc n) = start ∷ upward (start + 1) n

collect-upward :
    (n start : ℕ)
    → collect (suc n) (record { start = start; end = start + n }) ≡ (upward start n, true)
unfolding collect next collect_next
collect-upward zero start =
    let e : start + 0 ≡ start = omega arith in
    let stop : start == start ≡ true = ground arith in rw (e, stop)
collect-upward (suc n) start =
    let e : start + suc n ≡ start + 1 + n = omega arith in
    let more : start == start + 1 + n ≡ false = ground arith in
    rw (e, more, collect-upward n (start + 1))

pub new-upward :
    (start end : ℕ)
    → start ≤ end
    → let r : SimpleRange = record { start = start; end = end } in
      (new start end ≡ some r)
      × (collect (suc (end - start)) r ≡ (upward start (end - start), true))
unfolding new
new-upward start end h =
    let e : start + (end - start) ≡ end = omega arith in
    let ordered : leb start end ≡ true = ground arith in
    (
      rw ordered,
      subst
          (λ k.
            collect (suc (end - start)) (record { start = start; end = k })
            ≡ (upward start (end - start), true))
          e (collect-upward (end - start) start),
    )

-- A loop over the range that `new` makes visits the pages from `start` on, each once and in order,
-- `end - start` of them, and then is over; `new` does not panic if `start` is not above `end`.
pub collect-new :
    (start end : ℕ)
    → start ≤ end
    → (r : SimpleRange) × (new start end ≡ some r)
      × (collect (suc (end - start)) r ≡ (upward start (end - start), true))
collect-new start end h =
    (record { start = start; end = end }, (new-upward start end h).0, (new-upward start end h).1)
