-- ===== src/Kernel/MapArea/Spans.antt =====
-- The pages of a range.
use lemon_core.Base.{
  ℕ, zero, suc, ◌+◌, ◌-◌, ◌≤◌, ◌<◌, ◌≡◌, refl, ap, ◌∙◌, ◌&&◌, some, arith, ltb, leb, length,
  contains, All, Distinct,
}
use lemon_core.Kernel.Address.{SimpleRange, by_floor, by_ceil}
use lemon_core.Kernel.Address.Pages.{upward, new-upward}
use lemon_core.Kernel.MapArea.{MapArea, MapType, new, pages_of}

pub contains-upward :
    (v start n : ℕ) → contains v (upward start n) ≡ (leb start v && ltb v (start + n))
contains-upward v start zero = ground arith
contains-upward v start (suc n) =
    let e : start + suc n ≡ start + 1 + n = omega arith in
    rw (e, contains-upward v (start + 1) n) (ground arith)

pub upward-Distinct : (start n : ℕ) → Distinct (upward start n)
upward-Distinct start zero = tt
upward-Distinct start (suc n) =
    (contains-upward start (start + 1) n ∙ ground arith, upward-Distinct (start + 1) n)

pub length-upward : (start n : ℕ) → length (upward start n) ≡ n
length-upward start zero = refl
length-upward start (suc n) = ap suc (length-upward (start + 1) n)

pub upward-small : (start n top : ℕ) → start + n ≤ top → All (λ v. v < top) (upward start n)
upward-small start zero top h = tt
upward-small start (suc n) top h =
    (omega (arith, h), upward-small (start + 1) n top (omega (arith, h)))

-- An area between two addresses in order, and the pages that a loop over it visits.
pub pages_of-new :
    (start_va end_va : ℕ) (type : MapType) (perm : ℕ)
    → by_floor start_va ≤ by_ceil end_va
    → (area : MapArea) × (new start_va end_va type perm ≡ some area)
      × (area.map_type ≡ type)
      × (area.map_perm ≡ perm)
      × (area.vpn_range.start ≡ by_floor start_va)
      × (pages_of area.vpn_range
          ≡ some (upward (by_floor start_va) (by_ceil end_va - by_floor start_va)))
unfolding new pages_of
pages_of-new start_va end_va type perm h =
    let (made, visited) = new-upward (by_floor start_va) (by_ceil end_va) h in
    let range : SimpleRange = record { start = by_floor start_va; end = by_ceil end_va } in
    (
      record { vpn_range = range; map_type = type; map_perm = perm },
      rw made refl,
      refl,
      refl,
      refl,
      rw visited refl,
    )
