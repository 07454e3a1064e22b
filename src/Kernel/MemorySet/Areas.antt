-- ===== src/Kernel/MemorySet/Areas.antt =====
-- Framed areas that come and go.
use lemon_core.Base.{
  ℕ, ◌-◌, ◌*◌, ◌^◌, ◌≤◌, ◌<◌, ◌≡◌, refl, sym, ap, subst, ◌∙◌, inl, inr, true, false, none, some,
  List, [], ◌∷◌, ◌++◌, arith, ◌==◌, ==_iff, Bool-cases, contains, All,
}
use lemon_core.Kernel.Address.{by_floor, by_ceil}
use lemon_core.Kernel.Address.Pages.{upward}
use lemon_core.Kernel.Frames.Ownership.{in_use}
use lemon_core.Kernel.Frames.Room.{available}
use lemon_core.Kernel.PageTable.Tree.{Owner}
use lemon_core.Kernel.PageTable.Changes.{page_map}
use lemon_core.Kernel.MapArea.{MapArea, framed, map, unmap, frame_of, pages_of}
use lemon_core.Kernel.MapArea.Backing.{IsBacked}
use lemon_core.Kernel.MapArea.Spans.{pages_of-new, upward-Distinct, upward-small, length-upward}
use lemon_core.Kernel.MapArea.Pushed.{HasPages, for_each-HasPages}
use lemon_core.Kernel.MapArea.Dropped.{for_each-LacksPages}
use lemon_core.Kernel.MemorySet.{
  MemorySet, push, insert_framed_area, remove_area_with_start_vpn, find_area,
}

-- The pages between two addresses.
abbrev pub span : ℕ → ℕ → List ℕ
span start_va end_va = upward (by_floor start_va) (by_ceil end_va - by_floor start_va)

-- An area of a set, as the set holds it.
pub record IsArea (area : MapArea) (start_va end_va perm : ℕ) : Type 0 where
  pub type : area.map_type ≡ framed
  pub perm_kept : area.map_perm ≡ perm
  pub first : area.vpn_range.start ≡ by_floor start_va
  pub pages : pages_of area.vpn_range ≡ some (span start_va end_va)

-- What a framed area is put into.
pub record CanInsert (start : ℕ) (set : MemorySet) (start_va end_va perm : ℕ) : Type 0 where
  pub ordered : by_floor start_va ≤ by_ceil end_va
  pub small : by_ceil end_va ≤ 2 ^ 27
  pub byte : perm < 2 ^ 8
  pub free : (v : ℕ) → contains v (span start_va end_va) ≡ true → page_map set.space v ≡ none
  pub room : 3 * (by_ceil end_va - by_floor start_va) ≤ available set.space.frames

-- `insert_framed_area` into a valid address space, at pages without an entry and with three frames
-- left for each: every page of the area is mapped with the permission to a zeroed frame of
-- its own that was not in use, no other page changes, no other frame in use is touched, and the
-- address space stays valid.
pub insert_framed_area-HasPages :
    (start : ℕ) (set : MemorySet) (owner : Owner) (start_va end_va perm : ℕ)
    → IsBacked start set.space owner
    → CanInsert start set start_va end_va perm
    → (set' : MemorySet) × (area : MapArea) × (owner' : Owner) × (insert_framed_area set start_va
          end_va perm
        ≡ some set')
      × HasPages start set.space owner perm (span start_va end_va) set'.space owner'
      × IsArea area start_va end_va perm
      × (set'.areas ≡ set.areas ++ (area ∷ []))
unfolding insert_framed_area push map
insert_framed_area-HasPages start set owner start_va end_va perm b c =
    let n : ℕ = by_ceil end_va - by_floor start_va in
    let (area, made, type, kept, first, pages) =
      pages_of-new start_va end_va framed perm c.ordered in
    let (s', owner', done, h) =
      for_each-HasPages start set.space owner area (span start_va end_va) b type
        (subst (λ p. p < 2 ^ 8) (sym kept) c.byte) (upward-Distinct (by_floor start_va) n)
        (upward-small (by_floor start_va) n (2 ^ 27) (omega (arith, c.ordered, c.small))) c.free
        (omega (arith, length-upward (by_floor start_va) n, c.room)) in
    (
      record { space = s'; areas = set.areas ++ (area ∷ []) },
      area,
      owner',
      rw (made, pages, done) refl,
      subst (λ p. HasPages start set.space owner p (span start_va end_va) s' owner') kept h,
      record { type = type; perm_kept = kept; first = first; pages = pages },
      refl,
    )

find_area-last :
    (page : ℕ) (areas : List MapArea) (area : MapArea)
    → All (λ a. a.vpn_range.start == page ≡ false) areas
    → area.vpn_range.start ≡ page
    → find_area page (areas ++ (area ∷ [])) ≡ some (area, areas)
find_area-last page [] area h e = rw ((==_iff area.vpn_range.start page).1 e) refl
find_area-last page (a ∷ areas) area h e = rw (h.0, find_area-last page areas area h.1 e) refl

-- `remove_area_with_start_vpn` after `insert_framed_area`, where no earlier area starts at the same
-- page: both succeed, every page has the entry that it had before both, the areas are those
-- from before, the frames behind the area are free again, and the address space is valid.
pub remove_area_with_start_vpn-insert_framed_area :
    (start : ℕ) (set : MemorySet) (owner : Owner) (start_va end_va perm : ℕ)
    → IsBacked start set.space owner
    → CanInsert start set start_va end_va perm
    → All (λ a. a.vpn_range.start == by_floor start_va ≡ false) set.areas
    → (set' : MemorySet) × (set'' : MemorySet) × (owner' : Owner) × (insert_framed_area set start_va
          end_va perm
        ≡ some set')
      × (remove_area_with_start_vpn set' (by_floor start_va) ≡ some set'')
      × ((v : ℕ) → v < 2 ^ 27 → page_map set''.space v ≡ page_map set.space v)
      × (set''.areas ≡ set.areas)
      × ((v frame : ℕ)
          → contains v (span start_va end_va) ≡ true
          → frame_of v set'.space.table.data_frames ≡ some frame
          → in_use start set''.space.frames frame ≡ false)
      × IsBacked start set''.space owner'
unfolding remove_area_with_start_vpn unmap
remove_area_with_start_vpn-insert_framed_area start set owner start_va end_va perm b c apart =
    let n : ℕ = by_ceil end_va - by_floor start_va in
    let (set', area, owner', done, h, is_area, areas) =
      insert_framed_area-HasPages start set owner start_va end_va perm b c in
    let (s'', gone, l) =
      for_each-LacksPages start set'.space owner' area (span start_va end_va) h.backing is_area.type
        (upward-Distinct (by_floor start_va) n) (λ v q. ((h.inside v q).0, (h.inside v q).1)) in
    let found : find_area (by_floor start_va) set'.areas ≡ some (area, set.areas) =
      ap (find_area (by_floor start_va)) areas
      ∙ find_area-last (by_floor start_va) set.areas area apart is_area.first in
    (
      set',
      record { space = s''; areas = set.areas },
      owner',
      done,
      rw (found, is_area.pages, gone) refl,
      λ v low. l.entries v low ∙ elim (Bool-cases (contains v (span start_va end_va))) [
        | inl q ↦ rw q (sym (c.free v q))
        | inr q ↦ rw q ((h.beyond v q).1 low)
      ],
      refl,
      l.given_back,
      l.backing,
    )
