-- ===== src/Kernel/MemorySet/Tests.antt =====
-- A user stack in an empty address space, put there and taken out.
use lemon_core.Base.{ℕ, ◌^◌, ◌<◌, ◌≡◌, true, false, some, [], ◌∷◌, arith, contains}
use lemon_core.Kernel.Address.{by_floor, by_ceil}
use lemon_core.Kernel.Frames.Ownership.{in_use}
use lemon_core.Kernel.Frames.Room.{available}
use lemon_core.Kernel.PageTable.Tree.{Owner}
use lemon_core.Kernel.PageTable.Changes.{page_map}
use lemon_core.Kernel.PageTable.Samples.{blank, root_only, blank-IsTree, blank-page_map}
use lemon_core.Kernel.MapArea.{MapArea, frame_of}
use lemon_core.Kernel.MapArea.Backing.{IsBacked}
use lemon_core.Kernel.MapArea.Pushed.{HasPages}
use lemon_core.Kernel.MemorySet.{MemorySet, insert_framed_area, remove_area_with_start_vpn}
use lemon_core.Kernel.MemorySet.Areas.{
  span, IsArea, CanInsert, insert_framed_area-HasPages,
  remove_area_with_start_vpn-insert_framed_area,
}

abbrev bare : MemorySet
bare = record { space = blank; areas = [] }

bare-IsBacked : IsBacked 4 bare.space root_only
bare-IsBacked = record {
  tree = blank-IsTree;
  backed = λ v f k. cc;
  apart = λ v w f k l. cc;
  mapped = λ v f k. cc;
}

bare-CanInsert : CanInsert 4 bare 8192 16384 22
unfolding available by_floor by_ceil
bare-CanInsert = record {
  ordered = omega arith;
  small = omega arith;
  byte = omega arith;
  free = λ v c. blank-page_map v;
  room = omega arith;
}

insert_framed_area-HasPages_example :
    (set' : MemorySet) × (area : MapArea) × (owner' : Owner) × (insert_framed_area bare 8192 16384
        22
      ≡ some set')
    × HasPages 4 bare.space root_only 22 (span 8192 16384) set'.space owner'
    × IsArea area 8192 16384 22
    × (set'.areas ≡ area ∷ [])
insert_framed_area-HasPages_example =
    insert_framed_area-HasPages 4 bare root_only 8192 16384 22 bare-IsBacked bare-CanInsert

remove_area_with_start_vpn-insert_framed_area_example :
    (set' : MemorySet) × (set'' : MemorySet) × (owner' : Owner) × (insert_framed_area bare 8192
        16384 22
      ≡ some set')
    × (remove_area_with_start_vpn set' (by_floor 8192) ≡ some set'')
    × ((v : ℕ) → v < 2 ^ 27 → page_map set''.space v ≡ page_map bare.space v)
    × (set''.areas ≡ [])
    × ((v frame : ℕ)
        → contains v (span 8192 16384) ≡ true
        → frame_of v set'.space.table.data_frames ≡ some frame
        → in_use 4 set''.space.frames frame ≡ false)
    × IsBacked 4 set''.space owner'
remove_area_with_start_vpn-insert_framed_area_example =
    remove_area_with_start_vpn-insert_framed_area 4 bare root_only 8192 16384 22 bare-IsBacked
      bare-CanInsert tt
