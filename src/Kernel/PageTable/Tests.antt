-- ===== src/Kernel/PageTable/Tests.antt =====
-- A page table from its first mapping on.
use lemon_core.Base.{◌+◌, ◌≤◌, bit_or, ◌≡◌, none, some, arith}
use lemon_core.Kernel.Frames.Room.{available}
use lemon_core.Kernel.PageEntry.{new as entry}
use lemon_core.Kernel.PageTable.{v_flag, Space, map, unmap}
use lemon_core.Kernel.PageTable.Tree.{Owner}
use lemon_core.Kernel.PageTable.Changes.{Changes}
use lemon_core.Kernel.PageTable.Mapping.{map-Changes, unmap-Changes}
use lemon_core.Kernel.PageTable.Samples.{blank, root_only, blank-IsTree, blank-page_map}

-- Page 3 mapped to frame 77, readable and writable by the user.
map-Changes_example :
    (s' : Space) × (owner' : Owner) × (map blank 3 77 22 ≡ some s')
    × Changes 4 blank root_only 3 (some (entry 77 (bit_or 22 v_flag))) s' owner'
    × (available blank.frames ≤ available s'.frames + 2)
unfolding available
map-Changes_example =
    map-Changes 4 blank root_only 3 77 22 blank-IsTree (omega arith) (omega arith) (omega arith)
      (blank-page_map 3) (omega arith)

abbrev mapped : Space
mapped = map-Changes_example.0

abbrev owner : Owner
owner = map-Changes_example.1

unmap-Changes_example :
    (s' : Space) × (unmap mapped 3 ≡ some s')
    × Changes 4 mapped owner 3 none s' owner
    × (s'.frames ≡ mapped.frames)
unmap-Changes_example =
    unmap-Changes 4 mapped owner 3 (entry 77 (bit_or 22 v_flag)) map-Changes_example.3.tree
      (omega arith) (map-Changes_example.3.entries 3 (omega arith))
