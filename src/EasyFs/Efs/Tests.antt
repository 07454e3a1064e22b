-- ===== src/EasyFs/Efs/Tests.antt =====
-- A file system on concrete inputs.
use lemon_core.Base.{true, false, [], replicate, ◌+◌, ◌≤◌, ◌≡◌, some, arith}
use lemon_core.EasyFs.Bitmap.{write_bit, update, BitmapBlock, maximum}
use lemon_core.EasyFs.Efs.{Disk, EasyFileSystem, plan, open_efs}
use lemon_core.EasyFs.Efs.Regions.{open_efs-plan}

-- A device of 4096 blocks with one block of inode bits.
abbrev small : EasyFileSystem
small = record {
  inode_bitmap = record { start_block_id = 1; blocks = 1 };
  data_bitmap = record { start_block_id = 1026; blocks = 1 };
  inode_area_start_block = 2;
  data_area_start_block = 1027;
}

open_efs-plan_example :
    let (efs, s) = plan 4096 1 in
    (open_efs s ≡ some efs)
    × (efs.data_area_start_block + s.data_area_blocks ≡ 4096)
    × (efs.inode_area_start_block + s.inode_area_blocks ≡ efs.data_bitmap.start_block_id)
    × (s.data_area_blocks ≤ maximum efs.data_bitmap)
open_efs-plan_example = open_efs-plan 4096 1 (omega arith) (omega arith)

abbrev clear : BitmapBlock
clear = replicate 64 (replicate 64 false)

abbrev blank : Disk
blank = record { bits = λ j. clear; data_blocks = λ j. [] }

abbrev given : Disk
given = record blank { bits = update blank.bits 1026 (write_bit clear 0 0 true) }
