-- ===== src/EasyFs/Efs/Inodes.antt =====
-- Where inodes lie, and data blocks that are given out and taken back.
use lemon_core.Base.{
  ℕ, ◌+◌, ◌-◌, ◌*◌, ◌/◌, ◌%◌, ◌≤◌, ◌<◌, ◌≡◌, true, Option, some, arith, leb, replicate,
}
use lemon_core.EasyFs.Bitmap.{maximum}
use lemon_core.EasyFs.Bitmap.Search.{bit_of}
use lemon_core.EasyFs.Efs.{EasyFileSystem, Disk, disk_inode_position, disk_inode_id, dealloc_data}

-- The position of an inode gives its number back, and the inode lies in one block there.
pub disk_inode_id-position :
    (efs : EasyFileSystem) (inode_id : ℕ)
    → let (block_id, offset) = disk_inode_position efs inode_id in
      (disk_inode_id efs block_id offset ≡ some inode_id) × (offset + 128 ≤ 512)
unfolding disk_inode_position disk_inode_id
disk_inode_id-position efs inode_id =
    let after : leb efs.inode_area_start_block (efs.inode_area_start_block + inode_id / 4) ≡ true =
      ground arith in
    let back : (efs.inode_area_start_block + inode_id / 4 - efs.inode_area_start_block) * 4
          + inode_id % 4 * 128 / 128
        ≡ inode_id =
      omega arith in
    (rw (after, back), omega arith)

-- What taking a block back right after it was given out leaves.
TakesBack : EasyFileSystem → Disk → ℕ × Disk → Type 0
TakesBack efs d (block_id, d₁) =
    (d₂ : Disk) × (dealloc_data efs d₁ block_id ≡ some d₂)
    × (efs.data_area_start_block ≤ block_id)
    × (block_id < efs.data_area_start_block + maximum efs.data_bitmap)
    × ((m : ℕ) → bit_of efs.data_bitmap d₂.bits m ≡ bit_of efs.data_bitmap d.bits m)
    × (d₂.data_blocks block_id ≡ replicate 512 0)
