-- ===== src/EasyFs/Layout.antt =====
-- easy-fs/src/layout.rs: the super block, the disk inode, and how many blocks an inode of a size
-- takes. The modules below: the trees of indirect blocks, and the inode that grows and shrinks.
use lemon_core.Base.{
  ℕ, ◌+◌, ◌-◌, ◌/◌, ◌%◌, ◌^◌, min, Bool, true, false, not, Option, some, List, ltb, leb, ◌==◌,
  if◌then◌else◌, replicate, ◌>>◌, assert,
}
use lemon_core.EasyFs.Config.{
  block_size, efs_magic, direct_count, direct_bound, indirect1_bound, indirect2_bound,
  indirect1_count, indirect2_count,
}
pub mod Tree
pub mod Resize
pub mod Entry
pub mod Data
mod Tests

pub record SuperBlock : Type 0 where
  pub magic : ℕ
  pub total_blocks : ℕ
  pub inode_bitmap_blocks : ℕ
  pub inode_area_blocks : ℕ
  pub data_bitmap_blocks : ℕ
  pub data_area_blocks : ℕ

unfoldable pub super_block : ℕ → ℕ → ℕ → ℕ → ℕ → SuperBlock
super_block total inode_bitmap inode_area data_bitmap data_area = record {
  magic = efs_magic;
  total_blocks = total;
  inode_bitmap_blocks = inode_bitmap;
  inode_area_blocks = inode_area;
  data_bitmap_blocks = data_bitmap;
  data_area_blocks = data_area;
}

unfoldable pub is_valid : SuperBlock → Bool
is_valid s = s.magic == efs_magic

pub data DiskInodeKind : Type 0 where
  file directory : DiskInodeKind

pub record DiskInode : Type 0 where
  pub kind : DiskInodeKind
  pub size : ℕ
  pub direct : List ℕ
  pub indirect1 : ℕ
  pub indirect2 : ℕ
  pub indirect3 : ℕ

-- `init` leaves `indirect3` as it was.
pub init : DiskInode → DiskInodeKind → DiskInode
init ino kind = record ino {
  kind = kind;
  size = 0;
  direct = replicate direct_count 0;
  indirect1 = 0;
  indirect2 = 0;
}

abbrev is_directory : DiskInodeKind → Bool
is_directory directory = true
is_directory file = false

pub is_dir : DiskInode → Bool
is_dir ino = is_directory ino.kind

pub is_file : DiskInode → Bool
is_file ino = not (is_directory ino.kind)

-- `div_ceil`.
abbrev pub div_ceil : ℕ → ℕ → ℕ
div_ceil a b = (a + b - 1) / b

pub count_data_block : ℕ → ℕ
count_data_block size = div_ceil size block_size

-- The blocks of a file of so many data blocks, the indirect ones included.
pub total_for : ℕ → ℕ
total_for data_blocks =
    let with_indirect1 = if ltb direct_bound data_blocks then data_blocks + 1 else data_blocks in
    let with_indirect2 =
      if ltb indirect1_bound data_blocks
      then with_indirect1
        + 1
        + min (div_ceil (data_blocks - indirect1_bound) indirect1_count) indirect1_count
      else with_indirect1 in
    if ltb indirect2_bound data_blocks
    then with_indirect2
      + 1
      + (div_ceil (data_blocks - indirect2_bound) indirect2_count
          + div_ceil (data_blocks - indirect2_bound) indirect1_count)
    else with_indirect2

-- The result fits 32 bits for every 32-bit size.
pub count_total_block : ℕ → ℕ
unfolding count_data_block total_for
count_total_block size = total_for (count_data_block size) % 2 ^ 32

pub blocks_num_needed : DiskInode → ℕ → Option ℕ
unfolding count_total_block
blocks_num_needed ino new_size = do
  assert (leb ino.size new_size)
  some (count_total_block new_size - count_total_block ino.size)
