-- ===== src/EasyFs/Efs.antt =====
-- easy-fs/src/efs.rs: where a file system keeps its parts on the device, and how it gives inodes and
-- data blocks out. Block counts of `create` and `open` are `u32`, whose sums and differences wrap.
use lemon_core.Base.{
  ◌^◌, ℕ, zero, ◌+◌, ◌-◌, ◌*◌, ◌/◌, ◌%◌, Option, none, some, List, leb, ◌==◌, if◌then◌else◌,
  replicate, ◌>>=◌, ◌>>◌, assert,
}
use lemon_core.EasyFs.Config.{block_size}
use lemon_core.EasyFs.Bitmap
use lemon_core.EasyFs.Bitmap.{Bitmap, Blocks, maximum}
use lemon_core.EasyFs.Layout.{SuperBlock, super_block, is_valid, div_ceil}
pub mod Regions
pub mod Inodes
mod Tests

-- `size_of::<DiskInode>()`: 32 words of 4 bytes.
abbrev pub inode_size : ℕ
inode_size = 128

abbrev pub inodes_per_block : ℕ
inodes_per_block = block_size / inode_size

pub record EasyFileSystem : Type 0 where
  pub inode_bitmap : Bitmap
  pub data_bitmap : Bitmap
  pub inode_area_start_block : ℕ
  pub data_area_start_block : ℕ

-- A number as a `u32`, and the difference of two.
abbrev pub u32 : ℕ → ℕ
u32 n = n % 2 ^ 32

abbrev pub minus_u32 : ℕ → ℕ → ℕ
minus_u32 a b = (a + 2 ^ 32 - b) % 2 ^ 32

-- The computation of the areas in `create`, and the super block that it writes.
pub plan : ℕ → ℕ → EasyFileSystem × SuperBlock
plan total_blocks inode_bitmap_blocks =
    let inode_bitmap = Bitmap.new 1 inode_bitmap_blocks in
    let inode_num = maximum inode_bitmap in
    let inode_area_blocks = u32 (div_ceil (inode_num * inode_size) block_size) in
    let inode_total_blocks = u32 (inode_bitmap_blocks + inode_area_blocks) in
    let data_total_blocks = minus_u32 (minus_u32 total_blocks 1) inode_total_blocks in
    let data_bitmap_blocks = u32 (data_total_blocks + 4096) / 4097 in
    let data_area_blocks = minus_u32 data_total_blocks data_bitmap_blocks in
    (
      record {
        inode_bitmap = inode_bitmap;
        data_bitmap =
            Bitmap.new (u32 (u32 (1 + inode_bitmap_blocks) + inode_area_blocks)) data_bitmap_blocks;
        inode_area_start_block = u32 (1 + inode_bitmap_blocks);
        data_area_start_block = u32 (u32 (1 + inode_total_blocks) + data_bitmap_blocks);
      },
      super_block total_blocks inode_bitmap_blocks inode_area_blocks data_bitmap_blocks
          data_area_blocks,
    )

-- `open`, on the super block of the device.
pub open_efs : SuperBlock → Option EasyFileSystem
open_efs s = do
  assert (is_valid s)
  let inode_total_blocks = u32 (s.inode_bitmap_blocks + s.inode_area_blocks)
  some (record {
    inode_bitmap = Bitmap.new 1 s.inode_bitmap_blocks;
    data_bitmap = Bitmap.new (u32 (1 + inode_total_blocks)) s.data_bitmap_blocks;
    inode_area_start_block = u32 (1 + s.inode_bitmap_blocks);
    data_area_start_block = u32 (u32 (1 + inode_total_blocks) + s.data_bitmap_blocks);
  })

pub disk_inode_position : EasyFileSystem → ℕ → ℕ × ℕ
disk_inode_position efs inode_id = (
  efs.inode_area_start_block + inode_id / inodes_per_block,
  inode_id % inodes_per_block * inode_size,
)

pub disk_inode_id : EasyFileSystem → ℕ → ℕ → Option ℕ
disk_inode_id efs block_id block_offset = do
  assert (leb efs.inode_area_start_block block_id)
  some ((block_id - efs.inode_area_start_block) * inodes_per_block + block_offset / inode_size)

-- The bitmap blocks and the bytes of the data blocks.
pub record Disk : Type 0 where
  pub bits : Blocks
  pub data_blocks : ℕ → List ℕ

unwrap_alloc : ℕ → Disk → Option ℕ × Blocks → Option (ℕ × Disk)
unwrap_alloc start d (none, bits') = none
unwrap_alloc start d (some n, bits') = some (n + start, record d { bits = bits' })

pub alloc_inode : EasyFileSystem → Disk → Option (ℕ × Disk)
unfolding unwrap_alloc
alloc_inode efs d = unwrap_alloc 0 d (Bitmap.alloc efs.inode_bitmap d.bits)

pub dealloc_inode : EasyFileSystem → Disk → ℕ → Option Disk
dealloc_inode efs d inode_id = do
  bits' ← Bitmap.dealloc efs.inode_bitmap d.bits inode_id
  some (record d { bits = bits' })

pub alloc_data : EasyFileSystem → Disk → Option (ℕ × Disk)
unfolding unwrap_alloc
alloc_data efs d = unwrap_alloc efs.data_area_start_block d (Bitmap.alloc efs.data_bitmap d.bits)

pub dealloc_data : EasyFileSystem → Disk → ℕ → Option Disk
dealloc_data efs d block_id = do
  let zeroed = λ (j : ℕ). if block_id == j then replicate block_size 0 else d.data_blocks j
  assert (leb efs.data_area_start_block block_id)
  bits' ← Bitmap.dealloc efs.data_bitmap d.bits (block_id - efs.data_area_start_block)
  some (record { bits = bits'; data_blocks = zeroed })
