-- ===== src/EasyFs/Efs/Regions.antt =====
-- The areas of the device that easy-fs/src/efs.rs creates and opens.
use lemon_core.Base.{ℕ, ◌+◌, ◌-◌, ◌*◌, ◌/◌, ◌^◌, ◌≤◌, ◌<◌, ◌≡◌, refl, some, arith}
use lemon_core.EasyFs.Bitmap.{maximum, new}
use lemon_core.EasyFs.Layout.{SuperBlock, super_block, is_valid, div_ceil}
use lemon_core.EasyFs.Efs.{EasyFileSystem, plan, open_efs, u32, minus_u32}

-- The data blocks that a device of so many blocks has, and the blocks of their bitmap.
abbrev data_total : ℕ → ℕ → ℕ
data_total total inode_bitmap_blocks =
    total - 1 - (inode_bitmap_blocks + inode_bitmap_blocks * 1024)

area : (n : ℕ) → div_ceil (n * 4096 * 128) 512 ≡ n * 1024
area n = omega arith

-- A sum that does not reach 2 ^ 32, and a difference that does not go below 0.
small : (a : ℕ) → a < 2 ^ 32 → u32 a ≡ a
small a h = omega (arith, h)

difference : (a b : ℕ) → a < 2 ^ 32 → b ≤ a → minus_u32 a b ≡ a - b
difference a b h l = omega (arith, h, l)

-- The areas without the limits of `u32`.
abbrev areas : ℕ → ℕ → EasyFileSystem × SuperBlock
areas total n =
    let d = data_total total n in
    let db = (d + 4096) / 4097 in
    (
      record {
        inode_bitmap = new 1 n;
        data_bitmap = new (1 + n + n * 1024) db;
        inode_area_start_block = 1 + n;
        data_area_start_block = 1 + (n + n * 1024) + db;
      },
      super_block total n (n * 1024) db (d - db),
    )

plan-areas :
    (total n : ℕ) → 1 + n * 1025 ≤ total → total ≤ 2 ^ 32 - 4096 → plan total n ≡ areas total n
unfolding plan maximum new
plan-areas total n h u =
    let d : ℕ = data_total total n in
    let inodes = small (n * 1024) (omega (arith, h, u)) in
    let both = small (n + n * 1024) (omega (arith, h, u)) in
    let after_super = difference total 1 (omega (arith, u)) (omega (arith, h)) in
    let counted = difference (total - 1) (n + n * 1024) (omega (arith, u)) (omega (arith, h)) in
    let rounded = small (d + 4096) (omega (arith, h, u)) in
    let rest = difference d ((d + 4096) / 4097) (omega (arith, h, u)) (omega arith) in
    let first = small (1 + n) (omega (arith, h, u)) in
    let bits = small (1 + n + n * 1024) (omega (arith, h, u)) in
    let inode_end = small (1 + (n + n * 1024)) (omega (arith, h, u)) in
    let start = small (1 + (n + n * 1024) + (d + 4096) / 4097) (omega (arith, h, u)) in
    rw (area n, inodes, both, after_super, counted, rounded, rest, first, bits, inode_end, start)
      refl

-- On a device that has room for the inodes, and of at most 2 ^ 32 - 4096 blocks, a file system is
-- created; opened from the super block it has the same areas; these, the super block before them, fill
-- the device; and the bitmap of the data blocks has a bit for each of them.
pub open_efs-plan :
    (total inode_bitmap_blocks : ℕ)
    → 1 + inode_bitmap_blocks * 1025 ≤ total
    → total ≤ 2 ^ 32 - 4096
    → let (efs, s) = plan total inode_bitmap_blocks in
      (open_efs s ≡ some efs)
      × (efs.data_area_start_block + s.data_area_blocks ≡ total)
      × (efs.inode_area_start_block + s.inode_area_blocks ≡ efs.data_bitmap.start_block_id)
      × (s.data_area_blocks ≤ maximum efs.data_bitmap)
unfolding open_efs maximum new super_block is_valid
open_efs-plan total n h u =
    let d : ℕ = data_total total n in
    let both = small (n + n * 1024) (omega (arith, h, u)) in
    let first = small (1 + n) (omega (arith, h, u)) in
    let inode_end = small (1 + (n + n * 1024)) (omega (arith, h, u)) in
    let start = small (1 + (n + n * 1024) + (d + 4096) / 4097) (omega (arith, h, u)) in
    let sum : 1 + n + n * 1024 ≡ 1 + (n + n * 1024) = omega arith in
    rw (plan-areas total n h u)
      (rw (both, first, inode_end, start, sum) refl, omega arith, omega arith, omega arith)
