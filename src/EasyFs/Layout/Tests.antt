-- ===== src/EasyFs/Layout/Tests.antt =====
-- Inodes that grow and shrink, on concrete inputs.
use lemon_core.Base.{
  drop, ℕ, ◌+◌, ◌-◌, ◌<◌, ◌≡◌, refl, some, List, [], arith, length, get_elem?, replicate,
}
use lemon_core.EasyFs.Layout.{
  DiskInode, file, count_data_block, count_total_block, total_for, blocks_num_needed,
}
use lemon_core.EasyFs.Layout.Tree.{Store, block_id}
use lemon_core.EasyFs.Layout.Resize.{Grown, increase_size, clear_size, decrease_size}
use lemon_core.EasyFs.Layout.Resize.Increase.{increase_size-blocks_num_needed}
use lemon_core.EasyFs.Layout.Resize.Clear.{clear_size-count_total_block}
use lemon_core.EasyFs.Layout.Resize.Decrease.{decrease_size-leak, decrease_size-frees_kept}

abbrev inode : ℕ → DiskInode
inode size = record {
  kind = file;
  size = size;
  direct = replicate 27 5;
  indirect1 = 6;
  indirect2 = 0;
  indirect3 = 0;
}

abbrev st : Store
st j k = j + k

-- 28 data blocks: 27 direct ones and one behind the first indirect block.
increase_size-blocks_num_needed_example :
    (g : Grown) × (increase_size (inode 0) 14000 (replicate 29 8) st ≡ some g)
    × (g.blocks ≡ [])
    × (g.inode.size ≡ 14000)
    × (length g.inode.direct ≡ 27)
unfolding blocks_num_needed count_total_block total_for count_data_block
increase_size-blocks_num_needed_example =
    increase_size-blocks_num_needed (inode 0) 14000 (replicate 29 8) st refl (omega arith) refl

clear_size-count_total_block_example :
    let (ino', dropped) = clear_size (inode 14000) st in
    (length dropped ≡ count_total_block 14000) × (ino'.size ≡ 0) × (length ino'.direct ≡ 27)
unfolding count_data_block
clear_size-count_total_block_example =
    clear_size-count_total_block (inode 14000) st refl (omega arith)

decrease_size-leak_example :
    (ino' : DiskInode) × (dropped : List ℕ) × (decrease_size (inode 14000) 512 st
      ≡ some (ino', dropped))
    × (dropped ≡ drop (count_data_block 512) (replicate 27 5))
    × (ino'.size ≡ 512)
    × (ino'.indirect1 ≡ 6)
    × (ino'.indirect2 ≡ 0)
    × (ino'.indirect3 ≡ 0)
unfolding count_data_block
decrease_size-leak_example =
    decrease_size-leak (inode 14000) 512 st refl (omega arith) (omega arith)

decrease_size-frees_kept_example :
    (ino' : DiskInode) × (dropped : List ℕ) × (decrease_size (inode 20000) 14000 st
      ≡ some (ino', dropped))
    × (length dropped ≡ count_data_block 14000 - 27)
    × ((k : ℕ) → k < count_data_block 14000 - 27 → get_elem? dropped k ≡ block_id ino' (27 + k) st)
unfolding count_data_block
decrease_size-frees_kept_example =
    decrease_size-frees_kept (inode 20000) 14000 st refl (omega arith) (omega arith) (omega arith)
