-- ===== src/EasyFs/Layout/Resize.antt =====
-- `increase_size`, `decrease_size` and `clear_size` of easy-fs/src/layout.rs.
use lemon_core.Base.{
  ℕ, zero, suc, ◌+◌, ◌-◌, min, max, Option, none, some, List, [], ◌∷◌, ◌++◌, leb, ◌==◌,
  if◌then◌else◌, take, replicate, ◌>>=◌, ◌>>◌, assert, index, store,
}
use lemon_core.EasyFs.Config.{direct_count, indirect1_count, indirect2_count}
use lemon_core.EasyFs.Layout.{DiskInode, count_data_block}
use lemon_core.EasyFs.Layout.Tree.{Store, Building, build_tree, collect_tree}
pub mod Totals
pub mod Grow
pub mod Increase
pub mod Clear
pub mod Decrease

-- The loop over the direct blocks, `rounds` times: the block index reached, the direct blocks and
-- what is left of the new blocks. `none` is the `unwrap` of an iterator that has run out.
pub grow_direct : ℕ → ℕ → List ℕ → List ℕ → Option (ℕ × List ℕ × List ℕ)
grow_direct zero block_index direct blocks = some (block_index, direct, blocks)
grow_direct (suc rounds) block_index direct [] = none
grow_direct (suc rounds) block_index direct (b ∷ blocks) = do
  direct' ← store direct block_index b
  grow_direct rounds (block_index + 1) direct' blocks

-- What a level of `increase_size` works on: the root of its tree, and the counts that it lowers.
pub record Level : Type 0 where
  pub root : ℕ
  pub block_index : ℕ
  pub new_total_blocks : ℕ
  pub blocks : List ℕ
  pub store : Store

-- `if block_index == count { root = new_blocks.next().unwrap() }`, on what the iterator has left.
take_root : ℕ → Level → List ℕ → Option Level
take_root count l [] = if l.block_index == count then none else some l
take_root count l (b ∷ rest) =
    if l.block_index == count then some (record l { root = b; blocks = rest }) else some l

-- One level of `increase_size`: the tree of depth `depth` behind the `count` blocks of the level
-- before it; both `-=` come with the check that they do not overflow.
pub grow_level : ℕ → ℕ → Level → Option Level
unfolding take_root
grow_level depth count l = do
  l₁ ← take_root count l l.blocks
  assert (leb count l₁.block_index)
  assert (leb count l₁.new_total_blocks)
  let src = l₁.block_index - count
  let dst = l₁.new_total_blocks - count
  b ←
      build_tree depth src dst l₁.root
        (record { blocks = l₁.blocks; store = l₁.store; cur_leaf = 0 })
  some (record {
    root = l₁.root;
    block_index = max src b.cur_leaf;
    new_total_blocks = dst;
    blocks = b.blocks;
    store = b.store;
  })

-- What `increase_size` leaves: the inode, the new blocks not used, and the indirect blocks.
pub record Grown : Type 0 where
  pub inode : DiskInode
  pub blocks : List ℕ
  pub store : Store

abbrev grown : DiskInode → Level → Grown
grown ino l = record { inode = ino; blocks = l.blocks; store = l.store }

abbrev next_level : ℕ → Level → Level
next_level root l = record l { root = root }

grow_third : DiskInode → Level → Option Grown
unfolding grow_level
grow_third ino l = do
  l₃ ← grow_level 3 indirect2_count (next_level ino.indirect3 l)
  some (grown (record ino { indirect3 = l₃.root }) l₃)

grow_second : DiskInode → Level → Option Grown
unfolding grow_level grow_third
grow_second ino l = do
  l₂ ← grow_level 2 indirect1_count (next_level ino.indirect2 l)
  let ino₂ = record ino { indirect2 = l₂.root }
  if leb l₂.new_total_blocks indirect2_count then some (grown ino₂ l₂) else grow_third ino₂ l₂

pub grow_first : DiskInode → Level → Option Grown
unfolding grow_level grow_second
grow_first ino l = do
  l₁ ← grow_level 1 direct_count (next_level ino.indirect1 l)
  let ino₁ = record ino { indirect1 = l₁.root }
  if leb l₁.new_total_blocks indirect1_count then some (grown ino₁ l₁) else grow_second ino₁ l₁

pub increase_size : DiskInode → ℕ → List ℕ → Store → Option Grown
unfolding grow_direct grow_first
increase_size ino new_size new_blocks st = do
  let old_total = count_data_block ino.size
  let new_total = count_data_block new_size
  (block_index, direct', blocks) ←
      grow_direct (min new_total direct_count - old_total) old_total ino.direct new_blocks
  let ino' = record ino { size = new_size; direct = direct' }
  let l : Level = record {
    root = 0;
    block_index = block_index;
    new_total_blocks = new_total;
    blocks = blocks;
    store = st;
  }
  if leb new_total direct_count then some (grown ino' l) else grow_first ino' l

-- `clear_size`, level by level: the ids dropped so far, and the data blocks left.
clear_third : DiskInode → Store → ℕ → List ℕ → DiskInode × List ℕ
clear_third ino st data_blocks dropped = (
  record ino { indirect3 = 0 },
  (collect_tree 3 st (data_blocks - indirect2_count) ino.indirect3
      (dropped ++ (ino.indirect3 ∷ []), 0)).0,
)

clear_second : DiskInode → Store → ℕ → List ℕ → DiskInode × List ℕ
unfolding clear_third
clear_second ino st data_blocks dropped =
    let left = data_blocks - indirect1_count in
    let dropped' = (collect_tree 2 st left ino.indirect2 (dropped ++ (ino.indirect2 ∷ []), 0)).0 in
    let ino' = record ino { indirect2 = 0 } in
    if leb left indirect2_count then (ino', dropped') else clear_third ino' st left dropped'

clear_first : DiskInode → Store → ℕ → List ℕ → DiskInode × List ℕ
unfolding clear_second
clear_first ino st data_blocks dropped =
    let left = data_blocks - direct_count in
    let dropped' = (collect_tree 1 st left ino.indirect1 (dropped ++ (ino.indirect1 ∷ []), 0)).0 in
    let ino' = record ino { indirect1 = 0 } in
    if leb left indirect1_count then (ino', dropped') else clear_second ino' st left dropped'

pub clear_size : DiskInode → Store → DiskInode × List ℕ
unfolding clear_first
clear_size ino st =
    let data_blocks = count_data_block ino.size in
    let dropped = take (min data_blocks direct_count) ino.direct in
    let ino' = record ino { size = 0; direct = replicate direct_count 0 } in
    if leb data_blocks direct_count
    then (ino', dropped)
    else clear_first ino' st data_blocks dropped

-- The loop over the direct blocks of `decrease_size`, `rounds` times from block `i` on.
pub shrink_direct : ℕ → ℕ → List ℕ → List ℕ → Option (List ℕ × List ℕ)
shrink_direct zero i direct dropped = some (direct, dropped)
shrink_direct (suc rounds) i direct dropped = do
  b ← index direct i
  direct' ← store direct i 0
  shrink_direct rounds (i + 1) direct' (dropped ++ (b ∷ []))

-- `if block_index == count { drop_data_blocks.push(root); root = 0 }`: the root and the ids dropped.
pub drop_root : ℕ → ℕ → ℕ → List ℕ → ℕ × List ℕ
drop_root count block_index root dropped =
    if block_index == count then (0, dropped ++ (root ∷ [])) else (root, dropped)

-- The third level lowers `recycled_blocks` by `INDIRECT1_COUNT`, as the program does.
shrink_third : DiskInode → Store → ℕ → ℕ → List ℕ → DiskInode × List ℕ
unfolding drop_root
shrink_third ino st block_index recycled dropped =
    let (root, dropped') = drop_root indirect2_count block_index ino.indirect3 dropped in
    (
      record ino { indirect3 = root },
      (collect_tree 3 st (recycled - indirect1_count) root (dropped', 0)).0,
    )

-- `none` is the overflow of `block_index -= ..`.
shrink_second : DiskInode → Store → ℕ → ℕ → List ℕ → Option (DiskInode × List ℕ)
unfolding drop_root shrink_third
shrink_second ino st block_index recycled dropped =
    let (root, dropped') = drop_root indirect1_count block_index ino.indirect2 dropped in
    let left = recycled - indirect1_count in
    let (dropped'', cur_leaf) = collect_tree 2 st left root (dropped', 0) in
    let ino' = record ino { indirect2 = root } in
    assert (leb indirect1_count block_index)
    >> some (
        if leb left indirect2_count
        then (ino', dropped'')
        else shrink_third ino' st (min (block_index - indirect1_count) cur_leaf) left dropped'')

shrink_first : DiskInode → Store → ℕ → ℕ → List ℕ → Option (DiskInode × List ℕ)
unfolding drop_root shrink_second
shrink_first ino st block_index recycled dropped =
    let (root, dropped') = drop_root direct_count block_index ino.indirect1 dropped in
    let left = recycled - direct_count in
    let (dropped'', cur_leaf) = collect_tree 1 st left root (dropped', 0) in
    let ino' = record ino { indirect1 = root } in
    assert (leb direct_count block_index)
    >> (if leb left indirect1_count
        then some (ino', dropped'')
        else shrink_second ino' st (min (block_index - direct_count) cur_leaf) left dropped'')

pub decrease_size : DiskInode → ℕ → Store → Option (DiskInode × List ℕ)
unfolding shrink_direct shrink_first
decrease_size ino new_size st = do
  let old_total = count_data_block ino.size
  let new_total = count_data_block new_size
  let rounds = min old_total direct_count - new_total
  (direct', dropped) ← shrink_direct rounds new_total ino.direct []
  let ino' = record ino { size = new_size; direct = direct' }
  let recycled = new_total + rounds
  if leb recycled direct_count
      then some (ino', dropped)
      else shrink_first ino' st old_total recycled dropped
