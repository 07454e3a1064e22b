-- ===== src/EasyFs/Layout/Tree.antt =====
-- `block_id`, `build_tree` and `collect_tree` of easy-fs/src/layout.rs: walks in the trees of
-- indirect blocks below an inode.
use lemon_core.Base.{
  ℕ, zero, suc, ◌+◌, ◌-◌, ◌/◌, ◌%◌, ◌&&◌, Option, none, some, List, [], ◌∷◌, ◌++◌, ltb, leb, ◌==◌,
  if◌then◌else◌, ◌>>=◌, index,
}
use lemon_core.EasyFs.Config.{
  direct_bound, indirect_count, indirect1_bound, indirect2_bound, indirect1_count, indirect2_count,
}
use lemon_core.EasyFs.Layout.{DiskInode}
pub mod Size
pub mod Build
pub mod Collect

-- An indirect block: the block ids in its 128 entries.
abbrev pub IndirectBlock : Type 0
IndirectBlock = ℕ → ℕ

-- The indirect blocks of the device, seen through the block cache.
abbrev pub Store : Type 0
Store = ℕ → IndirectBlock

abbrev pub entry : Store → ℕ → ℕ → Option ℕ
entry st id i = if ltb i indirect_count then some (st id i) else none

abbrev pub write_entry : Store → ℕ → ℕ → ℕ → Store
write_entry st id i v j k = if id == j && i == k then v else st j k

-- The id of data block `block_index`; `none` is an index out of range.
unfoldable pub block_id : DiskInode → ℕ → Store → Option ℕ
block_id ino block_index st =
    if ltb block_index direct_bound
    then index ino.direct block_index
    else if ltb block_index indirect1_bound
    then entry st ino.indirect1 (block_index - direct_bound)
    else if ltb block_index indirect2_bound
    then (do
      let i = block_index - indirect1_bound
      indirect1 ← entry st ino.indirect2 (i / indirect1_count)
      entry st indirect1 (i % indirect1_count))
    else (do
      let i = block_index - indirect2_bound
      indirect2 ← entry st ino.indirect3 (i / indirect2_count)
      indirect1 ← entry st indirect2 (i % indirect2_count / indirect1_count)
      entry st indirect1 (i % indirect2_count % indirect1_count))

-- What `build_tree` changes: the iterator over the new blocks, the indirect blocks, and the count
-- of leaves passed.
pub record Building : Type 0 where
  pub blocks : List ℕ
  pub store : Store
  pub cur_leaf : ℕ

-- `*indirect = blocks.next().unwrap()`, on what the iterator has left.
place : ℕ → ℕ → Building → List ℕ → Option Building
place id i s [] = none
place id i s (b ∷ rest) = some (record s { blocks = rest; store = write_entry s.store id i b })

-- The loop over the entries of block `id` from entry `i` on, with `rounds` entries left; `child` is
-- the recursive call.
pub build_entries :
    (ℕ → Building → Option Building) → ℕ → ℕ → ℕ → ℕ → ℕ → Building → Option Building
unfolding place
build_entries child src_leaf dst_leaf id zero i s = some s
build_entries child src_leaf dst_leaf id (suc rounds) i s =
    let step = do
      s₁ ← (if leb src_leaf s.cur_leaf then place id i s s.blocks else some s)
      s₂ ← child (s₁.store id i) s₁
      build_entries child src_leaf dst_leaf id rounds (i + 1) s₂
    in if leb dst_leaf s.cur_leaf then some s else step

-- On the levels left, `dst_depth - cur_depth`.
pub build_tree : ℕ → ℕ → ℕ → ℕ → Building → Option Building
unfolding build_entries
build_tree zero src_leaf dst_leaf id s = some (record s { cur_leaf = s.cur_leaf + 1 })
build_tree (suc levels) src_leaf dst_leaf id s =
    build_entries (build_tree levels src_leaf dst_leaf) src_leaf dst_leaf id indirect_count 0 s

-- The loop of `collect_tree`, on the ids collected and the count of leaves passed.
pub collect_entries :
    (ℕ → List ℕ × ℕ → List ℕ × ℕ) → Store → ℕ → ℕ → ℕ → ℕ → List ℕ × ℕ → List ℕ × ℕ
collect_entries child st max_leaf id zero i s = s
collect_entries child st max_leaf id (suc rounds) i (collected, cur_leaf) =
    let rest =
      collect_entries child st max_leaf id rounds (i + 1)
        (child (st id i) (collected ++ (st id i ∷ []), cur_leaf)) in
    if leb max_leaf cur_leaf then (collected, cur_leaf) else rest

pub collect_tree : ℕ → Store → ℕ → ℕ → List ℕ × ℕ → List ℕ × ℕ
unfolding collect_entries
collect_tree zero st max_leaf id (collected, cur_leaf) = (collected, cur_leaf + 1)
collect_tree (suc levels) st max_leaf id s =
    collect_entries (collect_tree levels st max_leaf) st max_leaf id indirect_count 0 s
