-- ===== src/EasyFs/Layout/Resize/Clear.antt =====
-- How many blocks `clear_size` of easy-fs/src/layout.rs drops.
use lemon_core.Base.{
  ℕ, ◌+◌, ◌-◌, ◌%◌, ◌^◌, ◌≤◌, ◌<◌, min, ◌≡◌, refl, ap, ◌∙◌, inl, inr, List, [], ◌∷◌, ◌++◌, arith,
  leb, leb→le, Bool-cases, length, length-append, take, replicate, length-take, length-replicate,
}
use lemon_core.EasyFs.Layout.{DiskInode, count_data_block, count_total_block, total_for}
use lemon_core.EasyFs.Layout.Tree.{Store, collect_tree}
use lemon_core.EasyFs.Layout.Tree.Size.{cap, tree_size, tree_size-zero}
use lemon_core.EasyFs.Layout.Tree.Collect.{collect_tree-Collects}
use lemon_core.EasyFs.Layout.Resize.{clear_first, clear_second, clear_third, clear_size}
use lemon_core.EasyFs.Layout.Resize.Totals.{
  root_of, third_total, second_total, first_total, total_for-levels, third_total-tree,
  second_total-tree, first_total-tree,
}
use lemon_core.EasyFs.Layout.Resize.Increase.{data_limit, total_for-lt}

-- The ids collected from one level, its root pushed first.
level-length :
    (levels : ℕ) (st : Store) (root left : ℕ) (dropped : List ℕ)
    → 0 < left
    → length (collect_tree levels st left root (dropped ++ (root ∷ []), 0)).0
      ≡ length dropped + 1 + tree_size levels (min left (cap levels))
level-length levels st root left dropped h =
    let z : left - 0 ≡ left = omega arith in
    omega (
      arith,
      (collect_tree-Collects levels st left root (dropped ++ (root ∷ [])) 0 h).0,
      length-append dropped (root ∷ []),
      ap (λ k. tree_size levels (min k (cap levels))) z,
    )

third_zero : third_total 0 ≡ 0
third_zero = omega (arith, third_total-tree 0 (omega arith), tree_size-zero 3)

second_zero : second_total 0 ≡ 0
second_zero = omega (arith, second_total-tree 0, third_zero, tree_size-zero 2)

clear_third-length :
    (ino : DiskInode) (st : Store) (data_blocks : ℕ) (dropped : List ℕ)
    → 16384 < data_blocks
    → data_blocks - 16384 ≤ 2097152
    → length (clear_third ino st data_blocks dropped).1
      ≡ length dropped + third_total (data_blocks - 16384)
unfolding clear_third cap
clear_third-length ino st data_blocks dropped h small =
    let left : ℕ = data_blocks - 16384 in
    let m : min left 2097152 ≡ left = omega arith in
    let one : root_of left ≡ 1 = ground arith in
    omega (
      arith,
      level-length 3 st ino.indirect3 left dropped (omega arith),
      ap (tree_size 3) m,
      third_total-tree left small,
      one,
    )

clear_second-length :
    (ino : DiskInode) (st : Store) (data_blocks : ℕ) (dropped : List ℕ)
    → 128 < data_blocks
    → data_blocks - 128 ≤ 2097152 + 16384
    → length (clear_second ino st data_blocks dropped).1
      ≡ length dropped + second_total (data_blocks - 128)
unfolding clear_second cap
clear_second-length ino st data_blocks dropped h small =
    let left : ℕ = data_blocks - 128 in
    let one : root_of left ≡ 1 = ground arith in
    let here = level-length 2 st ino.indirect2 left dropped (omega arith) in
    elim (Bool-cases (leb left 16384)) [
      | inl fits ↦
          let z : left - 16384 ≡ 0 = ground arith in
          rw fits (omega (arith, here, second_total-tree left, one, ap third_total z, third_zero))
      | inr more ↦ rw more (
          omega (
            arith,
            clear_third-length (record ino { indirect2 = 0 }) st left
                (collect_tree 2 st left ino.indirect2 (dropped ++ (ino.indirect2 ∷ []), 0)).0
                (ground arith) (omega arith),
            here,
            second_total-tree left,
            one,
          ))
    ]

clear_first-length :
    (ino : DiskInode) (st : Store) (data_blocks : ℕ) (dropped : List ℕ)
    → 27 < data_blocks
    → data_blocks ≤ data_limit
    → length (clear_first ino st data_blocks dropped).1
      ≡ length dropped + first_total (data_blocks - 27)
unfolding clear_first cap
clear_first-length ino st data_blocks dropped h small =
    let left : ℕ = data_blocks - 27 in
    let one : root_of left ≡ 1 = ground arith in
    let here = level-length 1 st ino.indirect1 left dropped (omega arith) in
    elim (Bool-cases (leb left 128)) [
      | inl fits ↦
          let z : left - 128 ≡ 0 = ground arith in
          rw fits (omega (arith, here, first_total-tree left, one, ap second_total z, second_zero))
      | inr more ↦ rw more (
          omega (
            arith,
            clear_second-length (record ino { indirect1 = 0 }) st left
                (collect_tree 1 st left ino.indirect1 (dropped ++ (ino.indirect1 ∷ []), 0)).0
                (ground arith) (omega arith),
            here,
            first_total-tree left,
            one,
          ))
    ]

clear_first-size :
    (ino : DiskInode) (st : Store) (n : ℕ) (dropped : List ℕ)
    → (clear_first ino st n dropped).0.size ≡ ino.size
unfolding clear_first clear_second clear_third
clear_first-size ino st n dropped = ground arith

clear_first-direct :
    (ino : DiskInode) (st : Store) (n : ℕ) (dropped : List ℕ)
    → (clear_first ino st n dropped).0.direct ≡ ino.direct
unfolding clear_first clear_second clear_third
clear_first-direct ino st n dropped = ground arith

first_zero : first_total 0 ≡ 0
first_zero = omega (arith, first_total-tree 0, second_zero, tree_size-zero 1)

-- `clear_size` of an inode that holds a size that it can number drops as many blocks as
-- `count_total_block` counts for that size, the indirect ones included, and leaves the size 0: the
-- assertion of `Inode::clear` holds.
pub clear_size-count_total_block :
    (ino : DiskInode) (st : Store)
    → length ino.direct ≡ 27
    → count_data_block ino.size ≤ data_limit
    → let (ino', dropped) = clear_size ino st in
      (length dropped ≡ count_total_block ino.size) × (ino'.size ≡ 0) × (length ino'.direct ≡ 27)
unfolding clear_size count_total_block
clear_size-count_total_block ino st d h =
    let n : ℕ = count_data_block ino.size in
    let fits_u32 : total_for n % 2 ^ 32 ≡ total_for n = omega (arith, total_for-lt n h) in
    let kept = length-take (min n 27) ino.direct in
    elim (Bool-cases (leb n 27)) [
      | inl small ↦
          let z : n - 27 ≡ 0 = ground arith in
          rw (small, fits_u32)
            (
              omega (
                arith,
                kept,
                d,
                total_for-levels n,
                ap first_total z,
                first_zero,
                leb→le n 27 small,
              ),
              refl,
              length-replicate {A = ℕ} 27 0,
            )
      | inr large ↦
          let big : 27 < n = ground arith in
          let ino' : DiskInode = record ino { size = 0; direct = replicate 27 0 } in
          let dropped : List ℕ = take (min n 27) ino.direct in
          rw (large, fits_u32)
            (
              omega
                  (arith, clear_first-length ino' st n dropped big h, kept, d, total_for-levels n),
              clear_first-size ino' st n dropped,
              ap length (clear_first-direct ino' st n dropped) ∙ length-replicate {A = ℕ} 27 0,
            )
    ]
