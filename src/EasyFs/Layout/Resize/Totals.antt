-- ===== src/EasyFs/Layout/Resize/Totals.antt =====
-- The blocks of a file level by level, against `count_total_block` of easy-fs/src/layout.rs.
use lemon_core.Base.{ℕ, ◌+◌, ◌-◌, ◌/◌, ◌≤◌, min, ◌≡◌, arith, ◌==◌, if◌then◌else◌}
use lemon_core.EasyFs.Layout.Tree.Size.{tree_size, tree_size_one, tree_size_two, tree_size_three}
use lemon_core.EasyFs.Layout.{total_for}

-- The blocks behind level 2, its root excluded, for `x` data blocks; then those behind level 1,
-- behind the direct blocks, and all.
unfoldable pub third_total : ℕ → ℕ
third_total x = if x == 0 then 0 else 1 + (x + (x + 127) / 128 + (x + 16383) / 16384)

unfoldable pub second_total : ℕ → ℕ
second_total x =
    if x == 0 then 0 else 1 + (min x 16384 + (min x 16384 + 127) / 128) + third_total (x - 16384)

unfoldable pub first_total : ℕ → ℕ
first_total x = if x == 0 then 0 else 1 + min x 128 + second_total (x - 128)

pub total_for-levels : (n : ℕ) → total_for n ≡ min n 27 + first_total (n - 27)
unfolding total_for first_total second_total third_total
total_for-levels n = ground arith

-- 1 for the root of a tree that has a leaf.
abbrev pub root_of : ℕ → ℕ
root_of x = if x == 0 then 0 else 1

pub third_total-tree : (x : ℕ) → x ≤ 2097152 → third_total x ≡ root_of x + tree_size 3 x
unfolding third_total
third_total-tree x h = ground (arith, tree_size_three x h)

pub second_total-tree :
    (x : ℕ) → second_total x ≡ root_of x + tree_size 2 (min x 16384) + third_total (x - 16384)
unfolding second_total third_total
second_total-tree x = ground (arith, tree_size_two (min x 16384) (omega arith))

pub first_total-tree :
    (x : ℕ) → first_total x ≡ root_of x + tree_size 1 (min x 128) + second_total (x - 128)
unfolding first_total second_total third_total
first_total-tree x = ground (arith, tree_size_one (min x 128) (omega arith))

pub third_total_mono : (x y : ℕ) → x ≤ y → third_total x ≤ third_total y
unfolding third_total
third_total_mono x y h = ground arith

pub second_total_mono : (x y : ℕ) → x ≤ y → second_total x ≤ second_total y
unfolding second_total
second_total_mono x y h = ground (arith, third_total_mono (x - 16384) (y - 16384) (omega arith))

pub first_total_mono : (x y : ℕ) → x ≤ y → first_total x ≤ first_total y
unfolding first_total
first_total_mono x y h = ground (arith, second_total_mono (x - 128) (y - 128) (omega arith))
