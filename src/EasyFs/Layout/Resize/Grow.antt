-- ===== src/EasyFs/Layout/Resize/Grow.antt =====
-- The levels of indirect blocks of `increase_size`, of easy-fs/src/layout.rs.
use lemon_core.Base.{
  true, ℕ, ◌+◌, ◌-◌, ◌≤◌, ◌<◌, min, max, ◌≡◌, refl, ap, inl, inr, Option, some, List, [], ◌∷◌,
  arith, leb, ◌==◌, if◌then◌else◌, Bool-cases, length, drop, length-drop,
}
use lemon_core.EasyFs.Layout.{DiskInode}
use lemon_core.EasyFs.Layout.Tree.{Building}
use lemon_core.EasyFs.Layout.Tree.Size.{tree_size_mono, tree_size-zero, cap, tree_size}
use lemon_core.EasyFs.Layout.Tree.Build.{build_tree-Takes}
use lemon_core.EasyFs.Layout.Resize.{
  grown, Level, Grown, take_root, grow_level, grow_third, grow_second, grow_first, next_level,
}
use lemon_core.EasyFs.Layout.Resize.Totals.{
  root_of, third_total-tree, second_total-tree, first_total-tree, third_total_mono,
  second_total_mono, third_total, second_total, first_total,
}

-- The ids that `take_root` takes.
abbrev root_size : ℕ → ℕ → ℕ
root_size count block_index = if block_index == count then 1 else 0

take_root-length :
    (count : ℕ) (l : Level)
    → root_size count l.block_index ≤ length l.blocks
    → (root : ℕ) × (blocks : List ℕ) × (take_root count l l.blocks
        ≡ some (record l { root = root; blocks = blocks }))
      × (length blocks + root_size count l.block_index ≡ length l.blocks)
unfolding take_root
take_root-length count l h = go l.blocks refl
  where
    go :
        (xs : List ℕ)
        → l.blocks ≡ xs
        → (root : ℕ) × (blocks : List ℕ) × (take_root count l xs
            ≡ some (record l { root = root; blocks = blocks }))
          × (length blocks + root_size count l.block_index ≡ length l.blocks)
    go [] e = elim (Bool-cases (l.block_index == count)) [
      | inl new_root ↦ absurd (ground (arith, ap length e))
      | inr old_root ↦ (l.root, l.blocks, rw (old_root, take_root), rw old_root (omega arith))
    ]
    go (b ∷ rest) e = elim (Bool-cases (l.block_index == count)) [
      | inl new_root ↦ (b, rest, rw new_root, rw new_root (omega (arith, ap length e)))
      | inr old_root ↦ (l.root, l.blocks, rw old_root, rw old_root (omega arith))
    ]

-- What a level leaves: the counts lowered, and the blocks of the levels behind it, of which those
-- up to the old end took `p` and those up to the new end take `q`.
record Levels (count c p q : ℕ) (l l' : Level) : Type 0 where
  block_index : l'.block_index ≡ max (l.block_index - count) (min (l.new_total_blocks - count) c)
  new_total : l'.new_total_blocks ≡ l.new_total_blocks - count
  left : length l'.blocks + p ≡ q

grow_level-Levels :
    (depth count p q : ℕ) (l : Level)
    → count ≤ l.block_index
    → l.block_index ≤ l.new_total_blocks
    → count < l.new_total_blocks
    → p ≤ q
    → (let x = l.block_index - count in
        let y = l.new_total_blocks - count in
        length l.blocks + (root_of x + tree_size depth (min x (cap depth)) + p)
        ≡ 1 + tree_size depth (min y (cap depth)) + q)
    → (l' : Level) × (grow_level depth count l ≡ some l') × Levels count (cap depth) p q l l'
unfolding grow_level
grow_level-Levels depth count p q l b o n pq e =
    let src : ℕ = l.block_index - count in
    let dst : ℕ = l.new_total_blocks - count in
    let grows = tree_size_mono depth (min src (cap depth)) (min dst (cap depth)) (omega arith) in
    let k : ℕ = tree_size depth (min dst (cap depth)) - tree_size depth (min src (cap depth)) in
    let one : root_size count l.block_index + root_of src ≡ 1 = ground arith in
    let (root, blocks, took, taken) = take_root-length count l (omega (arith, one, grows)) in
    let s : Building = record { blocks = blocks; store = l.store; cur_leaf = 0 } in
    let reached : leb count l.block_index ≡ true = ground arith in
    let beyond : leb count l.new_total_blocks ≡ true = ground arith in
    let s₀ : src - 0 ≡ src = omega arith in
    let d₀ : dst - 0 ≡ dst = omega arith in
    let (st, built) =
      build_tree-Takes depth src dst (omega arith) root s k (omega arith)
        (rw (s₀, d₀) (omega (arith, grows))) (omega (arith, taken, one, grows)) in
    (
      record {
        root = root;
        block_index = max src (min dst (0 + cap depth));
        new_total_blocks = dst;
        blocks = drop k blocks;
        store = st;
      },
      rw (took, reached, beyond, built),
      record {
        block_index = omega arith;
        new_total = refl;
        left = omega (arith, taken, one, grows, length-drop k blocks);
      },
    )

-- The inode is grown to the size that it is given, with no block left over.
abbrev pub Uses : DiskInode → Option Grown → Type 0
Uses ino r =
    (g : Grown) × (r ≡ some g)
    × (g.blocks ≡ [])
    × (g.inode.size ≡ ino.size)
    × (g.inode.direct ≡ ino.direct)

pub no_length : (xs : List ℕ) → length xs ≡ 0 → xs ≡ []
no_length [] e = refl
no_length (x ∷ xs) e = absurd (omega arith)

grow_third-Uses :
    (ino : DiskInode) (l : Level)
    → l.block_index ≤ l.new_total_blocks
    → 16384 ≤ l.block_index
    → 16384 < l.new_total_blocks
    → l.new_total_blocks - 16384 ≤ 2097152
    → length l.blocks + third_total (l.block_index - 16384)
      ≡ third_total (l.new_total_blocks - 16384)
    → Uses ino (grow_third ino l)
unfolding grow_third cap
grow_third-Uses ino l o b n small e =
    let x : ℕ = l.block_index - 16384 in
    let y : ℕ = l.new_total_blocks - 16384 in
    let mx : min x 2097152 ≡ x = omega arith in
    let my : min y 2097152 ≡ y = omega arith in
    let one : root_of y ≡ 1 = ground arith in
    let (l', run, p) =
      grow_level-Levels 3 16384 0 0 (next_level ino.indirect3 l) b o n (omega arith) (
        rw (mx, my)
          (omega
            (arith, e, one, third_total-tree x (omega arith), third_total-tree y (omega arith)))) in
    (
      grown (record ino { indirect3 = l'.root }) l',
      rw run,
      no_length l'.blocks (omega (arith, p.left)),
      refl,
      refl,
    )

grow_second-Uses :
    (ino : DiskInode) (l : Level)
    → l.block_index ≤ l.new_total_blocks
    → 128 ≤ l.block_index
    → 128 < l.new_total_blocks
    → l.new_total_blocks - 128 ≤ 2097152 + 16384
    → length l.blocks + second_total (l.block_index - 128) ≡ second_total (l.new_total_blocks - 128)
    → Uses ino (grow_second ino l)
unfolding grow_second cap
grow_second-Uses ino l o b n small e =
    let x : ℕ = l.block_index - 128 in
    let y : ℕ = l.new_total_blocks - 128 in
    let one : root_of y ≡ 1 = ground arith in
    let (l', run, p) =
      grow_level-Levels 2 128 (third_total (x - 16384)) (third_total (y - 16384))
        (next_level ino.indirect2 l) b o n (third_total_mono (x - 16384) (y - 16384) (omega arith))
        (omega (arith, e, one, second_total-tree x, second_total-tree y)) in
    let ino' : DiskInode = record ino { indirect2 = l'.root } in
    elim (Bool-cases (leb l'.new_total_blocks 16384)) [
      | inl fits ↦
          let z : y - 16384 ≡ 0 = ground (arith, p.new_total) in
          (
            grown ino' l',
            rw (run, fits),
            no_length l'.blocks (omega (arith, p.left, ap third_total z, third_zero)),
            refl,
            refl,
          )
      | inr more ↦
          let bi : l'.block_index - 16384 ≡ x - 16384 =
            ground (arith, p.block_index, p.new_total) in
          let ni : l'.new_total_blocks - 16384 ≡ y - 16384 = omega (arith, p.new_total) in
          rw (run, more)
            (grow_third-Uses ino' l' (omega (arith, p.block_index, p.new_total))
              (ground (arith, p.block_index, p.new_total)) (ground arith)
              (omega (arith, p.new_total)) (rw (bi, ni) p.left))
    ]
  where
    third_zero : third_total 0 ≡ 0
    third_zero = omega (arith, third_total-tree 0 (omega arith), tree_size-zero 3)

pub grow_first-Uses :
    (ino : DiskInode) (l : Level)
    → l.block_index ≤ l.new_total_blocks
    → 27 ≤ l.block_index
    → 27 < l.new_total_blocks
    → l.new_total_blocks - 27 ≤ 2097152 + 16384 + 128
    → length l.blocks + first_total (l.block_index - 27) ≡ first_total (l.new_total_blocks - 27)
    → Uses ino (grow_first ino l)
unfolding grow_first cap
grow_first-Uses ino l o b n small e =
    let x : ℕ = l.block_index - 27 in
    let y : ℕ = l.new_total_blocks - 27 in
    let one : root_of y ≡ 1 = ground arith in
    let (l', run, p) =
      grow_level-Levels 1 27 (second_total (x - 128)) (second_total (y - 128))
        (next_level ino.indirect1 l) b o n (second_total_mono (x - 128) (y - 128) (omega arith))
        (omega (arith, e, one, first_total-tree x, first_total-tree y)) in
    let ino' : DiskInode = record ino { indirect1 = l'.root } in
    elim (Bool-cases (leb l'.new_total_blocks 128)) [
      | inl fits ↦
          let z : y - 128 ≡ 0 = ground (arith, p.new_total) in
          (
            grown ino' l',
            rw (run, fits),
            no_length l'.blocks (omega (arith, p.left, ap second_total z, second_zero)),
            refl,
            refl,
          )
      | inr more ↦
          let bi : l'.block_index - 128 ≡ x - 128 = ground (arith, p.block_index, p.new_total) in
          let ni : l'.new_total_blocks - 128 ≡ y - 128 = omega (arith, p.new_total) in
          rw (run, more)
            (grow_second-Uses ino' l' (omega (arith, p.block_index, p.new_total))
              (ground (arith, p.block_index, p.new_total)) (ground arith)
              (omega (arith, p.new_total)) (rw (bi, ni) p.left))
    ]
  where
    second_zero : second_total 0 ≡ 0
    second_zero = omega (
      arith,
      second_total-tree 0,
      third_total-tree 0 (omega arith),
      tree_size-zero 2,
      tree_size-zero 3,
    )
