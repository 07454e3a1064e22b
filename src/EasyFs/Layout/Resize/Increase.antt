-- ===== src/EasyFs/Layout/Resize/Increase.antt =====
-- `increase_size` with the blocks that `blocks_num_needed` asks for.
use lemon_core.Base.{
  ℕ, zero, suc, ◌+◌, ◌-◌, ◌%◌, ◌^◌, ◌≤◌, ◌<◌, min, max, ◌≡◌, refl, ap, ◌∙◌, inl, inr, none, some,
  List, [], ◌∷◌, arith, leb, leb→le, Bool-cases, length, set, length-set, drop, length-drop,
  store-eq-some,
}
use mathlib.Core.Option.{some-injective}
use lemon_core.EasyFs.Layout.{
  DiskInode, count_data_block, count_total_block, total_for, blocks_num_needed,
}
use lemon_core.EasyFs.Layout.Tree.{Store}
use lemon_core.EasyFs.Layout.Resize.{Level, Grown, grown, grow_direct, increase_size}
use lemon_core.EasyFs.Layout.Resize.Totals.{first_total, total_for-levels, first_total_mono}
use lemon_core.EasyFs.Layout.Resize.Grow.{no_length, grow_first-Uses}

grow_direct-drop :
    (rounds block_index : ℕ) (direct blocks : List ℕ)
    → rounds ≤ length blocks
    → block_index + rounds ≤ max block_index (length direct)
    → (direct' : List ℕ) × (grow_direct rounds block_index direct blocks
        ≡ some (block_index + rounds, direct', drop rounds blocks))
      × (length direct' ≡ length direct)
unfolding grow_direct
grow_direct-drop zero block_index direct blocks h l =
    let e : block_index + 0 ≡ block_index = omega arith in (direct, rw e, refl)
grow_direct-drop (suc rounds) block_index direct [] h l = absurd (omega arith)
grow_direct-drop (suc rounds) block_index direct (b ∷ blocks) h l =
    let (direct', run, same) =
      grow_direct-drop rounds (block_index + 1) (set direct block_index b) blocks (omega arith)
        (omega (arith, length-set direct block_index b)) in
    let e : block_index + 1 + rounds ≡ block_index + suc rounds = omega arith in
    (
      direct',
      rw (store-eq-some direct block_index b (omega arith), ← e) run,
      same ∙ length-set direct block_index b,
    )

-- The data blocks that an inode can number.
abbrev pub data_limit : ℕ
data_limit = 27 + 128 + 16384 + 2097152

total_for_mono : (o n : ℕ) → o ≤ n → total_for o ≤ total_for n
total_for_mono o n h = omega (
  arith,
  total_for-levels o,
  total_for-levels n,
  first_total_mono (o - 27) (n - 27) (omega arith),
)

blocks_mono : (a b : ℕ) → a ≤ b → count_data_block a ≤ count_data_block b
unfolding count_data_block
blocks_mono a b h = omega arith

-- No count of blocks that an inode can number overflows.
pub total_for-lt : (n : ℕ) → n ≤ data_limit → total_for n < 2 ^ 32
unfolding total_for
total_for-lt n h = ground arith

-- What `blocks_num_needed` asks for is the growth of the total, where nothing overflows.
pub blocks_num_needed-total :
    (ino : DiskInode) (new_size k : ℕ)
    → count_data_block new_size ≤ data_limit
    → blocks_num_needed ino new_size ≡ some k
    → (count_data_block ino.size ≤ count_data_block new_size)
      × (k + total_for (count_data_block ino.size) ≡ total_for (count_data_block new_size))
unfolding blocks_num_needed count_total_block
blocks_num_needed-total ino new_size k h e = elim (Bool-cases (leb ino.size new_size)) [
  | inl grows ↦
      let o : ℕ = count_data_block ino.size in
      let n : ℕ = count_data_block new_size in
      let le : o ≤ n = blocks_mono ino.size new_size (leb→le _ _ grows) in
      let e₁ : total_for n % 2 ^ 32 - total_for o % 2 ^ 32 ≡ k =
        some-injective _ _ (rw (blocks_num_needed, grows) at e) in
      (le, omega (arith, e₁, total_for-lt n h, total_for_mono o n le))
  | inr shrinks ↦ let e₁ : none ≡ some k = rw (blocks_num_needed, shrinks) at e in cc
]

-- Given as many new blocks as `blocks_num_needed` asks for, `increase_size` to a size that an inode
-- can hold does not panic: every `unwrap` of the iterator finds a block, none is left over, and the
-- inode has the new size.
pub increase_size-blocks_num_needed :
    (ino : DiskInode) (new_size : ℕ) (new_blocks : List ℕ) (st : Store)
    → length ino.direct ≡ 27
    → count_data_block new_size ≤ data_limit
    → blocks_num_needed ino new_size ≡ some (length new_blocks)
    → (g : Grown) × (increase_size ino new_size new_blocks st ≡ some g)
      × (g.blocks ≡ [])
      × (g.inode.size ≡ new_size)
      × (length g.inode.direct ≡ 27)
unfolding increase_size
increase_size-blocks_num_needed ino new_size new_blocks st d h needed =
    let o : ℕ = count_data_block ino.size in
    let n : ℕ = count_data_block new_size in
    let (le, grows) = blocks_num_needed-total ino new_size (length new_blocks) h needed in
    let low = total_for-levels o in
    let high = total_for-levels n in
    let behind = first_total_mono (o - 27) (n - 27) (omega arith) in
    let rounds : ℕ = min n 27 - o in
    let (direct', run, same) =
      grow_direct-drop rounds o ino.direct new_blocks (omega (arith, low, high, grows, behind))
        (omega (arith, d)) in
    let ino' : DiskInode = record ino { size = new_size; direct = direct' } in
    let l : Level = record {
      root = 0;
      block_index = o + rounds;
      new_total_blocks = n;
      blocks = drop rounds new_blocks;
      store = st;
    } in
    elim (Bool-cases (leb n 27)) [
      | inl fits ↦
          let z : n - 27 ≡ 0 = ground arith in
          let z' : o - 27 ≡ 0 = ground arith in
          (
            grown ino' l,
            rw (run, fits),
            no_length (drop rounds new_blocks) (
                ground (
                  arith,
                  length-drop rounds new_blocks,
                  low,
                  high,
                  grows,
                  ap first_total z,
                  ap first_total z',
                )),
            refl,
            same ∙ d,
          )
      | inr more ↦
          let big : 27 < n = ground arith in
          let b : o + rounds - 27 ≡ o - 27 = omega arith in
          let (g, run', none_left, size, direct) =
            grow_first-Uses ino' l (omega arith) (omega arith) big (omega arith)
              (rw b (omega (arith, length-drop rounds new_blocks, low, high, grows, behind))) in
          (g, rw (run, more) run', none_left, size, ap length direct ∙ same ∙ d)
    ]
