-- ===== src/EasyFs/Layout/Resize/Decrease.antt =====
-- What `decrease_size` of easy-fs/src/layout.rs drops.
use lemon_core.Base.{
  ℕ, zero, suc, ◌+◌, ◌-◌, ◌≤◌, ◌<◌, min, ◌≡◌, refl, sym, ap, ◌∙◌, true, false, some, List, [], ◌∷◌,
  ◌++◌, append_assoc, append-nil, drop, arith, leb, ◌==◌, length, get_elem?, set, length-set,
  get_or, get_elem?-eq-get_or, store-eq-some,
}
use Prim.Native.Nat.add
use lemon_core.EasyFs.Layout.{DiskInode, count_data_block}
use lemon_core.EasyFs.Layout.Tree.{Store, block_id, collect_tree}
use lemon_core.EasyFs.Layout.Tree.Collect.{
  entry_ids, length-entry_ids, collect_tree-ids, block_id-indirect1, get_elem?-entry_ids,
}
use lemon_core.EasyFs.Layout.Resize.{shrink_direct, shrink_first, drop_root, decrease_size}

drop-all : (i : ℕ) (xs : List ℕ) → length xs ≤ i → drop i xs ≡ []
drop-all zero [] h = refl
drop-all zero (x ∷ xs) h = absurd (omega (arith, h))
drop-all (suc i) [] h = refl
drop-all (suc i) (x ∷ xs) h = drop-all i xs (omega (arith, h))

drop-set : (i : ℕ) (xs : List ℕ) (v : ℕ) → drop (suc i) (set xs i v) ≡ drop (suc i) xs
drop-set i [] v = refl
drop-set zero (x ∷ xs) v = refl
drop-set (suc i) (x ∷ xs) v = drop-set i xs v

drop-get_or : (i : ℕ) (xs : List ℕ) → i < length xs → drop i xs ≡ get_or xs i 0 ∷ drop (suc i) xs
drop-get_or i [] h = absurd (omega (arith, h))
drop-get_or zero (x ∷ xs) h = refl
drop-get_or (suc i) (x ∷ xs) h = drop-get_or i xs (omega (arith, h))

-- The loop over the direct blocks, to their end, drops their ids in order.
shrink_direct-drops :
    (rounds i : ℕ) (direct dropped : List ℕ)
    → i + rounds ≡ length direct
    → (direct' : List ℕ) × (shrink_direct rounds i direct dropped
        ≡ some (direct', dropped ++ drop i direct))
      × (length direct' ≡ length direct)
unfolding shrink_direct
shrink_direct-drops zero i direct dropped h =
    let e : drop i direct ≡ [] = drop-all i direct (omega (arith, h)) in
    (direct, rw (e, append-nil dropped) refl, refl)
shrink_direct-drops (suc rounds) i direct dropped h =
    let b : ℕ = get_or direct i 0 in
    let here : i < length direct = omega (arith, h) in
    let next : i + 1 ≡ suc i = omega arith in
    let (direct', run, same) =
      shrink_direct-drops rounds (suc i) (set direct i 0) (dropped ++ (b ∷ []))
        (omega (arith, h, length-set direct i 0)) in
    let ids : some (direct', (dropped ++ (b ∷ [])) ++ drop (suc i) (set direct i 0))
        ≡ some (direct', dropped ++ drop i direct) =
      ap (λ xs. some (direct', xs))
        (ap (λ xs. (dropped ++ (b ∷ [])) ++ xs) (drop-set i direct 0)
          ∙ append_assoc dropped (b ∷ []) (drop (suc i) direct)
          ∙ ap (λ xs. dropped ++ xs) (sym (drop-get_or i direct here))) in
    (
      direct',
      rw (get_elem?-eq-get_or direct i 0 here, store-eq-some direct i 0 here, next) run ∙ ids,
      same ∙ length-set direct i 0,
    )

-- A file of more than 27 data blocks that shrinks to at most 27 gives back the ids of the direct blocks
-- behind those that it keeps, and no others: the blocks behind its indirect roots stay allocated, and
-- the inode, though it no longer counts them, still names these roots.
pub decrease_size-leak :
    (ino : DiskInode) (new_size : ℕ) (st : Store)
    → length ino.direct ≡ 27
    → 27 < count_data_block ino.size
    → count_data_block new_size ≤ 27
    → (ino' : DiskInode) × (dropped : List ℕ) × (decrease_size ino new_size st
        ≡ some (ino', dropped))
      × (dropped ≡ drop (count_data_block new_size) ino.direct)
      × (ino'.size ≡ new_size)
      × (ino'.indirect1 ≡ ino.indirect1)
      × (ino'.indirect2 ≡ ino.indirect2)
      × (ino'.indirect3 ≡ ino.indirect3)
unfolding decrease_size
decrease_size-leak ino new_size st d old new =
    let o : ℕ = count_data_block ino.size in
    let n : ℕ = count_data_block new_size in
    let rounds : ℕ = min o 27 - n in
    let (direct', run, _) = shrink_direct-drops rounds n ino.direct [] (omega (arith, d)) in
    let stop : leb (n + rounds) 27 ≡ true = ground arith in
    (
      record ino { size = new_size; direct = direct' },
      drop n ino.direct,
      rw (run, stop),
      refl,
      refl,
      refl,
      refl,
      refl,
    )

-- A file that keeps between 28 and 155 data blocks gives back as many ids as it keeps blocks behind the
-- direct ones, and just these: each id that it drops is still the id of one of its data blocks.
pub decrease_size-frees_kept :
    (ino : DiskInode) (new_size : ℕ) (st : Store)
    → length ino.direct ≡ 27
    → 27 < count_data_block new_size
    → count_data_block new_size ≤ count_data_block ino.size
    → count_data_block new_size ≤ 155
    → (ino' : DiskInode) × (dropped : List ℕ) × (decrease_size ino new_size st
        ≡ some (ino', dropped))
      × (length dropped ≡ count_data_block new_size - 27)
      × ((k : ℕ)
          → k < count_data_block new_size - 27
          → get_elem? dropped k ≡ block_id ino' (27 + k) st)
unfolding decrease_size shrink_first drop_root shrink_direct
decrease_size-frees_kept ino new_size st d new order small =
    let o : ℕ = count_data_block ino.size in
    let n : ℕ = count_data_block new_size in
    let z : min o 27 - n ≡ 0 = omega arith in
    let whole : n + 0 ≡ n = omega arith in
    let left : ℕ = n - 27 in
    let left₀ : left - 0 ≡ left = omega arith in
    let m : min 128 left ≡ left = omega arith in
    let goes_on : leb n 27 ≡ false = ground arith in
    let has_root : o == 27 ≡ false = ground arith in
    let enough : leb 27 o ≡ true = ground arith in
    let fits : leb left 128 ≡ true = ground arith in
    let dropped : List ℕ = (collect_tree 1 st left ino.indirect1 ([], 0)).0 in
    let ids : dropped ≡ entry_ids st ino.indirect1 0 left =
      rw (left₀, m) at (collect_tree-ids st left ino.indirect1 []) in
    (
      record ino { size = new_size },
      dropped,
      rw (z, shrink_direct, whole, goes_on, has_root, enough, fits),
      ap (λ (xs : List ℕ). length xs) ids ∙ length-entry_ids st ino.indirect1 0 left,
      λ k h.
          ap (λ xs. get_elem? xs k) ids
          ∙ get_elem?-entry_ids st ino.indirect1 0 left k h
          ∙ rw add.zero (sym (block_id-indirect1 ino' st k (omega arith))),
    )
  where
    ino' : DiskInode
    ino' = record ino { size = new_size }
