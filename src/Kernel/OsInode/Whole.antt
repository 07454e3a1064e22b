-- ===== src/Kernel/OsInode/Whole.antt =====
-- What is read from an open file.
use lemon_core.Base.{
  ℕ, zero, suc, ◌+◌, ◌-◌, ◌≤◌, ◌<◌, min, ◌≡◌, refl, sym, ap, ap₂, ◌∙◌, ◌≢◌, inl, inr, true, false,
  Option, some, List, [], ◌∷◌, ◌++◌, append_assoc, append-nil, arith, ◌==◌, ==_iff, Bool-cases,
  length, All,
}
use lemon_core.Kernel.OsInode.{OsInode, read_all_loop, read}
use lemon_core.EasyFs.Layout.{DiskInode}
use lemon_core.EasyFs.Layout.Tree.{Store}
use lemon_core.EasyFs.Layout.Data.{DataBlocks, read_at}
use lemon_core.EasyFs.Layout.Data.Bytes.{
  tabulate, tabulate-append, length-tabulate, IsStored, byte_at,
}
use lemon_core.EasyFs.Layout.Data.Reads.{read_at-byte_at}

-- What the file layer needs of the inodes below: inode `i` has the bytes `bytes` from 0 to `size`, and
-- `read_at` reads as many of them as the buffer takes and the file has.
pub record Reads (reader : ℕ → ℕ → ℕ → Option (List ℕ)) (i size : ℕ) (bytes : ℕ → ℕ) : Type 0 where
  pub law :
      (offset n : ℕ)
      → reader i offset n ≡ some (tabulate bytes offset (min (offset + n) size - offset))

-- `read_at` of a disk inode whose blocks are stored fills the interface.
pub read_at-Reads :
    (ino : DiskInode) (st : Store) (blocks : DataBlocks) (ids : ℕ → ℕ) (i : ℕ)
    → IsStored ino st blocks ids
    → Reads (λ i. read_at ino st blocks) i ino.size (byte_at blocks ids)
read_at-Reads ino st blocks ids i v = record {
  law = λ offset n. read_at-byte_at ino st blocks ids offset n v;
}

-- The sum of the lengths of the buffers.
abbrev pub total : List ℕ → ℕ
total [] = 0
total (len ∷ lens) = len + total lens

module _ (reader : ℕ → ℕ → ℕ → Option (List ℕ)) (size : ℕ) (bytes : ℕ → ℕ) where
  read_all_loop-rest :
      (rounds : ℕ) (f : OsInode) (v : List ℕ)
      → Reads reader f.inode size bytes
      → size - f.offset < rounds
      → f.offset ≤ size
      → read_all_loop reader rounds f v
        ≡ some (v ++ tabulate bytes f.offset (size - f.offset), record f { offset = size })
  unfolding read_all_loop
  read_all_loop-rest zero f v r h l = absurd (omega arith)
  read_all_loop-rest (suc rounds) f v r h l =
      let n : ℕ = min (f.offset + 512) size - f.offset in
      let part : List ℕ = tabulate bytes f.offset n in
      let len : length part ≡ n = length-tabulate bytes f.offset n in
      elim (Bool-cases (f.offset == size)) [
        | inl e ↦
            let eq : f.offset ≡ size = (==_iff f.offset size).0 e in
            let over : length part == 0 ≡ true = ground (arith, len) in
            let nothing_left : size - f.offset ≡ 0 = omega (arith, eq) in
            rw (r.law f.offset 512, over, nothing_left)
              (ap₂ (λ xs o. some (xs, record f { offset = o })) (sym (append-nil v)) eq)
        | inr m ↦
            let more : length part == 0 ≡ false = ground (arith, len) in
            let next : f.offset + length part ≡ f.offset + n = omega (arith, len) in
            let joined : n + (size - (f.offset + n)) ≡ size - f.offset = omega arith in
            rw (r.law f.offset 512, more)
              (read_all_loop-rest rounds (record f { offset = f.offset + length part }) (v ++ part)
                  (record { law = r.law }) (ground (arith, len)) (omega (arith, len))
                ∙ ap (λ xs. some (xs, record f { offset = size }))
                    (append_assoc v part _
                      ∙ ap (λ xs. v ++ xs)
                          (ap (λ k. part ++ tabulate bytes k (size - k)) next
                            ∙ (tabulate-append bytes f.offset n (size - (f.offset + n))
                                ∙ ap (tabulate bytes f.offset) joined))))
      ]

  read_buffers :
      (f : OsInode) (lens : List ℕ)
      → Reads reader f.inode size bytes
      → f.offset ≤ size
      → All (λ n. 1 ≤ n) lens
      → read reader f lens
        ≡ some (
          tabulate bytes f.offset (min (f.offset + total lens) size - f.offset),
          record f { offset = min (f.offset + total lens) size },
        )
  unfolding read
  read_buffers f [] r l a =
      let z : min (f.offset + 0) size - f.offset ≡ 0 = omega arith in
      let o : min (f.offset + 0) size ≡ f.offset = omega arith in rw (z, o) refl
  read_buffers f (len ∷ lens) r l a =
      let n : ℕ = min (f.offset + len) size - f.offset in
      let part : List ℕ = tabulate bytes f.offset n in
      let size_of : length part ≡ n = length-tabulate bytes f.offset n in
      elim (Bool-cases (f.offset == size)) [
        | inl e ↦
            let eq : f.offset ≡ size = (==_iff f.offset size).0 e in
            let over : length part == 0 ≡ true = ground (arith, size_of) in
            let z : min (f.offset + (len + total lens)) size - f.offset ≡ 0 = omega (arith, eq) in
            let o : min (f.offset + (len + total lens)) size ≡ f.offset = omega (arith, eq) in
            rw (r.law f.offset len, over, z, o) refl
        | inr m ↦
            let ne : f.offset ≢ size = λ q. cc ((==_iff f.offset size).1 q) in
            let more : length part == 0 ≡ false = ground (arith, size_of, a.0, ne) in
            let next : f.offset + length part ≡ f.offset + n = omega (arith, size_of) in
            let rest =
              read_buffers (record f { offset = f.offset + n }) lens (record { law = r.law })
                (omega arith) a.1 in
            let reach : min (f.offset + n + total lens) size
                ≡ min (f.offset + (len + total lens)) size =
              omega (arith, a.0) in
            let joined : n + (min (f.offset + n + total lens) size - (f.offset + n))
                ≡ min (f.offset + (len + total lens)) size - f.offset =
              omega (arith, reach) in
            rw (r.law f.offset len, more, next, rest)
              (ap₂ (λ xs o. some (xs, record f { offset = o }))
                (tabulate-append bytes f.offset n _ ∙ ap (tabulate bytes f.offset) joined) reach)
      ]

-- `read_all` gives every byte of the file from the offset on and leaves the offset at the end, as soon
-- as it has a round more than there are bytes left: it ends.
pub read_all_loop-whole :
    (reader : ℕ → ℕ → ℕ → Option (List ℕ)) (size : ℕ) (bytes : ℕ → ℕ) (f : OsInode)
    → Reads reader f.inode size bytes
    → f.offset ≤ size
    → read_all_loop reader (suc (size - f.offset)) f []
      ≡ some (tabulate bytes f.offset (size - f.offset), record f { offset = size })
read_all_loop-whole reader size bytes f r l =
    read_all_loop-rest reader size bytes (suc (size - f.offset)) f [] r (omega arith) l

-- `read` into buffers none of which is empty gives the bytes of the file from the offset on, as many as
-- all buffers take or the file has, and moves the offset past them: how they are cut into
-- buffers does not matter.
pub read-total :
    (reader : ℕ → ℕ → ℕ → Option (List ℕ)) (size : ℕ) (bytes : ℕ → ℕ) (f : OsInode) (lens : List ℕ)
    → Reads reader f.inode size bytes
    → f.offset ≤ size
    → All (λ n. 1 ≤ n) lens
    → read reader f lens
      ≡ some (
        tabulate bytes f.offset (min (f.offset + total lens) size - f.offset),
        record f { offset = min (f.offset + total lens) size },
      )
read-total reader size bytes f lens r l a = read_buffers reader size bytes f lens r l a
