-- ===== src/EasyFs/Layout/Data/Reads.antt =====
-- What `read_at` reads.
use lemon_core.Base.{
  ℕ, zero, suc, ◌+◌, ◌-◌, ◌/◌, ◌%◌, ◌≤◌, ◌<◌, min, ◌≡◌, refl, sym, ap, ◌∙◌, ◌≢◌, inl, inr, some,
  List, [], ◌++◌, append_assoc, arith, leb, ◌==◌, ==_iff, Bool-cases, get_or,
}
use lemon_core.EasyFs.Layout.{DiskInode}
use lemon_core.EasyFs.Layout.Tree.{Store}
use lemon_core.EasyFs.Layout.Data.{DataBlocks, chunk_end, slice, read_loop, read_at}
use lemon_core.EasyFs.Layout.Data.Bytes.{
  tabulate, tabulate-append, tabulate_ext, slice-eq-some, IsStored, byte_at,
}

module _ (ino : DiskInode) (st : Store) (blocks : DataBlocks) (ids : ℕ → ℕ)
    (v : IsStored ino st blocks ids) where
  -- The part of a block that a round reads.
  chunk-bytes :
      (start end : ℕ)
      → start < end
      → end ≤ ino.size
      → slice (blocks (ids (start / 512))) (start % 512) (chunk_end start end - start)
        ≡ some (tabulate (byte_at blocks ids) start (chunk_end start end - start))
  chunk-bytes start end l h =
      slice-eq-some (blocks (ids (start / 512))) (start % 512) (chunk_end start end - start)
        (omega (arith, v.whole (start / 512) (omega arith)))
      ∙ ap some (
          tabulate_ext (λ i. get_or (blocks (ids (start / 512))) i 0) (byte_at blocks ids)
            (start % 512) start (chunk_end start end - start) same)
    where
      same :
          (i : ℕ)
          → i < chunk_end start end - start
          → get_or (blocks (ids (start / 512))) (start % 512 + i) 0 ≡ byte_at blocks ids (start + i)
      same i k =
          let block : (start + i) / 512 ≡ start / 512 = omega arith in
          let offset : (start + i) % 512 ≡ start % 512 + i = omega arith in rw (block, offset)

  read_loop-bytes :
      (rounds start start_block end : ℕ) (read : List ℕ)
      → start_block ≡ start / 512
      → start < end
      → end ≤ ino.size
      → end - start ≤ rounds
      → read_loop ino st blocks rounds start start_block end read
        ≡ some (read ++ tabulate (byte_at blocks ids) start (end - start))
  unfolding read_loop
  read_loop-bytes zero start start_block end read b l h r = absurd (omega arith)
  read_loop-bytes (suc rounds) start start_block end read b l h r =
      let stop : ℕ = chunk_end start end in
      let found = v.named (start / 512) (omega arith) in
      let src = chunk-bytes start end l h in
      elim (Bool-cases (stop == end)) [
        | inl last ↦
            let e : stop ≡ end = (==_iff stop end).0 last in
            rw (b, found, src, last)
              (ap (λ k. some (read ++ tabulate (byte_at blocks ids) start (k - start))) e)
        | inr more ↦
            let e : stop ≢ end = λ q. cc ((==_iff stop end).1 q) in
            let next : start / 512 + 1 ≡ stop / 512 = omega (arith, e) in
            let here : start + (stop - start) ≡ stop = omega arith in
            let there : stop - start + (end - stop) ≡ end - start = omega (arith, e) in
            let front : List ℕ = tabulate (byte_at blocks ids) start (stop - start) in
            rw (b, found, src, more)
              (read_loop-bytes rounds stop (start / 512 + 1) end (read ++ front) next
                  (omega (arith, e)) h (omega (arith, e))
                ∙ ap some (
                    append_assoc read front _
                    ∙ ap (λ xs. read ++ xs)
                        (ap (λ k. front ++ tabulate (byte_at blocks ids) k (end - stop)) (sym here)
                          ∙ tabulate-append (byte_at blocks ids) start (stop - start) (end - stop)
                          ∙ ap (λ k. tabulate (byte_at blocks ids) start k) there)))
      ]

-- `read_at` of an inode whose blocks are stored reads, whole and in order, the bytes of the file
-- from the offset on, as many as the buffer takes and the file has: it does not panic, and the number
-- of rounds that it is given is enough.
pub read_at-byte_at :
    (ino : DiskInode) (st : Store) (blocks : DataBlocks) (ids : ℕ → ℕ) (offset n : ℕ)
    → IsStored ino st blocks ids
    → read_at ino st blocks offset n
      ≡ some (tabulate (byte_at blocks ids) offset (min (offset + n) ino.size - offset))
unfolding read_at
read_at-byte_at ino st blocks ids offset n v =
    elim (Bool-cases (leb (min (offset + n) ino.size) offset)) [
      | inl past ↦ let z : min (offset + n) ino.size - offset ≡ 0 = ground arith in rw (past, z)
      | inr inside ↦ rw inside (
          read_loop-bytes ino st blocks ids v _ offset (offset / 512) (min (offset + n) ino.size) []
            refl (ground arith) (omega arith) (omega arith))
    ]
