-- ===== src/EasyFs/Layout/Data/RoundTrip.antt =====
-- `write_at` as a whole, and `read_at` after it.
use lemon_core.Base.{
  ℕ, zero, suc, ◌+◌, ◌-◌, ◌/◌, ◌%◌, ◌≤◌, ◌<◌, min, ◌≡◌, refl, ap, subst, ◌∙◌, ◌≢◌, inl, inr, true,
  some, List, arith, leb, ◌==◌, if◌then◌else◌, ==_iff, Bool-cases, length, get_or,
}
use lemon_core.EasyFs.Layout.{DiskInode}
use lemon_core.EasyFs.Layout.Tree.{Store, block_id}
use lemon_core.EasyFs.Layout.Data.{
  read_at, DataBlocks, chunk_end, slice, splice, write_block, write_loop, write_at,
}
use lemon_core.EasyFs.Layout.Data.Bytes.{tabulate-get_or, tabulate_ext, tabulate, IsStored, byte_at}
use lemon_core.EasyFs.Layout.Data.Reads.{read_at-byte_at}
use lemon_core.EasyFs.Layout.Data.Writes.{IsInjective, IsWritten, round-IsWritten, IsWritten-both}

module _ (ino : DiskInode) (st : Store) (ids : ℕ → ℕ) (inj : IsInjective ino ids)
    (buf : List ℕ) where
  write_round :
      (rounds start start_block end w id : ℕ) (old : DataBlocks) (src b : List ℕ)
      → block_id ino start_block st ≡ some id
      → slice buf w (chunk_end start end - start) ≡ some src
      → splice (old id) (start % 512) src ≡ some b
      → write_loop ino st buf (suc rounds) start start_block end (w, old) ≡ (
          if chunk_end start end == end
          then some (w + (chunk_end start end - start), write_block old id b)
          else write_loop ino st buf rounds
              (chunk_end start end)
              (start_block + 1)
              end
              (w + (chunk_end start end - start), write_block old id b))
  unfolding write_loop
  write_round rounds start start_block end w id old src b found read spliced =
      rw (found, read, spliced) refl

  write_loop-IsWritten :
      (rounds start start_block end w : ℕ) (old : DataBlocks)
      → IsStored ino st old ids
      → start_block ≡ start / 512
      → start < end
      → end ≤ ino.size
      → end - start ≤ rounds
      → w + (end - start) ≤ length buf
      → (new : DataBlocks) × (write_loop ino st buf rounds start start_block end (w, old)
          ≡ some (w + (end - start), new))
        × IsWritten ino st ids buf w start end old new
  write_loop-IsWritten zero start start_block end w old v b l h r k = absurd (omega arith)
  write_loop-IsWritten (suc rounds) start start_block end w old v b l h r k =
      let stop : ℕ = chunk_end start end in
      let n : ℕ = stop - start in
      let found : block_id ino start_block st ≡ some (ids (start / 512)) =
        ap (λ k. block_id ino k st) b ∙ v.named (start / 512) (omega arith) in
      let here : start + n ≡ stop = omega arith in
      let (src, block, read, spliced, done) =
        round-IsWritten ino st ids inj buf w start n old v (omega arith) (omega arith) (omega arith)
          (omega arith) in
      let new : DataBlocks = write_block old (ids (start / 512)) block in
      let unrolled =
        write_round rounds start start_block end w (ids (start / 512)) old src block found read
          spliced in
      let part : IsWritten ino st ids buf w start stop old new =
        subst (λ e. IsWritten ino st ids buf w start e old new) here done in
      elim (Bool-cases (stop == end)) [
        | inl last ↦
            let e : stop ≡ end = (==_iff stop end).0 last in
            (
              new,
              unrolled ∙ rw last (ap (λ q. some (w + (q - start), new)) e),
              subst (λ q. IsWritten ino st ids buf w start q old new) e part,
            )
        | inr more ↦
            let e : stop ≢ end = λ q. cc ((==_iff stop end).1 q) in
            let (newer, rest, both) =
              write_loop-IsWritten rounds stop (start_block + 1) end (w + n) new part.stored
                (omega (arith, e)) (omega (arith, e)) h (omega (arith, e)) (omega (arith, e)) in
            let there : w + n + (end - stop) ≡ w + (end - start) = omega (arith, e) in
            (
              newer,
              unrolled ∙ rw more (rest ∙ ap (λ q. some (q, newer)) there),
              IsWritten-both ino st ids inj buf w start stop end old new newer (omega arith)
                  (omega arith) part both,
            )
      ]

-- `write_at` of a buffer that is not empty, at an offset inside an inode whose blocks are stored and
-- stand for one part of the file each: it does not panic and ends within its rounds, returns
-- the number of bytes up to the end of the buffer or of the file, and leaves
-- the file with these bytes from the buffer and each other byte as it was.
pub write_at-IsWritten :
    (ino : DiskInode) (st : Store) (old : DataBlocks) (ids : ℕ → ℕ) (offset : ℕ) (buf : List ℕ)
    → IsStored ino st old ids
    → IsInjective ino ids
    → offset < ino.size
    → 1 ≤ length buf
    → (new : DataBlocks) × (write_at ino st old offset buf
        ≡ some (min (offset + length buf) ino.size - offset, new))
      × IsWritten ino st ids buf 0 offset (min (offset + length buf) ino.size) old new
unfolding write_at
write_at-IsWritten ino st old ids offset buf v inj l b =
    let end : ℕ = min (offset + length buf) ino.size in
    let ok : leb offset end ≡ true = ground arith in
    let (new, done, w) =
      write_loop-IsWritten ino st ids inj buf (suc (end - offset)) offset (offset / 512) end 0 old v
        refl (omega arith) (omega arith) (omega arith) (omega arith) in
    let z : 0 + (end - offset) ≡ end - offset = omega arith in
    (new, rw ok (done ∙ ap (λ k. some (k, new)) z), w)

-- What `read_at` reads back after `write_at` of a buffer inside the file is that buffer.
pub read_at-write_at :
    (ino : DiskInode) (st : Store) (old : DataBlocks) (ids : ℕ → ℕ) (offset : ℕ) (buf : List ℕ)
    → IsStored ino st old ids
    → IsInjective ino ids
    → offset + length buf ≤ ino.size
    → 1 ≤ length buf
    → (new : DataBlocks) × (write_at ino st old offset buf ≡ some (length buf, new))
      × (read_at ino st new offset (length buf) ≡ some buf)
read_at-write_at ino st old ids offset buf v inj l b =
    let (new, done, w) = write_at-IsWritten ino st old ids offset buf v inj (omega arith) b in
    let n : min (offset + length buf) ino.size - offset ≡ length buf = omega arith in
    (
      new,
      done ∙ ap (λ k. some (k, new)) n,
      read_at-byte_at ino st new ids offset (length buf) w.stored
          ∙ ap (λ k. some (tabulate (byte_at new ids) offset k)) n
          ∙ ap some (
              tabulate_ext (byte_at new ids) (λ i. get_or buf i 0) offset 0 (length buf)
                (λ i h. w.bytes (offset + i) (omega arith) ∙ ground arith)
              ∙ tabulate-get_or buf),
    )
