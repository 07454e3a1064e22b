-- ===== src/EasyFs/Layout/Data/Writes.antt =====
-- What `write_at` writes.
use lemon_core.Base.{
  ℕ, ◌+◌, ◌-◌, ◌*◌, ◌/◌, ◌%◌, ◌≤◌, ◌<◌, ◌≡◌, refl, sym, ◌∙◌, ◌≢◌, inl, inr, true, false, some, List,
  arith, ◌==◌, if◌then◌else◌, ==_iff, Bool-cases, length, get_or,
}
use lemon_core.EasyFs.Layout.{DiskInode}
use lemon_core.EasyFs.Layout.Tree.{Store}
use lemon_core.EasyFs.Layout.Data.{DataBlocks, slice, splice, write_block}
use lemon_core.EasyFs.Layout.Data.Bytes.{
  tabulate, length-tabulate, slice-eq-some, IsStored, byte_at,
}
use lemon_core.EasyFs.Layout.Data.Splice.{within, splice-eq-some, get_or-tabulate}

-- No block stands for two parts of the file.
abbrev pub IsInjective : DiskInode → (ℕ → ℕ) → Type 0
IsInjective ino ids = (j k : ℕ) → j * 512 < ino.size → k * 512 < ino.size → ids j ≡ ids k → j ≡ k

-- What a write of `buf` from its index `w` on leaves, to the bytes from `start` to `end` of the file.
pub record IsWritten (ino : DiskInode) (st : Store) (ids : ℕ → ℕ) (buf : List ℕ) (w start end : ℕ)
    (old new : DataBlocks) : Type 0 where
  pub stored : IsStored ino st new ids
  pub bytes :
      (p : ℕ)
      → p < ino.size
      → byte_at new ids p
        ≡ (if within start end p then get_or buf (w + (p - start)) 0 else byte_at old ids p)

module _ (ino : DiskInode) (st : Store) (ids : ℕ → ℕ) (inj : IsInjective ino ids)
    (buf : List ℕ) where
  chunk-IsWritten :
      (w start n : ℕ) (old : DataBlocks) (b : List ℕ)
      → IsStored ino st old ids
      → start % 512 + n ≤ 512
      → start + n ≤ ino.size
      → 1 ≤ n
      → length b ≡ 512
      → ((i : ℕ)
          → get_or b i 0 ≡ (
              if within (start % 512) (start % 512 + n) i
              then get_or buf (w + (i - start % 512)) 0
              else get_or (old (ids (start / 512))) i 0))
      → IsWritten ino st ids buf w start (start + n) old (write_block old (ids (start / 512)) b)
  unfolding write_block
  chunk-IsWritten w start n old b v fits inside some_bytes whole at = record {
    stored = record { named = v.named; whole = λ k h. ground (arith, v.whole k h) };
    bytes = λ p h. elim (Bool-cases (p / 512 == start / 512)) [
      | inl same ↦
          let e : p / 512 ≡ start / 512 = (==_iff _ _).0 same in
          let hit : ids (start / 512) == ids (p / 512) ≡ true = rw e ((==_iff _ _).1 refl) in
          let i : p % 512 - start % 512 ≡ p - start = omega (arith, e) in
          let t : within (start % 512) (start % 512 + n) (p % 512) ≡ within start (start + n) p =
            ground arith in
          rw hit (at (p % 512) ∙ rw (t, i, e))
      | inr other ↦
          let ne : p / 512 ≢ start / 512 = λ q. cc ((==_iff _ _).1 q) in
          let miss : ids (start / 512) == ids (p / 512) ≡ false =
            elim (Bool-cases (ids (start / 512) == ids (p / 512))) [
              | inl q ↦ absurd (
                  ne (
                    sym
                      (inj (start / 512) (p / 512) (omega arith) (omega arith) ((==_iff _ _).0 q))))
              | inr q ↦ q
            ] in
          let out : within start (start + n) p ≡ false = ground arith in rw (miss, out)
    ];
  }

  -- One round, on the part of the span that lies in one block.
  pub round-IsWritten :
      (w start n : ℕ) (old : DataBlocks)
      → IsStored ino st old ids
      → start % 512 + n ≤ 512
      → start + n ≤ ino.size
      → 1 ≤ n
      → w + n ≤ length buf
      → (src : List ℕ) × (b : List ℕ) × (slice buf w n ≡ some src)
        × (splice (old (ids (start / 512))) (start % 512) src ≡ some b)
        × IsWritten ino st ids buf w start (start + n) old (write_block old (ids (start / 512)) b)
  round-IsWritten w start n old v fits inside some_bytes enough =
      let src : List ℕ = tabulate (λ i. get_or buf i 0) w n in
      let size : length src ≡ n = length-tabulate _ w n in
      let whole = v.whole (start / 512) (omega arith) in
      let (b, done, same, at) =
        splice-eq-some (old (ids (start / 512))) (start % 512) src (omega (arith, size, whole)) in
      (
        src,
        b,
        slice-eq-some buf w n enough,
        done,
        chunk-IsWritten w start n old b v fits inside some_bytes (same ∙ whole)
            (λ i. at i ∙ inner size i),
      )
    where
      inner :
          length (tabulate (λ i. get_or buf i 0) w n) ≡ n
          → (i : ℕ)
          → (if within (start % 512) (start % 512 + length (tabulate (λ i. get_or buf i 0) w n)) i
              then get_or (tabulate (λ i. get_or buf i 0) w n) (i - start % 512) 0
              else get_or (old (ids (start / 512))) i 0)
            ≡ (if within (start % 512) (start % 512 + n) i
                then get_or buf (w + (i - start % 512)) 0
                else get_or (old (ids (start / 512))) i 0)
      inner size i = rw size (elim (Bool-cases (within (start % 512) (start % 512 + n) i)) [
        | inl h ↦ rw h (get_or-tabulate (λ i. get_or buf i 0) w n (i - start % 512) (ground arith))
        | inr h ↦ rw h
      ])

  pub IsWritten-both :
      (w start mid end : ℕ) (old new newer : DataBlocks)
      → start ≤ mid
      → mid ≤ end
      → IsWritten ino st ids buf w start mid old new
      → IsWritten ino st ids buf (w + (mid - start)) mid end new newer
      → IsWritten ino st ids buf w start end old newer
  IsWritten-both w start mid end old new newer l r a b = record {
    stored = b.stored;
    bytes = λ p h. b.bytes p h ∙ elim (Bool-cases (within mid end p)) [
      | inl q ↦
          let t : within start end p ≡ true = ground arith in
          let e : w + (mid - start) + (p - mid) ≡ w + (p - start) = ground arith in rw (q, t, e)
      | inr q ↦
          let t : within start mid p ≡ within start end p = ground arith in
          rw q (a.bytes p h ∙ rw t)
    ];
  }
