-- ===== src/EasyFs/Layout/Data.antt =====
-- easy-fs/src/layout.rs: `read_at` and `write_at` of DiskInode, over the data blocks of the device.
use lemon_core.Base.{
  ℕ, zero, suc, ◌+◌, ◌-◌, ◌*◌, ◌/◌, ◌%◌, min, not, Option, none, some, List, [], ◌++◌, leb, ◌==◌,
  if◌then◌else◌, length, take, drop, ◌>>=◌, ◌>>◌, assert,
}
use lemon_core.EasyFs.Config.{block_size}
use lemon_core.EasyFs.Layout.{DiskInode}
use lemon_core.EasyFs.Layout.Tree.{Store, block_id}
pub mod Bytes
pub mod Reads
pub mod RoundTrip
pub mod Splice
pub mod Writes
mod Tests

-- The bytes of each data block, seen through the block cache.
abbrev pub DataBlocks : Type 0
DataBlocks = ℕ → List ℕ

-- `end_current_block`: the end of the block that `start` lies in, or of the span.
abbrev pub chunk_end : ℕ → ℕ → ℕ
chunk_end start end = min ((start / block_size + 1) * block_size) end

-- `&block[from..from + n]`.
pub slice : List ℕ → ℕ → ℕ → Option (List ℕ)
slice block from n = do assert (leb (from + n) (length block)); some (take n (drop from block))

-- `block[from..from + src.len()].copy_from_slice(src)`.
pub splice : List ℕ → ℕ → List ℕ → Option (List ℕ)
splice block from src = do
  assert (leb (from + length src) (length block))
  some (take from block ++ (src ++ drop (from + length src) block))

pub write_block : DataBlocks → ℕ → List ℕ → DataBlocks
write_block blocks id block j = if id == j then block else blocks j

module _ (ino : DiskInode) (st : Store) where
  -- The loop of `read_at`, on the bytes read so far and at most `rounds` rounds; `none` is a panic, or
  -- the loop not over after so many.
  pub read_loop : DataBlocks → ℕ → ℕ → ℕ → ℕ → List ℕ → Option (List ℕ)
  unfolding slice
  read_loop blocks zero start start_block end read = none
  read_loop blocks (suc rounds) start start_block end read =
      let stop = chunk_end start end in
      let next = read_loop blocks rounds stop (start_block + 1) end in
      do
        id ← block_id ino start_block st
        src ← slice (blocks id) (start % block_size) (stop - start)
        if stop == end then some (read ++ src) else next (read ++ src)

  -- `read_at` with a buffer of `n` bytes: the bytes that it puts at the front of the buffer.
  pub read_at : DataBlocks → ℕ → ℕ → Option (List ℕ)
  unfolding read_loop
  read_at blocks offset n =
      let end = min (offset + n) ino.size in
      if leb end offset
      then some []
      else read_loop blocks (end - offset) offset (offset / block_size) end []

  -- The loop of `write_at`, on the number of bytes written so far.
  pub write_loop : List ℕ → ℕ → ℕ → ℕ → ℕ → ℕ × DataBlocks → Option (ℕ × DataBlocks)
  unfolding slice splice write_block
  write_loop buf zero start start_block end (written, blocks) = none
  write_loop buf (suc rounds) start start_block end (written, blocks) =
      let stop = chunk_end start end in
      let next = write_loop buf rounds stop (start_block + 1) end in
      do
        id ← block_id ino start_block st
        src ← slice buf written (stop - start)
        block ← splice (blocks id) (start % block_size) src
        let s : ℕ × DataBlocks = (written + (stop - start), write_block blocks id block)
        if stop == end then some s else next s

  -- The number of bytes written, and the data blocks then.
  pub write_at : DataBlocks → ℕ → List ℕ → Option (ℕ × DataBlocks)
  unfolding write_loop
  write_at blocks offset buf = do
    let end = min (offset + length buf) ino.size
    assert (leb offset end)
    write_loop buf (suc (end - offset)) offset (offset / block_size) end (0, blocks)
