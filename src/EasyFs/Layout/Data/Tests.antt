-- ===== src/EasyFs/Layout/Data/Tests.antt =====
-- A file of 700 bytes in two blocks.
use lemon_core.Base.{
  ℕ, zero, suc, ◌+◌, ◌-◌, ◌*◌, ◌<◌, min, ◌≡◌, refl, some, [], ◌∷◌, arith, length, replicate,
  length-replicate,
}
use lemon_core.EasyFs.Layout.{DiskInode, file}
use lemon_core.EasyFs.Layout.Tree.{Store, block_id}
use lemon_core.EasyFs.Layout.Data.{DataBlocks, read_at, write_at}
use lemon_core.EasyFs.Layout.Data.Bytes.{tabulate, IsStored, byte_at}
use lemon_core.EasyFs.Layout.Data.Reads.{read_at-byte_at}
use lemon_core.EasyFs.Layout.Data.Writes.{IsInjective, IsWritten}
use lemon_core.EasyFs.Layout.Data.RoundTrip.{write_at-IsWritten, read_at-write_at}

abbrev inode : DiskInode
inode = record {
  kind = file;
  size = 700;
  direct = 40 ∷ 41 ∷ [];
  indirect1 = 0;
  indirect2 = 0;
  indirect3 = 0;
}

abbrev st : Store
st j k = 0

abbrev ids : ℕ → ℕ
ids k = 40 + k

abbrev blocks : DataBlocks
blocks id = replicate 512 id

inode-IsStored : IsStored inode st blocks ids
unfolding block_id
inode-IsStored = record { named = λ k h. go k h; whole = λ k h. length-replicate 512 (40 + k) }
  where
    go : (k : ℕ) → k * 512 < 700 → block_id inode k st ≡ some (ids k)
    go zero h = refl
    go (suc zero) h = refl
    go (suc (suc k)) h = absurd (omega arith)

ids-IsInjective : IsInjective inode ids
ids-IsInjective j k h l e = omega arith

-- Bytes 510 to 513: two of the first block and two of the second.
read_at-byte_at_example :
    read_at inode st blocks 510 4
    ≡ some (tabulate (byte_at blocks ids) 510 (min (510 + 4) inode.size - 510))
read_at-byte_at_example = read_at-byte_at inode st blocks ids 510 4 inode-IsStored

bytes_read :
    tabulate (byte_at blocks ids) 510 (min (510 + 4) inode.size - 510) ≡ 40 ∷ 40 ∷ 41 ∷ 41 ∷ []
bytes_read = refl

write_at-IsWritten_example :
    (new : DataBlocks) × (write_at inode st blocks 511 (7 ∷ 8 ∷ [])
      ≡ some (min (511 + length {A = ℕ} (7 ∷ 8 ∷ [])) inode.size - 511, new))
    × IsWritten inode st ids
        (7 ∷ 8 ∷ [])
        0
        511
        (min (511 + length {A = ℕ} (7 ∷ 8 ∷ [])) inode.size)
        blocks
        new
write_at-IsWritten_example =
    write_at-IsWritten inode st blocks ids 511 (7 ∷ 8 ∷ []) inode-IsStored ids-IsInjective
      (omega arith) (omega arith)

read_at-write_at_example :
    (new : DataBlocks) × (write_at inode st blocks 511 (7 ∷ 8 ∷ []) ≡ some (2, new))
    × (read_at inode st new 511 2 ≡ some (7 ∷ 8 ∷ []))
read_at-write_at_example =
    read_at-write_at inode st blocks ids 511 (7 ∷ 8 ∷ []) inode-IsStored ids-IsInjective
      (omega arith) (omega arith)
