-- ===== src/Kernel/OsInode.antt =====
-- kernel/src/fs/inode.rs: an open file and its offset, on top of `read_at` and `write_at` of an inode.
use lemon_core.Base.{
  ℕ, zero, suc, ◌+◌, Bool, Option, none, some, List, [], ◌∷◌, ◌++◌, ◌==◌, if◌then◌else◌, length,
  ◌>>=◌, ◌>>◌, assert,
}
pub mod Whole
mod Tests

pub record OsInode : Type 0 where
  pub readable : Bool
  pub writable : Bool
  pub offset : ℕ
  pub inode : ℕ

pub new : Bool → Bool → ℕ → OsInode
new readable writable inode = record {
  readable = readable;
  writable = writable;
  offset = 0;
  inode = inode;
}

-- `read_at` of inode `i` at an offset with a buffer of so many bytes: the bytes that it reads.
module _ (read_at : ℕ → ℕ → ℕ → Option (List ℕ)) where
  -- The loop of `read_all`, on what was read so far and at most `rounds` rounds.
  pub read_all_loop : ℕ → OsInode → List ℕ → Option (List ℕ × OsInode)
  read_all_loop zero f v = none
  read_all_loop (suc rounds) f v = do
    src ← read_at f.inode f.offset 512
    if length src == 0
        then some (v, f)
        else read_all_loop rounds (record f { offset = f.offset + length src }) (v ++ src)

  -- `read` into buffers of the given lengths: the bytes read, in the order of the buffers. A buffer into
  -- which nothing is read ends the loop.
  pub read : OsInode → List ℕ → Option (List ℕ × OsInode)
  read f [] = some ([], f)
  read f (len ∷ lens) =
      let rest = λ (src : List ℕ). read (record f { offset = f.offset + length src }) lens in
      do
        src ← read_at f.inode f.offset len
        if length src == 0 then some ([], f) else (do (more, f') ← rest src; some (src ++ more, f'))

-- `write_at` of inode `i` at an offset, on a state of its own: how many bytes it writes.
module _ {S : Type 0} (write_at : ℕ → ℕ → List ℕ → S → Option (ℕ × S)) where
  pub write : OsInode → List (List ℕ) → S → Option (ℕ × OsInode × S)
  write f [] s = some (0, f, s)
  write f (buf ∷ bufs) s = do
    (write_size, s') ← write_at f.inode f.offset buf s
    assert (write_size == length buf)
    (total, f', s'') ← write (record f { offset = f.offset + write_size }) bufs s'
    some (write_size + total, f', s'')
