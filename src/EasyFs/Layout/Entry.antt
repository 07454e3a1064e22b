-- ===== src/EasyFs/Layout/Entry.antt =====
-- easy-fs/src/layout.rs: the entries of a directory. A name is its bytes; `is_utf8` is the test of
-- `from_utf8`.
use lemon_core.Base.{
  ℕ, zero, ◌+◌, ◌-◌, ◌/◌, ◌%◌, Bool, Option, some, List, [], ◌∷◌, ◌++◌, leb, ◌==◌, if◌then◌else◌,
  length, replicate, ◌>>◌, assert,
}
use lemon_core.EasyFs.Config.{name_length_limit}
pub mod Names
mod Tests

pub record DirEntry : Type 0 where
  pub bytes : List ℕ
  pub inode_number : ℕ

abbrev pub dirent_size : ℕ
dirent_size = name_length_limit + 1 + 4

-- `none` is a name too long for the slice that it is copied into.
pub new : List ℕ → ℕ → Option DirEntry
new name inode_number = do
  assert (leb (length name) (name_length_limit + 1))
  some (record {
    bytes = name ++ replicate (name_length_limit + 1 - length name) 0;
    inode_number = inode_number;
  })

pub empty : DirEntry
empty = record { bytes = replicate (name_length_limit + 1) 0; inode_number = 0 }

-- The bytes before the first 0, or all.
pub before_zero : List ℕ → List ℕ
before_zero [] = []
before_zero (c ∷ cs) = let rest = before_zero cs in if c == 0 then [] else c ∷ rest

pub name : (List ℕ → Bool) → DirEntry → Option (List ℕ)
unfolding before_zero
name is_utf8 e = do assert (is_utf8 (before_zero e.bytes)); some (before_zero e.bytes)

-- The entry in memory: the name, then the number, its lowest byte first.
pub as_bytes : DirEntry → List ℕ
as_bytes e =
    let n = e.inode_number in
    e.bytes ++ (n % 256 ∷ n / 256 % 256 ∷ n / 65536 % 256 ∷ n / 16777216 % 256 ∷ [])
