-- ===== src/EasyFs/Layout/Entry/Names.antt =====
-- The name of a directory entry.
use lemon_core.Base.{
  ℕ, zero, suc, ◌-◌, ◌/◌, ◌%◌, ◌≤◌, ◌<◌, ◌≡◌, refl, ap, ◌≢◌, ◌⊎◌, inl, inr, Bool, true, false, none,
  some, List, [], ◌∷◌, ◌++◌, arith, leb, ◌==◌, leb→le, Bool-cases, length, length-append, replicate,
  length-replicate, All,
}
use lemon_core.EasyFs.Layout.Entry.{DirEntry, new, before_zero, name, as_bytes}

before_zero-append :
    (xs : List ℕ) (n : ℕ) → All (λ c. c ≢ 0) xs → before_zero (xs ++ replicate n 0) ≡ xs
unfolding before_zero
before_zero-append [] zero a = refl
before_zero-append [] (suc n) a = refl
before_zero-append (x ∷ xs) n a =
    let nz : x == 0 ≡ false = ground (arith, a.0) in
    rw nz (ap (λ ys. x ∷ ys) (before_zero-append xs n a.1))

-- An entry of a name of at most 28 bytes, none of them 0, gives the name back, and takes 32 bytes on
-- the disk; a longer name is a panic.
pub name-new :
    (is_utf8 : List ℕ → Bool) (xs : List ℕ) (inode_number : ℕ)
    → All (λ c. c ≢ 0) xs
    → is_utf8 xs ≡ true
    → ((28 < length xs) × (new xs inode_number ≡ none))
      ⊎ ((e : DirEntry) × (new xs inode_number ≡ some e)
          × (name is_utf8 e ≡ some xs)
          × (length (as_bytes e) ≡ 32))
unfolding new name as_bytes
name-new is_utf8 xs inode_number a u = elim (Bool-cases (leb (length xs) 28)) [
  | inl fits ↦
      let back = before_zero-append xs (28 - length xs) a in
      let l : length xs ≤ 28 = leb→le _ _ fits in
      inr (
        record { bytes = xs ++ replicate (28 - length xs) 0; inode_number = inode_number },
        rw fits,
        rw (back, u),
        omega (
          arith,
          l,
          length-append xs (replicate {A = ℕ} (28 - length xs) 0),
          length-replicate {A = ℕ} (28 - length xs) 0,
          length-append (xs ++ replicate {A = ℕ} (28 - length xs) 0) (
              inode_number % 256
              ∷ inode_number / 256 % 256
              ∷ inode_number / 65536 % 256
              ∷ inode_number / 16777216 % 256
              ∷ []),
        ),
      )
  | inr long ↦ inl (ground arith, rw long)
]
