-- ===== src/EasyFs/Layout/Data/Bytes.antt =====
-- A file of data blocks as a sequence of bytes.
use lemon_core.Base.{
  ℕ, zero, suc, ◌+◌, ◌*◌, ◌/◌, ◌%◌, ◌≤◌, ◌<◌, ◌≡◌, refl, sym, ap, ap₂, ◌∙◌, true, some, List, [],
  ◌∷◌, ◌++◌, arith, leb, length, get_or, take, drop,
}
use lemon_core.EasyFs.Layout.{DiskInode}
use lemon_core.EasyFs.Layout.Tree.{Store, block_id}
use lemon_core.EasyFs.Layout.Data.{DataBlocks, slice}

-- The values of `f` at `a`, `a + 1`, …, `n` of them.
abbrev pub tabulate {ℓ} : {A : Type ℓ} → (ℕ → A) → ℕ → ℕ → List A
tabulate f a zero = []
tabulate f a (suc n) = f a ∷ tabulate f (a + 1) n

pub tabulate-append {ℓ} :
    {A : Type ℓ} (f : ℕ → A) (a m n : ℕ)
    → tabulate f a m ++ tabulate f (a + m) n ≡ tabulate f a (m + n)
tabulate-append f a zero n =
    let z : a + 0 ≡ a = omega arith in let m : 0 + n ≡ n = omega arith in rw (z, m)
tabulate-append f a (suc m) n =
    let e : a + suc m ≡ a + 1 + m = omega arith in
    let s : suc m + n ≡ suc (m + n) = omega arith in
    rw (e, s) (ap (λ xs. f a ∷ xs) (tabulate-append f (a + 1) m n))

pub tabulate_ext {ℓ} :
    {A : Type ℓ} (f g : ℕ → A) (a b n : ℕ)
    → ((i : ℕ) → i < n → f (a + i) ≡ g (b + i))
    → tabulate f a n ≡ tabulate g b n
tabulate_ext f g a b zero h = refl
tabulate_ext f g a b (suc n) h =
    let first : f a ≡ g b =
      ap f (sym (let z : a + 0 ≡ a = omega arith in z))
      ∙ h 0 (omega arith)
      ∙ ap g (let z : b + 0 ≡ b = omega arith in z) in
    ap₂ (λ x xs. x ∷ xs) first
      (tabulate_ext f g (a + 1) (b + 1) n
        (λ i l. ap f (omega arith) ∙ h (i + 1) (omega arith) ∙ ap g (omega arith)))

pub length-tabulate {ℓ} : {A : Type ℓ} (f : ℕ → A) (a n : ℕ) → length (tabulate f a n) ≡ n
length-tabulate f a zero = refl
length-tabulate f a (suc n) = ap suc (length-tabulate f (a + 1) n)

-- A slice of a list, as the values at its indices.
take-drop-tabulate :
    (xs : List ℕ) (o n : ℕ)
    → o + n ≤ length xs
    → take n (drop o xs) ≡ tabulate (λ i. get_or xs i 0) o n
take-drop-tabulate [] zero zero h = refl
take-drop-tabulate [] zero (suc n) h = absurd (omega arith)
take-drop-tabulate [] (suc o) n h = absurd (omega arith)
take-drop-tabulate (x ∷ xs) zero zero h = refl
take-drop-tabulate (x ∷ xs) zero (suc n) h =
    ap (λ ys. x ∷ ys)
      (take-drop-tabulate xs 0 n (omega arith)
        ∙ tabulate_ext (λ i. get_or xs i 0) (λ i. get_or (x ∷ xs) i 0) 0 (0 + 1) n
            (λ i l. shift x xs i))
  where
    shift : (x : ℕ) (xs : List ℕ) (i : ℕ) → get_or xs (0 + i) 0 ≡ get_or (x ∷ xs) (0 + 1 + i) 0
    shift x xs i =
        let e : 0 + 1 + i ≡ suc i = omega arith in let z : 0 + i ≡ i = omega arith in rw (e, z)
take-drop-tabulate (x ∷ xs) (suc o) n h =
    take-drop-tabulate xs o n (omega arith)
    ∙ tabulate_ext (λ i. get_or xs i 0) (λ i. get_or (x ∷ xs) i 0) o (suc o) n
        (λ i l. let e : suc o + i ≡ suc (o + i) = omega arith in rw e)

pub tabulate-get_or : (xs : List ℕ) → tabulate (λ i. get_or xs i 0) 0 (length xs) ≡ xs
tabulate-get_or [] = refl
tabulate-get_or (x ∷ xs) =
    ap (λ ys. x ∷ ys)
      (tabulate_ext (λ i. get_or (x ∷ xs) i 0) (λ i. get_or xs i 0) (0 + 1) 0 (length xs)
          (λ i l.
            let e : 0 + 1 + i ≡ suc i = omega arith in let z : 0 + i ≡ i = omega arith in rw (e, z))
        ∙ tabulate-get_or xs)

pub slice-eq-some :
    (xs : List ℕ) (o n : ℕ)
    → o + n ≤ length xs
    → slice xs o n ≡ some (tabulate (λ i. get_or xs i 0) o n)
unfolding slice
slice-eq-some xs o n h =
    let fits : leb (o + n) (length xs) ≡ true = ground arith in
    rw (fits, take-drop-tabulate xs o n h)

-- The data blocks that the size of an inode takes, each with 512 bytes: the id of each.
pub record IsStored (ino : DiskInode) (st : Store) (blocks : DataBlocks) (ids : ℕ → ℕ)
    : Type 0 where
  pub named : (k : ℕ) → k * 512 < ino.size → block_id ino k st ≡ some (ids k)
  pub whole : (k : ℕ) → k * 512 < ino.size → length (blocks (ids k)) ≡ 512

-- Byte `p` of the file.
abbrev pub byte_at : DataBlocks → (ℕ → ℕ) → ℕ → ℕ
byte_at blocks ids p = get_or (blocks (ids (p / 512))) (p % 512) 0
