-- ===== src/EasyFs/BlockCache/View.antt =====
-- The blocks as the file system sees them: the cached copy, or else the device's.
use lemon_core.Base.{
  ℕ, zero, suc, ◌≡◌, refl, sym, ap, subst, ◌≢◌, some, List, [], ◌∷◌, ◌++◌, arith, ◌==◌,
  if◌then◌else◌, length, get_elem?, set, length-append, All,
}
use lemon_core.EasyFs.BlockCache.{Block, Device, BlockCache, last_or, drop_last}

-- The block with number `j`, given what lies behind the queue.
abbrev pub look : Device → List BlockCache → ℕ → Block
look dev [] j = dev j
look dev (c ∷ cs) j = if c.block_id == j then c.cache else look dev cs j

abbrev pub Fresh : ℕ → List BlockCache → Type 0
Fresh id cs = All (λ c. c.block_id ≢ id) cs

-- No block is cached twice.
abbrev pub Apart : List BlockCache → Type 0
Apart [] = Unit {0}
Apart (c ∷ cs) = Fresh c.block_id cs × Apart cs

pub look_fresh : (dev : Device) (cs : List BlockCache) (j : ℕ) → Fresh j cs → look dev cs j ≡ dev j
look_fresh dev [] j f = refl
look_fresh dev (c ∷ cs) j f = ground (arith, look_fresh dev cs j f.1)

pub look_device :
    (dev dev' : Device) (cs : List BlockCache) (j : ℕ)
    → dev' j ≡ dev j
    → look dev' cs j ≡ look dev cs j
look_device dev dev' [] j e = e
look_device dev dev' (c ∷ cs) j e = ground (arith, look_device dev dev' cs j e)

pub All-append {ℓ κ} :
    {A : Type ℓ} (P : A → Type κ) (xs : List A) (y : A) → All P (xs ++ (y ∷ [])) → All P xs × P y
All-append P [] y a = (tt, a.0)
All-append P (x ∷ xs) y a = let (b, p) = All-append P xs y a.1 in ((a.0, b), p)

pub All-snoc {ℓ κ} :
    {A : Type ℓ} (P : A → Type κ) (xs : List A) (y : A) → All P xs → P y → All P (xs ++ (y ∷ []))
All-snoc P [] y a p = (p, tt)
All-snoc P (x ∷ xs) y a p = (a.0, All-snoc P xs y a.1 p)

pub Apart-snoc :
    (xs : List BlockCache) (y : BlockCache)
    → Apart xs
    → Fresh y.block_id xs
    → Apart (xs ++ (y ∷ []))
Apart-snoc [] y a f = (tt, tt)
Apart-snoc (x ∷ xs) y a f =
    (All-snoc (λ c. c.block_id ≢ x.block_id) xs y a.0 (λ e. f.0 (sym e)), Apart-snoc xs y a.1 f.1)

-- The last element may as well stand first.
rotate : (xs : List BlockCache) (l : BlockCache) → Apart (xs ++ (l ∷ [])) → Apart (l ∷ xs)
rotate [] l a = a
rotate (x ∷ xs) l a =
    let (f, ne) = All-append (λ c. c.block_id ≢ x.block_id) xs l a.0 in
    let (g, b) = rotate xs l a.1 in (((λ e. ne (sym e)), g), (f, b))

look-rotate :
    (dev : Device) (xs : List BlockCache) (l : BlockCache) (j : ℕ)
    → Apart (xs ++ (l ∷ []))
    → look dev (xs ++ (l ∷ [])) j ≡ look dev (l ∷ xs) j
look-rotate dev [] l j a = refl
look-rotate dev (x ∷ xs) l j a =
    let (f, ne) = All-append (λ c. c.block_id ≢ x.block_id) xs l a.0 in
    ground (arith, look-rotate dev xs l j a.1)

snoc_last :
    (c : BlockCache) (cs : List BlockCache) → c ∷ cs ≡ drop_last (c ∷ cs) ++ (last_or c cs ∷ [])
unfolding drop_last last_or
snoc_last c [] = refl
snoc_last c (d ∷ ds) = ap (λ xs. c ∷ xs) (snoc_last d ds)

-- `rest` is `cs` without `c`.
pub record Removed (c : BlockCache) (cs rest : List BlockCache) : Type 1 where
  pub look_rest :
      (dev : Device) (j : ℕ)
      → look dev cs j ≡ (if c.block_id == j then c.cache else look dev rest j)
  pub each : (P : BlockCache → Type 0) → All P cs → P c × All P rest
  pub apart : Apart rest
  pub fresh : Fresh c.block_id rest
  pub shorter : length cs ≡ suc (length rest)

Removed-cons :
    (x c : BlockCache) (cs rest : List BlockCache)
    → Apart (x ∷ cs)
    → Removed c cs rest
    → Removed c (x ∷ cs) (x ∷ rest)
Removed-cons x c cs rest a r =
    let (ne, f) = r.each (λ d. d.block_id ≢ x.block_id) a.0 in
    record {
      look_rest = λ dev j. ground (arith, r.look_rest dev j);
      each = λ P all. let (p, q) = r.each P all.1 in (p, (all.0, q));
      apart = (f, r.apart);
      fresh = ((λ e. ne (sym e)), r.fresh);
      shorter = ap suc r.shorter;
    }

Removed-head :
    (x : BlockCache) (xs : List BlockCache) (l : BlockCache)
    → Apart (x ∷ (xs ++ (l ∷ [])))
    → Removed x (x ∷ (xs ++ (l ∷ []))) (l ∷ xs)
Removed-head x xs l a =
    let (f, ne) = All-append (λ c. c.block_id ≢ x.block_id) xs l a.0 in
    record {
      look_rest =
          λ dev j. ap (λ b. if x.block_id == j then x.cache else b) (look-rotate dev xs l j a.1);
      each = λ P all. let (p, q) = All-append P xs l all.1 in (all.0, (q, p));
      apart = rotate xs l a.1;
      fresh = (ne, f);
      shorter = omega (arith, length-append xs (l ∷ []));
    }

-- `swap_remove` takes out the element at the index.
pub swap_remove-Removed :
    (cs : List BlockCache) (i : ℕ) (c : BlockCache)
    → get_elem? cs i ≡ some c
    → Apart cs
    → Removed c cs (drop_last (set cs i (last_or c cs)))
unfolding drop_last last_or
swap_remove-Removed [] i c e a = cc
swap_remove-Removed (x ∷ []) zero c e a =
    subst (λ d. Removed d (x ∷ []) []) (cc)
      (record {
        look_rest = λ dev j. refl;
        each = λ P all. (all.0, tt);
        apart = tt;
        fresh = tt;
        shorter = refl;
      })
swap_remove-Removed (x ∷ []) (suc i) c e a = cc
swap_remove-Removed (x ∷ y ∷ ys) zero c e a =
    let init : List BlockCache = drop_last (y ∷ ys) in
    let last : BlockCache = last_or y ys in
    let split : y ∷ ys ≡ init ++ (last ∷ []) = snoc_last y ys in
    subst (λ d. Removed d (x ∷ y ∷ ys) (last ∷ init)) (cc)
      (subst (λ zs. Removed x (x ∷ zs) (last ∷ init)) (sym split)
        (Removed-head x init last (subst (λ zs. Apart (x ∷ zs)) split a)))
swap_remove-Removed (x ∷ y ∷ ys) (suc zero) c e a =
    Removed-cons x c (y ∷ ys) _ a (swap_remove-Removed (y ∷ ys) zero c e a.1)
swap_remove-Removed (x ∷ y ∷ ys) (suc (suc i)) c e a =
    Removed-cons x c (y ∷ ys) _ a (swap_remove-Removed (y ∷ ys) (suc i) c e a.1)
