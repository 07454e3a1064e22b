-- ===== src/EasyFs/BlockCache/Coherence.antt =====
-- The cache of easy-fs/src/block_cache.rs against the device with every write already made.
use lemon_core.Base.{
  >>=-eq-some, ℕ, suc, ◌+◌, ◌≤◌, ◌≡◌, refl, sym, ap, subst, ◌∙◌, ◌≢◌, inl, inr, none, some, List,
  [], ◌∷◌, ◌++◌, arith, ◌==◌, if◌then◌else◌, ==_iff, Bool-cases, Option-cases, length,
  length-append, All,
}
use mathlib.Core.Option.{some-injective}
use lemon_core.EasyFs.BlockCache.{
  Device, BlockCache, CacheState, load, find_clone, substitute, get, get_or_load, cached,
}
use lemon_core.EasyFs.BlockCache.View.{look, Fresh, Apart, look_fresh, All-snoc, Apart-snoc}
use lemon_core.EasyFs.BlockCache.Eviction.{IsClean, IsValid, view, Roomy, substitute-Roomy}

-- A block that was not written to since it was loaded or synced is as on the device.
-- `cs'` is `cs` with one more reference to the block `id`.
pub record Cloned (id : ℕ) (cs cs' : List BlockCache) : Type 1 where
  pub looks : (dev : Device) (j : ℕ) → look dev cs' j ≡ look dev cs j
  pub hit : (dev : Device) → cached id cs' ≡ some (look dev cs id)
  pub each :
      (P : BlockCache → Type 0)
      → ((c : BlockCache) → P c → P (record c { strong_count = c.strong_count + 1 }))
      → All P cs
      → All P cs'
  pub apart : Apart cs → Apart cs'
  pub long : length cs' ≡ length cs

pub find_clone-none : (id : ℕ) (cs : List BlockCache) → find_clone id cs ≡ none → Fresh id cs
unfolding find_clone
find_clone-none id [] e = tt
find_clone-none id (c ∷ cs) e = elim (Bool-cases (c.block_id == id)) [
  | inl hit ↦
      let e₁ : some (record c { strong_count = c.strong_count + 1 } ∷ cs) ≡ none = rw hit at e in cc
  | inr miss ↦ elim (Option-cases (find_clone id cs)) [
    | inl absent ↦ (λ h. ground arith, find_clone-none id cs absent)
    | inr (rest, found) ↦ let e₁ : some (c ∷ rest) ≡ none = rw (miss, found) at e in cc
  ]
]

find_clone-Cloned :
    (id : ℕ) (cs cs' : List BlockCache) → find_clone id cs ≡ some cs' → Cloned id cs cs'
unfolding find_clone cached
find_clone-Cloned id [] cs' e = cc
find_clone-Cloned id (c ∷ cs) cs' e = elim (Bool-cases (c.block_id == id)) [
  | inl hit ↦
      let e₁ : record c { strong_count = c.strong_count + 1 } ∷ cs ≡ cs' =
        some-injective _ _ (rw hit at e) in
      subst (Cloned id (c ∷ cs)) e₁ (record {
        looks = λ dev j. refl;
        hit = λ dev. rw hit;
        each = λ P up all. (up c all.0, all.1);
        apart = λ a. a;
        long = refl;
      })
  | inr miss ↦
      let (rest, found, e₁) = >>=-eq-some (find_clone id cs) _ (rw miss at e) in
      let r = find_clone-Cloned id cs rest found in
      subst (Cloned id (c ∷ cs)) (some-injective _ _ e₁) (record {
        looks = λ dev j. ap (λ b. if c.block_id == j then c.cache else b) (r.looks dev j);
        hit = λ dev. rw miss (r.hit dev);
        each = λ P up all. (all.0, r.each P up all.1);
        apart = λ a. (r.each (λ d. d.block_id ≢ c.block_id) (λ d h. h) a.0, r.apart a.1);
        long = ap suc r.long;
      })
]

cached-snoc :
    (cs : List BlockCache) (c : BlockCache)
    → Fresh c.block_id cs
    → cached c.block_id (cs ++ (c ∷ [])) ≡ some c.cache
unfolding cached
cached-snoc [] c f = ground arith
cached-snoc (x ∷ xs) c f = ground (arith, cached-snoc xs c f.1)

look-snoc :
    (dev : Device) (cs : List BlockCache) (c : BlockCache) (j : ℕ)
    → c.cache ≡ dev c.block_id
    → look dev (cs ++ (c ∷ [])) j ≡ look dev cs j
look-snoc dev [] c j e = elim (Bool-cases (c.block_id == j)) [
  | inl h ↦ rw h (e ∙ ap dev ((==_iff _ _).0 h))
  | inr h ↦ rw h
]
look-snoc dev (x ∷ xs) c j e =
    ap (λ b. if x.block_id == j then x.cache else b) (look-snoc dev xs c j e)

-- What `get` promises: the caller has the block as it was, and every block is as it was.
pub record Gets (id : ℕ) (s s' : CacheState) : Type 0 where
  pub valid : IsValid s'
  pub hit : cached id s'.queue ≡ some (view s id)
  pub same : (j : ℕ) → view s' j ≡ view s j

load-Gets :
    (id : ℕ) (s s' : CacheState)
    → Fresh id s.queue
    → Roomy s s'
    → Gets id s (record s' { queue = s'.queue ++ (load s'.device id ∷ []) })
load-Gets id s s' f r =
    let f' = r.keeps id f in
    let c : BlockCache = load s'.device id in
    record {
      valid = record {
        apart = Apart-snoc s'.queue c r.valid.apart f';
        clean = All-snoc (IsClean s'.device) s'.queue c r.valid.clean (λ _. refl);
        counted = All-snoc (λ d. 1 ≤ d.strong_count) s'.queue c r.valid.counted (omega arith);
        short = omega (arith, r.room, length-append s'.queue (c ∷ []));
      };
      hit =
          cached-snoc s'.queue c f'
          ∙ ap some (sym (look_fresh s'.device s'.queue id f') ∙ r.same id);
      same = λ j. look-snoc s'.device s'.queue c j refl ∙ r.same j;
    }

clone-Gets :
    (id : ℕ) (s : CacheState) (cs' : List BlockCache)
    → IsValid s
    → Cloned id s.queue cs'
    → Gets id s (record s { queue = cs' })
clone-Gets id s cs' v r = record {
  valid = record {
    apart = r.apart v.apart;
    clean = r.each (IsClean s.device) (λ c h. h) v.clean;
    counted = r.each (λ c. 1 ≤ c.strong_count) (λ c h. omega arith) v.counted;
    short = omega (arith, r.long, v.short);
  };
  hit = r.hit s.device;
  same = λ j. r.looks s.device j;
}

-- A `get` that does not run out of blocks gives the caller the block as the file system saw it,
-- keeps the cache valid, and changes no block, whether it was cached, loaded, or loaded in place
-- of another.
pub get-Gets : (id : ℕ) (s s' : CacheState) → IsValid s → get id s ≡ some s' → Gets id s s'
unfolding get get_or_load
get-Gets id s s' v e = elim (Option-cases (find_clone id s.queue)) [
  | inl absent ↦
      let (t, sub, e₁) = >>=-eq-some (substitute s) _ (rw (get, absent) at e) in
      subst (Gets id s) (some-injective _ _ e₁)
        (load-Gets id s t (find_clone-none id s.queue absent) (substitute-Roomy s t v sub))
  | inr (cs', present) ↦
      subst (Gets id s) (some-injective _ _ (rw (get, present) at e))
        (clone-Gets id s cs' v (find_clone-Cloned id s.queue cs' present))
]
