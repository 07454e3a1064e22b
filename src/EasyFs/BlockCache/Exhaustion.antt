-- ===== src/EasyFs/BlockCache/Exhaustion.antt =====
-- When `get` runs out of blocks.
use lemon_core.Base.{
  ℕ, ◌+◌, ◌≡◌, refl, subst, ◌≢◌, ◌⊎◌, inl, inr, Option, none, some, List, [], ◌∷◌, ◌++◌, arith,
  ◌==◌, ==_iff, Bool-cases, Option-cases, length, get_elem?, set, >>=-eq-some, All,
}
use mathlib.Core.Option.{some-injective}
use native.Mathlib.Numerals.{add-one}
use lemon_core.EasyFs.BlockCache.{
  BlockCache, CacheState, last_or, drop_last, load, sync, find_clone, find_idle, swap_remove,
  substitute, get, get_or_load,
}
use lemon_core.EasyFs.BlockCache.View.{Fresh}
use lemon_core.EasyFs.BlockCache.Coherence.{find_clone-none}

find_idle-none : (cs : List BlockCache) → (find_idle cs ≡ none) → All (λ c. c.strong_count ≢ 1) cs
unfolding find_idle
find_idle-none [] e = tt
find_idle-none (c ∷ cs) e = elim (Bool-cases (c.strong_count == 1)) [
  | inl hit ↦ let e₁ : ◌≡◌ {A = Option ℕ} (some 0) none = rw hit at e in cc
  | inr miss ↦ elim (Option-cases (find_idle cs)) [
    | inl absent ↦ (λ h. ground arith, find_idle-none cs absent)
    | inr (i, found) ↦ let e₁ : some (i + 1) ≡ none = rw (miss, found) at e in cc
  ]
]

find_idle-some :
    (cs : List BlockCache) (i : ℕ)
    → find_idle cs ≡ some i
    → (c : BlockCache) × (get_elem? cs i ≡ some c) × (c.strong_count ≡ 1)
unfolding find_idle
find_idle-some [] i e = cc
find_idle-some (c ∷ cs) i e = elim (Bool-cases (c.strong_count == 1)) [
  | inl hit ↦
      let e₁ : ◌≡◌ {A = Option ℕ} (some 0) (some i) = rw hit at e in
      (
        c,
        subst (λ k. get_elem? (c ∷ cs) k ≡ some c) (some-injective 0 i e₁) refl,
        (==_iff _ _).0 hit,
      )
  | inr miss ↦
      let (k, found, e₁) = >>=-eq-some (find_idle cs) _ (rw miss at e) in
      let (d, at_k, one) = find_idle-some cs k found in
      (
        d,
        subst (λ m. get_elem? (c ∷ cs) m ≡ some d) (some-injective (k + 1) i e₁) (rw add-one at_k),
        one,
      )
]

-- A full queue with every block also held by a caller.
abbrev pub IsExhausted : CacheState → Type 0
IsExhausted s = (length s.queue ≡ 16) × All (λ c. c.strong_count ≢ 1) s.queue

substitute-some :
    (s : CacheState) → (IsExhausted s ⊎ ((s' : CacheState) × (substitute s ≡ some s')))
unfolding substitute swap_remove
substitute-some s = elim (Bool-cases (length s.queue == 16)) [
  | inl full ↦ elim (Option-cases (find_idle s.queue)) [
    | inl absent ↦ inl ((==_iff _ _).0 full, find_idle-none s.queue absent)
    | inr (i, found) ↦
        let (c, at_i, _) = find_idle-some s.queue i found in
        inr (
          record {
            queue = drop_last (set s.queue i (last_or c s.queue));
            device = (sync c s.device).1;
          },
          rw (full, found, at_i),
        )
  ]
  | inr free ↦ inr (s, rw free)
]

-- `get` panics only on a block that is not cached, with the queue full and every block in it held
-- by a caller: a block is always substituted if one can be.
pub get-none : (id : ℕ) (s : CacheState) → get id s ≡ none → Fresh id s.queue × IsExhausted s
unfolding get get_or_load
get-none id s e = elim (Option-cases (find_clone id s.queue)) [
  | inl absent ↦ elim (substitute-some s) [
    | inl spent ↦ (find_clone-none id s.queue absent, spent)
    | inr (t, sub) ↦
        let e₁ : some (record t { queue = t.queue ++ (load t.device id ∷ []) }) ≡ none =
          rw (get, absent, sub) at e in
        cc
  ]
  | inr (cs', present) ↦
      let e₁ : some (record s { queue = cs' }) ≡ none = rw (get, present) at e in cc
]
