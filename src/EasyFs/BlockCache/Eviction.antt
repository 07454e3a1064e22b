-- ===== src/EasyFs/BlockCache/Eviction.antt =====
-- The state of the cache as the file system sees it, and a substitution in the queue.
use lemon_core.Base.{
  >>=-eq-some, ℕ, ◌≤◌, ◌<◌, ◌≡◌, refl, sym, ap, subst, ◌∙◌, ◌≢◌, inl, inr, false, some, List, [],
  ◌∷◌, arith, ◌==◌, if◌then◌else◌, ==_iff, Bool-cases, length, set, index, All,
}
use mathlib.Core.Option.{some-injective}
use lemon_core.EasyFs.BlockCache.{
  Block, Device, BlockCache, CacheState, sync, find_idle, last_or, drop_last, swap_remove,
  substitute,
}
use lemon_core.EasyFs.BlockCache.View.{
  look, Fresh, Apart, look_fresh, look_device, Removed, swap_remove-Removed,
}

abbrev pub IsClean : Device → BlockCache → Type 0
IsClean dev c = c.modified ≡ false → c.cache ≡ dev c.block_id

pub record IsValid (s : CacheState) : Type 0 where
  pub apart : Apart s.queue
  pub clean : All (IsClean s.device) s.queue
  pub counted : All (λ c. 1 ≤ c.strong_count) s.queue
  pub short : length s.queue ≤ 16

abbrev pub view : CacheState → ℕ → Block
view s j = look s.device s.queue j

-- `sync` of a valid block: the device then holds the block, and no other block of it changes.
pub sync-device :
    (c : BlockCache) (dev : Device) (j : ℕ)
    → IsClean dev c
    → (sync c dev).1 j ≡ (if c.block_id == j then c.cache else dev j)
unfolding sync
sync-device c dev j v = elim (Bool-cases c.modified) [
  | inl dirty ↦ rw dirty
  | inr clean ↦ rw clean (elim (Bool-cases (c.block_id == j)) [
    | inl e ↦ rw e (ap dev (sym ((==_iff _ _).0 e)) ∙ sym (v clean))
    | inr e ↦ rw e
  ])
]

-- A write to the device of a block that is not cached leaves the cached ones clean.
pub clean_apart :
    (c : BlockCache) (dev : Device) (cs : List BlockCache)
    → IsClean dev c
    → Fresh c.block_id cs
    → All (IsClean dev) cs
    → All (IsClean (sync c dev).1) cs
clean_apart c dev [] v f a = tt
clean_apart c dev (x ∷ xs) v f a =
    (λ h. ground (arith, a.0 h, sync-device c dev x.block_id v), clean_apart c dev xs v f.1 a.1)

-- Room for one more block, with every block as it was.
pub record Roomy (s s' : CacheState) : Type 1 where
  pub valid : IsValid s'
  pub same : (j : ℕ) → view s' j ≡ view s j
  pub room : length s'.queue < 16
  pub keeps : (id : ℕ) → Fresh id s.queue → Fresh id s'.queue

evict-Roomy :
    (s : CacheState) (c : BlockCache) (rest : List BlockCache)
    → IsValid s
    → Removed c s.queue rest
    → Roomy s (record { queue = rest; device = (sync c s.device).1 })
evict-Roomy s c rest v r =
    let clean = r.each (IsClean s.device) v.clean in
    record {
      valid = record {
        apart = r.apart;
        clean = clean_apart c s.device rest clean.0 r.fresh clean.1;
        counted = (r.each (λ d. 1 ≤ d.strong_count) v.counted).1;
        short = omega (arith, v.short, r.shorter);
      };
      same = λ j. elim (Bool-cases (c.block_id == j)) [
        | inl e ↦
            look_fresh (sync c s.device).1 rest j
              (subst (λ k. Fresh k rest) ((==_iff _ _).0 e) r.fresh)
            ∙ sync-device c s.device j clean.0
            ∙ rw e (sym (r.look_rest s.device j ∙ rw e))
        | inr e ↦
            look_device s.device (sync c s.device).1 rest j
              (sync-device c s.device j clean.0 ∙ rw e)
            ∙ sym (r.look_rest s.device j ∙ rw e)
      ];
      room = omega (arith, v.short, r.shorter);
      keeps = λ id f. (r.each (λ d. d.block_id ≢ id) f).1;
    }

-- A substitution that finds room keeps every block as it was.
pub substitute-Roomy : (s s' : CacheState) → IsValid s → substitute s ≡ some s' → Roomy s s'
unfolding substitute swap_remove
substitute-Roomy s s' v e = elim (Bool-cases (length s.queue == 16)) [
  | inl full ↦
      let (idx, _, e₁) = >>=-eq-some (find_idle s.queue) _ (rw (substitute, full) at e) in
      let (p, e₂, e₃) = >>=-eq-some (swap_remove s.queue idx) _ e₁ in
      let (c, found, e₄) = >>=-eq-some (index s.queue idx) _ e₂ in
      let rest : List BlockCache = drop_last (set s.queue idx (last_or c s.queue)) in
      let e₅ : p ≡ (c, rest) = cc in
      let e₆ : s' ≡ record { queue = rest; device = (sync c s.device).1 } = cc in
      subst (Roomy s) (sym e₆)
        (evict-Roomy s c rest v (swap_remove-Removed s.queue idx c found v.apart))
  | inr free ↦
      let e₁ : s ≡ s' = some-injective s s' (rw (substitute, free) at e) in
      subst (Roomy s) e₁
        (record { valid = v; same = λ j. refl; room = ground (arith, v.short); keeps = λ id f. f })
]
