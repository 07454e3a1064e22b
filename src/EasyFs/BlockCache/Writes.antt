-- ===== src/EasyFs/BlockCache/Writes.antt =====
-- What `modify` and `sync_all` do to the blocks.
use lemon_core.Base.{
  ℕ, suc, ◌≤◌, ◌≡◌, refl, sym, ap, subst, ◌∙◌, ◌≢◌, inl, inr, Bool, true, false, some, List, [],
  ◌∷◌, arith, ◌==◌, if◌then◌else◌, ==_iff, Bool-cases, length, All,
}
use mathlib.Core.Option.{some-injective}
use lemon_core.EasyFs.BlockCache.{
  Block, Device, BlockCache, CacheState, sync, cached, modify, modify_in, sync_queue, sync_all,
}
use lemon_core.EasyFs.BlockCache.View.{look, Fresh, Apart, look_fresh, look_device}
use lemon_core.EasyFs.BlockCache.Eviction.{IsClean, IsValid, view, sync-device, clean_apart}

cached-look :
    (id : ℕ) (dev : Device) (cs : List BlockCache) {b : Block}
    → cached id cs ≡ some b
    → look dev cs id ≡ b
unfolding cached
cached-look id dev [] e = cc
cached-look id dev (c ∷ cs) {b} e = ground (arith, cached-look id dev cs {b = b})

modify_in-look :
    (id j : ℕ) (f : Block → Block) (dev : Device) (cs : List BlockCache) {b : Block}
    → cached id cs ≡ some b
    → look dev (modify_in id f cs) j ≡ (if id == j then f b else look dev cs j)
unfolding modify_in cached
modify_in-look id j f dev [] e = cc
modify_in-look id j f dev (c ∷ cs) {b} e = elim (Bool-cases (c.block_id == id)) [
  | inl hit ↦ let e₁ : c.cache ≡ b = some-injective _ _ (rw hit at e) in rw hit (ground arith)
  | inr miss ↦
      let e₁ : cached id cs ≡ some b = rw miss at e in
      rw miss (ground (arith, modify_in-look id j f dev cs e₁))
]

modify_in-All :
    (id : ℕ) (f : Block → Block) (P : BlockCache → Type 0) (cs : List BlockCache)
    → ((c : BlockCache) → P c → P (record c { cache = f c.cache; modified = true }))
    → All P cs
    → All P (modify_in id f cs)
unfolding modify_in
modify_in-All id f P [] up a = tt
modify_in-All id f P (c ∷ cs) up a = elim (Bool-cases (c.block_id == id)) [
  | inl hit ↦ rw hit (up c a.0, a.1)
  | inr miss ↦ rw miss (a.0, modify_in-All id f P cs up a.1)
]

modify_in-Apart :
    (id : ℕ) (f : Block → Block) (cs : List BlockCache) → Apart cs → Apart (modify_in id f cs)
unfolding modify_in
modify_in-Apart id f [] a = tt
modify_in-Apart id f (c ∷ cs) a = elim (Bool-cases (c.block_id == id)) [
  | inl hit ↦ rw hit a
  | inr miss ↦ rw miss (
    modify_in-All id f (λ d. d.block_id ≢ c.block_id) cs (λ d h. h) a.0,
    modify_in-Apart id f cs a.1,
  )
]

length-modify_in :
    (id : ℕ) (f : Block → Block) (cs : List BlockCache) → length (modify_in id f cs) ≡ length cs
unfolding modify_in
length-modify_in id f [] = refl
length-modify_in id f (c ∷ cs) = ground (arith, length-modify_in id f cs)

-- A write through a reference to a cached block changes that block as the closure says, and no
-- other, and keeps the cache valid; the device is not written.
pub modify-view :
    (id : ℕ) (f : Block → Block) {s : CacheState} {b : Block}
    → IsValid s
    → cached id s.queue ≡ some b
    → IsValid (modify id f s)
      × ((j : ℕ) → view (modify id f s) j ≡ (if id == j then f (view s id) else view s j))
      × ((modify id f s).device ≡ s.device)
unfolding modify
modify-view id f {s} {b} v e = (
  record {
    apart = modify_in-Apart id f s.queue v.apart;
    clean = modify_in-All id f (IsClean s.device) s.queue (λ c h e. cc) v.clean;
    counted = modify_in-All id f (λ c. 1 ≤ c.strong_count) s.queue (λ c h. h) v.counted;
    short = omega (arith, length-modify_in id f s.queue, v.short);
  },
  λ j.
      modify_in-look id j f s.device s.queue e
      ∙ ap (λ x. if id == j then f x else view s j) (sym (cached-look id s.device s.queue e)),
  refl,
)

sync-fields :
    (c : BlockCache) (dev : Device)
    → let (c', dev') = sync c dev in
      (c'.modified ≡ false)
      × (c'.cache ≡ c.cache)
      × (c'.block_id ≡ c.block_id)
      × (c'.strong_count ≡ c.strong_count)
unfolding sync
sync-fields c dev = ground arith

-- Behind a synced block the device shows what the block showed in front of it.
look-sync :
    (c : BlockCache) (cs : List BlockCache) (dev : Device) (j : ℕ)
    → Fresh c.block_id cs
    → IsClean dev c
    → look (sync c dev).1 cs j ≡ look dev (c ∷ cs) j
look-sync c cs dev j f v = elim (Bool-cases (c.block_id == j)) [
  | inl e ↦
      look_fresh (sync c dev).1 cs j (subst (λ k. Fresh k cs) ((==_iff _ _).0 e) f)
      ∙ sync-device c dev j v
      ∙ rw e
  | inr e ↦ rw e (look_device dev (sync c dev).1 cs j (sync-device c dev j v ∙ rw e))
]

sync_queue-look :
    (cs : List BlockCache) (dev : Device)
    → Apart cs
    → All (IsClean dev) cs
    → let (cs', dev') = sync_queue cs dev in
      ((j : ℕ) → look dev' cs' j ≡ look dev cs j)
      × ((j : ℕ) → dev' j ≡ look dev cs j)
      × All (λ c. (c.modified ≡ false) × IsClean dev' c) cs'
unfolding sync_queue
sync_queue-look [] dev a v = (λ j. refl, λ j. refl, tt)
sync_queue-look (c ∷ cs) dev a v =
    let (clean, bytes, number, _) = sync-fields c dev in
    let dev₁ : Device = (sync c dev).1 in
    let (looks, written, all) = sync_queue-look cs dev₁ a.1 (clean_apart c dev cs v.0 a.0 v.1) in
    (
      λ j.
          rw (bytes, number)
            (elim (Bool-cases (c.block_id == j)) [
              | inl e ↦ rw e
              | inr e ↦ rw e (looks j ∙ look-sync c cs dev j a.0 v.0 ∙ rw e)
            ]),
      λ j. written j ∙ look-sync c cs dev j a.0 v.0,
      (
        (
          clean,
          λ _.
              rw (bytes, number)
                (sym (written c.block_id ∙ look-sync c cs dev c.block_id a.0 v.0 ∙ own)),
        ),
        all,
      ),
    )
  where
    own : look dev (c ∷ cs) c.block_id ≡ c.cache
    own = ground arith

sync_queue-each :
    (P : BlockCache → Type 0) (cs : List BlockCache) (dev : Device)
    → ((c : BlockCache) → P c → P (record c { modified = false }))
    → All P cs
    → All P (sync_queue cs dev).0
unfolding sync_queue sync
sync_queue-each P [] dev up a = tt
sync_queue-each P (c ∷ cs) dev up a =
    (step (c.modified) refl, sync_queue-each P cs (sync c dev).1 up a.1)
  where
    step : (b : Bool) → c.modified ≡ b → P (sync c dev).0
    step true e = simp e (up c a.0)
    step false e = simp e a.0

sync_queue-Apart : (cs : List BlockCache) (dev : Device) → Apart cs → Apart (sync_queue cs dev).0
unfolding sync_queue
sync_queue-Apart [] dev a = tt
sync_queue-Apart (c ∷ cs) dev a =
    let number = (sync-fields c dev).2 in
    (
      rw number (sync_queue-each (λ d. d.block_id ≢ c.block_id) cs (sync c dev).1 (λ d h. h) a.0),
      sync_queue-Apart cs (sync c dev).1 a.1,
    )

length-sync_queue : (cs : List BlockCache) (dev : Device) → length (sync_queue cs dev).0 ≡ length cs
unfolding sync_queue
length-sync_queue [] dev = refl
length-sync_queue (c ∷ cs) dev = ap suc (length-sync_queue cs (sync c dev).1)

All-map :
    {P Q : BlockCache → Type 0} (cs : List BlockCache)
    → ((c : BlockCache) → P c → Q c)
    → All P cs
    → All Q cs
All-map [] f a = tt
All-map (c ∷ cs) f a = (f c a.0, All-map cs f a.1)

-- After `sync_all` the device holds every block as the file system sees it, which no block changes,
-- and the cache is valid.
pub sync_all-device :
    {s : CacheState}
    → IsValid s
    → IsValid (sync_all s)
      × ((j : ℕ) → (sync_all s).device j ≡ view s j)
      × ((j : ℕ) → view (sync_all s) j ≡ view s j)
unfolding sync_all
sync_all-device {s} v =
    let (looks, written, all) = sync_queue-look s.queue s.device v.apart v.clean in
    (
      record {
        apart = sync_queue-Apart s.queue s.device v.apart;
        clean = All-map (sync_queue s.queue s.device).0 (λ c p. p.1) all;
        counted = sync_queue-each (λ c. 1 ≤ c.strong_count) s.queue s.device (λ c h. h) v.counted;
        short = omega (arith, length-sync_queue s.queue s.device, v.short);
      },
      written,
      looks,
    )
