-- ===== src/EasyFs/BlockCache/Tests.antt =====
-- Runs of the block cache on concrete inputs.
use lemon_core.Base.{ℕ, ◌≡◌, refl, true, false, [], ◌∷◌, arith}
use lemon_core.EasyFs.BlockCache.{
  BlockCache, CacheState, get, get_or_load, find_clone, find_idle, substitute, sync_all, load,
}
use lemon_core.EasyFs.BlockCache.View.{Fresh}
use lemon_core.EasyFs.BlockCache.Coherence.{Gets, get-Gets}
use lemon_core.EasyFs.BlockCache.Eviction.{IsValid, view}
use lemon_core.EasyFs.BlockCache.Writes.{sync_all-device}
use lemon_core.EasyFs.BlockCache.Exhaustion.{IsExhausted, get-none}

-- Block 3 is cached and dirty, block 4 is cached and clean.
abbrev dirty : BlockCache
dirty = record { cache = 7 ∷ []; block_id = 3; modified = true; strong_count = 1 }

abbrev clean : BlockCache
clean = record { cache = 0 ∷ []; block_id = 4; modified = false; strong_count = 2 }

abbrev two_cached : CacheState
two_cached = record { queue = dirty ∷ clean ∷ []; device = λ j. 0 ∷ [] }

two_cached-IsValid : IsValid two_cached
two_cached-IsValid = record {
  apart = ((λ e. absurd (omega (arith, e)), tt), (tt, tt));
  clean = ((λ e. cc), ((λ e. refl), tt));
  counted = (omega arith, (omega arith, tt));
  short = omega arith;
}

abbrev three_cached : CacheState
three_cached = record two_cached { queue = dirty ∷ clean ∷ load two_cached.device 9 ∷ [] }

get-Gets_example : Gets 9 two_cached three_cached
unfolding get get_or_load find_clone substitute
get-Gets_example = get-Gets 9 two_cached three_cached two_cached-IsValid refl

sync_all-device_example :
    IsValid (sync_all two_cached)
    × ((j : ℕ) → (sync_all two_cached).device j ≡ view two_cached j)
    × ((j : ℕ) → view (sync_all two_cached) j ≡ view two_cached j)
sync_all-device_example = sync_all-device {s = two_cached} two_cached-IsValid

-- Blocks 0 to 15, all held.
abbrev held : ℕ → BlockCache
held id = record { cache = []; block_id = id; modified = false; strong_count = 2 }

abbrev all_held : CacheState
all_held = record {
  queue =
      held 0
      ∷ held 1
      ∷ held 2
      ∷ held 3
      ∷ held 4
      ∷ held 5
      ∷ held 6
      ∷ held 7
      ∷ held 8
      ∷ held 9
      ∷ held 10
      ∷ held 11
      ∷ held 12
      ∷ held 13
      ∷ held 14
      ∷ held 15
      ∷ [];
  device = λ j. [];
}

get-none_example : Fresh 16 all_held.queue × IsExhausted all_held
unfolding get get_or_load find_clone substitute find_idle
get-none_example = get-none 16 all_held refl
