-- ===== src/EasyFs/BlockCache.antt =====
-- easy-fs/src/block_cache.rs: the cache of blocks between the file system and the device.
use lemon_core.Base.{
  ℕ, ◌+◌, ◌-◌, Bool, true, false, Option, none, some, List, [], ◌∷◌, ◌++◌, ◌==◌, if◌then◌else◌,
  length, set, ◌>>=◌, index,
}
use lemon_core.EasyFs.Config.{block_cache_size}
pub mod View
pub mod Eviction
pub mod Coherence
pub mod Writes
pub mod Exhaustion
mod Tests

-- The bytes of a block.
abbrev pub Block : Type 0
Block = List ℕ

-- What the device holds; `read_block` and `write_block` are a look-up and an update of it.
abbrev pub Device : Type 0
Device = ℕ → Block

abbrev pub write_block : Device → ℕ → Block → Device
write_block dev id block j = if id == j then block else dev j

-- `BlockCache` with the reference count of its `Arc`: the queue holds one reference.
pub record BlockCache : Type 0 where
  pub cache : Block
  pub block_id : ℕ
  pub modified : Bool
  pub strong_count : ℕ

-- The manager and the device behind it.
pub record CacheState : Type 0 where
  pub queue : List BlockCache
  pub device : Device

-- `BlockCache::new` and the push of it into the queue: the queue's reference and the caller's.
abbrev load : Device → ℕ → BlockCache
load dev id = record { cache = dev id; block_id = id; modified = false; strong_count = 2 }

-- `sync`, and `drop`, which calls it.
pub sync : BlockCache → Device → BlockCache × Device
sync c dev =
    if c.modified
    then (record c { modified = false }, write_block dev c.block_id c.cache)
    else (c, dev)

-- `queue.iter().find(..)` and the `clone` of what it finds.
pub find_clone : ℕ → List BlockCache → Option (List BlockCache)
find_clone id [] = none
find_clone id (c ∷ cs) =
    let rest = find_clone id cs in
    if c.block_id == id
    then some (record c { strong_count = c.strong_count + 1 } ∷ cs)
    else (do cs' ← rest; some (c ∷ cs'))

-- The index of the first block that only the queue refers to.
pub find_idle : List BlockCache → Option ℕ
find_idle [] = none
find_idle (c ∷ cs) =
    let rest = find_idle cs in if c.strong_count == 1 then some 0 else (do i ← rest; some (i + 1))

pub last_or : BlockCache → List BlockCache → BlockCache
last_or c [] = c
last_or c (d ∷ ds) = last_or d ds

pub drop_last : List BlockCache → List BlockCache
drop_last [] = []
drop_last (c ∷ []) = []
drop_last (c ∷ (d ∷ ds)) = c ∷ drop_last (d ∷ ds)

-- `swap_remove`: the element removed, and the list with the last element in its place.
pub swap_remove : List BlockCache → ℕ → Option (BlockCache × List BlockCache)
unfolding last_or drop_last
swap_remove cs i = do c ← index cs i; some (c, drop_last (set cs i (last_or c cs)))

-- Makes room in a full queue; `none` is the panic "Run out of BlockCache". The block removed is
-- dropped, and so written back.
pub substitute : CacheState → Option CacheState
unfolding find_idle swap_remove sync
substitute s =
    if length s.queue == block_cache_size
    then (do
      idx ← find_idle s.queue
      (victim, queue') ← swap_remove s.queue idx
      some (record { queue = queue'; device = (sync victim s.device).1 }))
    else some s

-- On what `find` gives.
get_or_load : ℕ → CacheState → Option (List BlockCache) → Option CacheState
get_or_load id s (some queue') = some (record s { queue = queue' })
get_or_load id s none = do
  s' ← substitute s
  some (record s' { queue = s'.queue ++ (load s'.device id ∷ []) })

-- `BlockCacheManager::get`: afterwards the queue holds the block that the caller gets.
pub get : ℕ → CacheState → Option CacheState
unfolding get_or_load find_clone substitute
get id s = get_or_load id s (find_clone id s.queue)

-- What a caller reads through the reference that it got: the block's cached bytes.
pub cached : ℕ → List BlockCache → Option Block
cached id [] = none
cached id (c ∷ cs) = let rest = cached id cs in if c.block_id == id then some c.cache else rest

-- `modify` through such a reference, with the closure `f` on the block.
pub modify_in : ℕ → (Block → Block) → List BlockCache → List BlockCache
modify_in id f [] = []
modify_in id f (c ∷ cs) =
    let rest = modify_in id f cs in
    if c.block_id == id then record c { cache = f c.cache; modified = true } ∷ cs else c ∷ rest

pub modify : ℕ → (Block → Block) → CacheState → CacheState
unfolding modify_in
modify id f s = record s { queue = modify_in id f s.queue }

-- The drop of a caller's reference.
pub release_in : ℕ → List BlockCache → List BlockCache
release_in id [] = []
release_in id (c ∷ cs) =
    let rest = release_in id cs in
    if c.block_id == id then record c { strong_count = c.strong_count - 1 } ∷ cs else c ∷ rest

pub release : ℕ → CacheState → CacheState
unfolding release_in
release id s = record s { queue = release_in id s.queue }

-- The loop of `sync_all`.
pub sync_queue : List BlockCache → Device → List BlockCache × Device
unfolding sync
sync_queue [] dev = ([], dev)
sync_queue (c ∷ cs) dev =
    let (c', dev') = sync c dev in let (cs', dev'') = sync_queue cs dev' in (c' ∷ cs', dev'')

pub sync_all : CacheState → CacheState
unfolding sync_queue
sync_all s =
    let (queue', device') = sync_queue s.queue s.device in
    record { queue = queue'; device = device' }
