-- ===== src/EasyFs/BlockCache.antt =====
-- easy-fs/src/block_cache.rs: the cache of 16 blocks, over the blocks of a device, with the eviction
-- of a block that nobody uses and its writing back.
pub mod Coherence
pub mod Access
mod Tests
use rcore_os.Prelude.{
  ℕ, ◌+◌, ◌-◌, Bool, true, false, ◌||◌, List, [], ◌∷◌, ◌++◌, Option, none, some, if◌then◌else◌,
  ◌==◌, Outcome, returns, panics, length, add_usize, sub_usize,
}
use rcore_os.EasyFs.Disk.{Block, Disk, update}

abbrev pub block_cache_size : ℕ
block_cache_size = 16

-- `users` counts the pointers to the cache besides the manager's own.
pub record BlockCache : Type 0 where
  pub cache : Block
  pub block_id : ℕ
  pub modified : Bool
  pub users : ℕ

-- `BlockCache::new`, held by its caller.
pub load : Disk → ℕ → BlockCache
load device id = record { cache = device id; block_id = id; modified = false; users = 1 }

-- `BlockCache::sync`: the device and the cache after it.
pub sync : Disk → BlockCache → Disk
sync device c = if c.modified then update device c.block_id c.cache else device

pub record BlockCacheManager : Type 0 where
  pub queue : List BlockCache
  pub device : Disk

pub is_cached : ℕ → List BlockCache → Bool
is_cached id [] = false
is_cached id (c ∷ cs) = (c.block_id == id) || is_cached id cs

-- Changing the first cache of the block `id`.
pub change : (BlockCache → BlockCache) → ℕ → List BlockCache → List BlockCache
change f id [] = []
change f id (c ∷ cs) = if c.block_id == id then f c ∷ cs else c ∷ change f id cs

-- Dropping the first cache without users, which writes it back.
pub evict : List BlockCache → Disk → Option (List BlockCache × Disk)
unfolding sync
evict [] device = none
evict (c ∷ cs) device =
    if c.users == 0
    then some (cs, sync device c)
    else elim (evict cs device) [ none ↦ none | some r ↦ some (c ∷ r.0, r.1) ]

insert : ℕ → List BlockCache × Disk → BlockCacheManager
unfolding load
insert id r = record { queue = r.0 ++ (load r.1 id ∷ []); device = r.1 }

-- `get_block_cache`: afterwards the caller holds the cache of the block `id`.
pub get_block_cache : BlockCacheManager → ℕ → Outcome BlockCacheManager
unfolding is_cached change evict insert
get_block_cache m id =
    if is_cached id m.queue
    then returns (record m { queue = change (λ c. record c { users = c.users + 1 }) id m.queue })
    else if length m.queue == block_cache_size
    then elim (evict m.queue m.device) [ none ↦ panics | some r ↦ returns (insert id r) ]
    else returns (insert id (m.queue, m.device))

-- `BlockCache::modify` on the cache of the block `id`.
pub modify : BlockCacheManager → ℕ → (Block → Block) → BlockCacheManager
modify m id f = record m {
  queue = change (λ c. record c { cache = f c.cache; modified = true }) id m.queue;
}

-- The caller drops its pointer to the cache of the block `id`.
pub release : BlockCacheManager → ℕ → BlockCacheManager
release m id = record m { queue = change (λ c. record c { users = c.users - 1 }) id m.queue }

-- `block_cache_sync_all`
sync_from : List BlockCache → Disk → Disk
sync_from [] device = device
sync_from (c ∷ cs) device = sync_from cs (sync device c)

clean_all : List BlockCache → List BlockCache
clean_all [] = []
clean_all (c ∷ cs) = record c { modified = false } ∷ clean_all cs

pub block_cache_sync_all : BlockCacheManager → BlockCacheManager
unfolding sync_from clean_all
block_cache_sync_all m = record { queue = clean_all m.queue; device = sync_from m.queue m.device }
