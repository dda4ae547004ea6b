-- ===== src/EasyFs/BlockCache/Access.antt =====
-- What getting and changing a cached block does to the disk that users of the cache see.
use rcore_os.Prelude.{
  ℕ, suc, ◌+◌, ◌<◌, ◌≡◌, ◌⊎◌, refl, ap, sym, subst, ◌∙◌, true, false, ◌||◌, List, [], ◌∷◌, Option,
  none, some, if◌then◌else◌, ◌==◌, Outcome, returns, panics, length, arith, inl, inr, Bool-cases,
  All, ==_self, length-append,
}
use rcore_os.EasyFs.Disk.{Block, Disk}
use rcore_os.EasyFs.BlockCache.{
  BlockCache, BlockCacheManager, load, is_cached, change, evict, insert, get_block_cache, modify,
  block_cache_size,
}
use rcore_os.EasyFs.BlockCache.Coherence.{
  look, view, Clean, OneEach, IsValid, look-append, OneEach-append, Clean-append, is_cached-append,
  EvictsOrNot, evict-EvictsOrNot, AllUsed,
}

-- A change of a cache that keeps its place.
module _ (f : BlockCache → BlockCache)
    (same_id : (c : BlockCache) → (f c).block_id ≡ c.block_id) where
  is_cached-change :
      (id b : ℕ) (cs : List BlockCache) → is_cached b (change f id cs) ≡ is_cached b cs
  unfolding is_cached change
  is_cached-change id b [] = refl
  is_cached-change id b (c ∷ cs) = elim (Bool-cases (c.block_id == id)) [
    | inl e ↦ rw (e, same_id c) refl
    | inr e ↦ rw e (ap (λ t. (c.block_id == b) || t) (is_cached-change id b cs))
  ]

  OneEach-change : (id : ℕ) (cs : List BlockCache) → OneEach cs → OneEach (change f id cs)
  unfolding is_cached change
  OneEach-change id [] o = tt
  OneEach-change id (c ∷ cs) o = elim (Bool-cases (c.block_id == id)) [
    | inl e ↦ rw (e, same_id c) o
    | inr e ↦ rw e (is_cached-change id c.block_id cs ∙ o.0, OneEach-change id cs o.1)
  ]

  length-change : (id : ℕ) (cs : List BlockCache) → length (change f id cs) ≡ length cs
  unfolding change
  length-change id [] = refl
  length-change id (c ∷ cs) = elim (Bool-cases (c.block_id == id)) [
    | inl e ↦ rw e refl
    | inr e ↦ rw e (ap suc (length-change id cs))
  ]

  Clean-change :
      (d : Disk) (id : ℕ) (cs : List BlockCache)
      → ((c : BlockCache) → Clean d c → Clean d (f c))
      → All (Clean d) cs
      → All (Clean d) (change f id cs)
  unfolding change
  Clean-change d id [] keep k = tt
  Clean-change d id (c ∷ cs) keep k = elim (Bool-cases (c.block_id == id)) [
    | inl e ↦ rw e (keep c k.0, k.1)
    | inr e ↦ rw e (k.0, Clean-change d id cs keep k.1)
  ]

  -- `g` is what the change does to the bytes.
  look-change :
      (g : Block → Block)
      → ((c : BlockCache) → (f c).cache ≡ g c.cache)
      → (d : Disk) (id b : ℕ) (cs : List BlockCache) → is_cached id cs ≡ true
      → look (change f id cs) d b ≡ (if id == b then g (look cs d b) else look cs d b)
  unfolding is_cached change
  look-change g h d id b [] k = absurd (ground arith)
  look-change g h d id b (c ∷ cs) k = elim (Bool-cases (c.block_id == id)) [
    | inl e ↦
        let here : c.block_id ≡ id = ground arith in
        rw (e, same_id c, h c, here)
          (elim (Bool-cases (id == b)) [ inl q ↦ rw q refl | inr q ↦ rw q refl ])
    | inr e ↦ elim (Bool-cases (c.block_id == b)) [
      | inl q ↦ let apart : (id == b) ≡ false = ground arith in rw (e, q, apart) refl
      | inr q ↦ rw (e, q) (look-change g h d id b cs (ground arith))
    ]
  ]

-- What getting the block `id` has to deliver.
abbrev pub Gets : BlockCacheManager → ℕ → Outcome BlockCacheManager → Type 0
Gets m id o =
    (m' : BlockCacheManager) × (o ≡ returns m')
    × IsValid m'
    × (is_cached id m'.queue ≡ true)
    × ((b : ℕ) → view m' b ≡ view m b)

hold : BlockCache → BlockCache
hold c = record c { users = c.users + 1 }

get_cached :
    (m : BlockCacheManager) (id : ℕ)
    → IsValid m
    → is_cached id m.queue ≡ true
    → Gets m id (get_block_cache m id)
unfolding get_block_cache hold
get_cached m id v e =
    rw (e, get_block_cache)
      (
        _,
        refl,
        record {
          one_each = OneEach-change hold (λ c. refl) id m.queue v.one_each;
          clean = Clean-change hold (λ c. refl) m.device id m.queue (λ c k. k) v.clean;
          bounded = omega (arith, length-change hold (λ c. refl) id m.queue, v.bounded);
        },
        is_cached-change hold (λ c. refl) id id m.queue ∙ e,
        λ b.
            look-change hold (λ c. refl) (λ x. x) (λ c. refl) m.device id b m.queue e
            ∙ elim (Bool-cases (id == b)) [ inl q ↦ rw q refl | inr q ↦ rw q refl ],
      )

insert-Gets :
    (m : BlockCacheManager) (id : ℕ) (cs : List BlockCache) (d : Disk)
    → OneEach cs
    → All (Clean d) cs
    → length cs < block_cache_size
    → is_cached id cs ≡ false
    → ((b : ℕ) → look cs d b ≡ view m b)
    → Gets m id (returns (insert id (cs, d)))
unfolding insert
insert-Gets m id cs d o k l fresh seen = (
  _,
  refl,
  record {
    one_each = OneEach-append cs d id fresh o;
    clean = Clean-append cs d id k;
    bounded = omega (arith, length-append cs (load d id ∷ []), l);
  },
  is_cached-append cs d id id ∙ rw (fresh, ==_self id) refl,
  λ b. look-append cs d id b fresh ∙ seen b,
)

-- What `get_block_cache` does: it delivers, or it panics because 16 other blocks are all in use.
abbrev pub GetsOrPanics : BlockCacheManager → ℕ → Outcome BlockCacheManager → Type 0
GetsOrPanics m id o =
    Gets m id o
    ⊎ ((o ≡ panics)
        × (is_cached id m.queue ≡ false)
        × (length m.queue ≡ block_cache_size)
        × AllUsed m.queue)

get_evicting :
    (m : BlockCacheManager) (id : ℕ) (r : Option (List BlockCache × Disk))
    → IsValid m
    → is_cached id m.queue ≡ false
    → length m.queue ≡ block_cache_size
    → EvictsOrNot m.queue m.device r
    → GetsOrPanics m id (elim r [ none ↦ panics | some r' ↦ returns (insert id r') ])
get_evicting m id none v e l used = inr (refl, e, l, used)
get_evicting m id (some (cs, d)) v e l ev = inl (
    insert-Gets m id cs d ev.one_each ev.clean (omega (arith, ev.shorter, l)) (ev.fewer id e)
      ev.seen)

get_full :
    (m : BlockCacheManager) (id : ℕ)
    → is_cached id m.queue ≡ false
    → (length m.queue == block_cache_size) ≡ true
    → get_block_cache m id
      ≡ (elim (evict m.queue m.device) [ none ↦ panics | some r ↦ returns (insert id r) ])
unfolding get_block_cache
get_full m id e l = rw (e, l, get_block_cache) refl

get_room :
    (m : BlockCacheManager) (id : ℕ)
    → is_cached id m.queue ≡ false
    → (length m.queue == block_cache_size) ≡ false
    → get_block_cache m id ≡ returns (insert id (m.queue, m.device))
unfolding get_block_cache
get_room m id e l = rw (e, l, get_block_cache) refl

-- On a valid cache `get_block_cache` leaves a valid cache that holds the block and shows the same
-- contents of every block, also where it had to evict one. It panics only if the block was not there
-- and all 16 that were are in use.
pub get_block_cache-GetsOrPanics :
    (m : BlockCacheManager) (id : ℕ) → IsValid m → GetsOrPanics m id (get_block_cache m id)
get_block_cache-GetsOrPanics m id v = elim (Bool-cases (is_cached id m.queue)) [
  | inl e ↦ inl (get_cached m id v e)
  | inr e ↦ elim (Bool-cases (length m.queue == block_cache_size)) [
    | inl l ↦ subst (GetsOrPanics m id) (sym (get_full m id e l)) (
        get_evicting m id (evict m.queue m.device) v e (ground arith)
          (evict-EvictsOrNot m.queue m.device v.one_each v.clean))
    | inr l ↦ subst (GetsOrPanics m id) (sym (get_room m id e l)) (
        inl (
          insert-Gets m id m.queue m.device v.one_each v.clean (ground (arith, v.bounded)) e
            (λ b. refl)))
  ]
]

never : true ≡ false → ⊥
never e = cc

written : (Block → Block) → BlockCache → BlockCache
written f c = record c { cache = f c.cache; modified = true }

-- Changing a block that is in a valid cache changes what the cache shows of that block, and of no
-- other; the cache stays valid.
pub view-modify :
    (m : BlockCacheManager) (id : ℕ) (f : Block → Block)
    → IsValid m
    → is_cached id m.queue ≡ true
    → IsValid (modify m id f)
      × ((b : ℕ) → view (modify m id f) b ≡ (if id == b then f (view m b) else view m b))
unfolding modify written
view-modify m id f v e = (
  record {
    one_each = OneEach-change (written f) (λ c. refl) id m.queue v.one_each;
    clean =
        Clean-change (written f) (λ c. refl) m.device id m.queue (λ c k q. absurd (never q))
          v.clean;
    bounded = omega (arith, length-change (written f) (λ c. refl) id m.queue, v.bounded);
  },
  λ b. look-change (written f) (λ c. refl) f (λ c. refl) m.device id b m.queue e,
)
