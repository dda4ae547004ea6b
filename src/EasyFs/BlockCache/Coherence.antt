-- ===== src/EasyFs/BlockCache/Coherence.antt =====
-- The cache shows one disk, whatever it holds: what its users read and write.
use rcore_os.Prelude.{
  ℕ, suc, ◌≤◌, ◌≡◌, refl, ap, sym, ◌∙◌, false, ◌||◌, List, [], ◌∷◌, ◌++◌, Option, none, some,
  if◌then◌else◌, ◌==◌, length, arith, inl, inr, Bool-cases, All, ==_self,
}
use rcore_os.EasyFs.Disk.{Disk}
use rcore_os.EasyFs.BlockCache.{
  BlockCache, BlockCacheManager, load, sync, is_cached, evict, block_cache_size,
}

-- The block that a user of the cache reads.
abbrev pub look : List BlockCache → Disk → Disk
look [] device b = device b
look (c ∷ cs) device b = if c.block_id == b then c.cache else look cs device b

abbrev pub view : BlockCacheManager → Disk
view m = look m.queue m.device

-- A cache that is not modified holds what the device does.
abbrev pub Clean : Disk → BlockCache → Type 0
Clean device c = c.modified ≡ false → c.cache ≡ device c.block_id

abbrev pub OneEach : List BlockCache → Type 0
OneEach [] = Unit {0}
OneEach (c ∷ cs) = (is_cached c.block_id cs ≡ false) × OneEach cs

pub record IsValid (m : BlockCacheManager) : Type 0 where
  pub one_each : OneEach m.queue
  pub clean : All (Clean m.device) m.queue
  pub bounded : length m.queue ≤ block_cache_size

pub look-uncached :
    (cs : List BlockCache) (d : Disk) (b : ℕ) → is_cached b cs ≡ false → look cs d b ≡ d b
unfolding is_cached
look-uncached [] d b h = refl
look-uncached (c ∷ cs) d b h = ground (arith, look-uncached cs d b)

pub look-append :
    (cs : List BlockCache) (d : Disk) (id b : ℕ)
    → is_cached id cs ≡ false
    → look (cs ++ (load d id ∷ [])) d b ≡ look cs d b
unfolding is_cached load
look-append [] d id b h = elim (Bool-cases (id == b)) [
  | inl e ↦ let same : id ≡ b = ground arith in rw (e, same) refl
  | inr e ↦ rw e refl
]
look-append (c ∷ cs) d id b h = elim (Bool-cases (c.block_id == b)) [
  | inl e ↦ rw e refl
  | inr e ↦ rw e (look-append cs d id b (ground arith))
]

pub is_cached-append :
    (cs : List BlockCache) (d : Disk) (id b : ℕ)
    → is_cached b (cs ++ (load d id ∷ [])) ≡ (is_cached b cs || (id == b))
unfolding is_cached load
is_cached-append [] d id b = ground arith
is_cached-append (c ∷ cs) d id b = ground (arith, is_cached-append cs d id b)

pub OneEach-append :
    (cs : List BlockCache) (d : Disk) (id : ℕ)
    → is_cached id cs ≡ false
    → OneEach cs
    → OneEach (cs ++ (load d id ∷ []))
unfolding is_cached
OneEach-append [] d id h o = (refl, tt)
OneEach-append (c ∷ cs) d id h o = (
  ground (arith, is_cached-append cs d id c.block_id, o.0),
  OneEach-append cs d id (ground arith) o.1,
)

pub Clean-append :
    (cs : List BlockCache) (d : Disk) (id : ℕ)
    → All (Clean d) cs
    → All (Clean d) (cs ++ (load d id ∷ []))
unfolding load
Clean-append [] d id h = (λ _. refl, tt)
Clean-append (c ∷ cs) d id h = (h.0, Clean-append cs d id h.1)

-- What eviction does to valid caches `cs` over `d`.
pub record Evicts (cs : List BlockCache) (d : Disk) (cs' : List BlockCache) (d' : Disk)
    : Type 0 where
  pub seen : (b : ℕ) → look cs' d' b ≡ look cs d b
  pub others : (b : ℕ) → is_cached b cs ≡ false → d' b ≡ d b
  pub fewer : (b : ℕ) → is_cached b cs ≡ false → is_cached b cs' ≡ false
  pub shorter : length cs ≡ suc (length cs')
  pub one_each : OneEach cs'
  pub clean : All (Clean d') cs'

pub sync_other : (d : Disk) (c : BlockCache) (b : ℕ) → (c.block_id == b) ≡ false → sync d c b ≡ d b
unfolding sync
sync_other d c b e = elim (Bool-cases c.modified) [ inl m ↦ rw (m, e) refl | inr m ↦ rw m refl ]

-- A cache that is written back is on the device.
pub sync_self : (d : Disk) (c : BlockCache) → Clean d c → sync d c c.block_id ≡ c.cache
unfolding sync
sync_self d c k = elim (Bool-cases c.modified) [
  | inl m ↦ rw (m, ==_self c.block_id) refl
  | inr m ↦ rw m (sym (k m))
]

pub look_over :
    (cs : List BlockCache) (d d' : Disk) (b : ℕ) → d' b ≡ d b → look cs d' b ≡ look cs d b
look_over [] d d' b e = e
look_over (c ∷ cs) d d' b e = elim (Bool-cases (c.block_id == b)) [
  | inl q ↦ rw q refl
  | inr q ↦ rw q (look_over cs d d' b e)
]

pub Clean-sync :
    (d : Disk) (c : BlockCache) (cs : List BlockCache)
    → is_cached c.block_id cs ≡ false
    → All (Clean d) cs
    → All (Clean (sync d c)) cs
unfolding is_cached
Clean-sync d c [] h k = tt
Clean-sync d c (x ∷ xs) h k = (
  λ e. k.0 e ∙ sym (sync_other d c x.block_id (ground arith)),
  Clean-sync d c xs (ground arith) k.1,
)

Evicts-head :
    (c : BlockCache) (cs : List BlockCache) (d : Disk)
    → OneEach (c ∷ cs)
    → All (Clean d) (c ∷ cs)
    → Evicts (c ∷ cs) d cs (sync d c)
unfolding is_cached
Evicts-head c cs d o k = record {
  seen = λ b. elim (Bool-cases (c.block_id == b)) [
    | inl q ↦
        let same : c.block_id ≡ b = ground arith in
        rw (q, ← same) (look-uncached cs (sync d c) c.block_id o.0 ∙ sync_self d c k.0)
    | inr q ↦ rw q (look_over cs d (sync d c) b (sync_other d c b q))
  ];
  others = λ b h. sync_other d c b (ground arith);
  fewer = λ b h. ground arith;
  shorter = refl;
  one_each = o.1;
  clean = Clean-sync d c cs o.0 k.1;
}

Evicts-later :
    (c : BlockCache) (cs cs' : List BlockCache) (d d' : Disk)
    → OneEach (c ∷ cs)
    → All (Clean d) (c ∷ cs)
    → Evicts cs d cs' d'
    → Evicts (c ∷ cs) d (c ∷ cs') d'
unfolding is_cached
Evicts-later c cs cs' d d' o k v = record {
  seen = λ b. elim (Bool-cases (c.block_id == b)) [ inl q ↦ rw q refl | inr q ↦ rw q (v.seen b) ];
  others = λ b h. v.others b (ground arith);
  fewer = λ b h. ground (arith, v.fewer b);
  shorter = ap suc v.shorter;
  one_each = (v.fewer c.block_id o.0, v.one_each);
  clean = (λ e. k.0 e ∙ sym (v.others c.block_id o.0), v.clean);
}

abbrev pub AllUsed : List BlockCache → Type 0
AllUsed = All (λ c. (c.users == 0) ≡ false)

-- Eviction fails only when each cache is used.
abbrev pub EvictsOrNot : List BlockCache → Disk → Option (List BlockCache × Disk) → Type 0
EvictsOrNot cs d none = AllUsed cs
EvictsOrNot cs d (some r) = Evicts cs d r.0 r.1

keep_head :
    (c : BlockCache) (cs : List BlockCache) (d : Disk) (r : Option (List BlockCache × Disk))
    → (c.users == 0) ≡ false
    → OneEach (c ∷ cs)
    → All (Clean d) (c ∷ cs)
    → EvictsOrNot cs d r
    → EvictsOrNot (c ∷ cs) d (elim r [ none ↦ none | some r' ↦ some (c ∷ r'.0, r'.1) ])
keep_head c cs d none u o k v = (u, v)
keep_head c cs d (some (cs', d')) u o k v = Evicts-later c cs cs' d d' o k v

pub evict-EvictsOrNot :
    (cs : List BlockCache) (d : Disk)
    → OneEach cs
    → All (Clean d) cs
    → EvictsOrNot cs d (evict cs d)
unfolding evict
evict-EvictsOrNot [] d o k = tt
evict-EvictsOrNot (c ∷ cs) d o k = elim (Bool-cases (c.users == 0)) [
  | inl u ↦ rw (u, evict) (Evicts-head c cs d o k)
  | inr u ↦ rw (u, evict) (keep_head c cs d (evict cs d) u o k (evict-EvictsOrNot cs d o.1 k.1))
]
