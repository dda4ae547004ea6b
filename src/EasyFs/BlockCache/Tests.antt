-- ===== src/EasyFs/BlockCache/Tests.antt =====
-- A cache of two blocks, one of which is modified.
use rcore_os.Prelude.{◌+◌, ◌≡◌, refl, true, false, [], ◌∷◌, if◌then◌else◌, ◌==◌, arith}
use rcore_os.EasyFs.Disk.{Block, Disk}
use rcore_os.EasyFs.BlockCache.{BlockCacheManager, is_cached, get_block_cache}
use rcore_os.EasyFs.BlockCache.Coherence.{IsValid}
use rcore_os.EasyFs.BlockCache.Access.{GetsOrPanics, get_block_cache-GetsOrPanics}

abbrev numbered : Disk
numbered b k = b + k

abbrev two_cached : BlockCacheManager
two_cached = record {
  queue =
      record { cache = numbered 7; block_id = 7; modified = false; users = 0 }
      ∷ record { cache = λ k. 0; block_id = 3; modified = true; users = 1 }
      ∷ [];
  device = numbered;
}

two_cached-IsValid : IsValid two_cached
unfolding is_cached
two_cached-IsValid = record {
  one_each = (refl, (refl, tt));
  clean = (λ e. refl, (λ e. cc, tt));
  bounded = omega arith;
}

get_block_cache-GetsOrPanics_example : GetsOrPanics two_cached 5 (get_block_cache two_cached 5)
get_block_cache-GetsOrPanics_example = get_block_cache-GetsOrPanics two_cached 5 two_cached-IsValid

abbrev zero_first : Block → Block
zero_first b k = if k == 0 then 0 else b k

three_cached : is_cached 3 two_cached.queue ≡ true
unfolding is_cached
three_cached = refl
