-- ===== src/MultiSize/Tests.antt =====
-- Size classes at concrete requests, and the cache that two of them share.
use pool_memalloc.Heap.{Ptr, null, tagged, World, ok, load_next}
use pool_memalloc.Stats.{Build, fresh_thread, alloc_stat, alloc_debug_on_alloc}
use pool_memalloc.Cache
use pool_memalloc.Cache.{ThreadCache}
use pool_memalloc.TlFreelist
use pool_memalloc.TlFreelist.{ThreadLocalFreelistAllocator}
use pool_memalloc.Common.{ℕ, ◌≡◌, refl, false, some, [], ◌∷◌, arith, ◌*◌, ◌+◌}
use pool_memalloc.Heap.Returns.{Returns}
use pool_memalloc.MultiSize.{
  MultiSizeAllocator, num_classes, class_index, alloc, dealloc, construct,
}
use pool_memalloc.MultiSize.Life.{IsGiven}
use pool_memalloc.MultiSize.Setup.{class, class-block_le, IsClassed, construct-IsClassed}
use pool_memalloc.MultiSize.Classes.{alloc-any_size}

classes :
    class_index 0 ∷ class_index 16 ∷ class_index 17 ∷ class_index 256 ∷ class_index 257 ∷ []
    ≡ 0 ∷ 0 ∷ 1 ∷ 4 ∷ 5 ∷ []
unfolding class_index
classes = refl

abbrev plain : Build
plain = record { instrumentation = false; debug = false }

abbrev start : World
start = record { next = λ a. 0; heads = λ f. tagged null 0; weak = []; local = fresh_thread }

abbrev pool : ℕ → ℕ → Ptr → ThreadLocalFreelistAllocator
pool f size region = record {
  global = f;
  batch_size = 1;
  block_size = size;
  block_count = 2;
  region = region;
}

abbrev five_pools : MultiSizeAllocator
five_pools = record {
  pools =
      pool 0 64 4096 ∷ pool 1 64 8192 ∷ pool 2 64 12288 ∷ pool 3 128 16384 ∷ pool 4 256 20480 ∷ [];
}

-- The cache of a thread whose first request was for 16 bytes: its blocks are those of 64 bytes.
abbrev small_cache : ThreadCache
small_cache = record {
  local_head = 4096;
  local_size = 1;
  batch_size = 1;
  low_watermark = 0;
  high_watermark = 2;
  global = 0;
}

-- It then serves a request for 256 bytes with such a block.
too_small :
    alloc plain 4 2 five_pools (some small_cache) 256 start
    ≡ ok (4096, some (record small_cache { local_head = 0; local_size = 0 })) start
unfolding alloc load_next alloc_stat alloc_debug_on_alloc
too_small = refl

alloc-any_size_example :
    (alloc plain 4 2 five_pools (some small_cache) 256 start
      ≡ TlFreelist.with_cache (Cache.alloc plain 4 2 small_cache) start)
    × (dealloc plain 4 2 five_pools (some small_cache) 20480 256 start
        ≡ TlFreelist.keep_cache (Cache.dealloc plain 4 2 small_cache 20480) start)
alloc-any_size_example =
    alloc-any_size plain 4 2 five_pools 256 small_cache 20480 start (omega arith) refl

-- Pool `i` gets the memory from `4096 * (i + 1)` on.
abbrev serve : ℕ → ℕ → ℕ → Ptr
serve i alignment size = 4096 + i * 4096

serve-IsGiven : IsGiven serve class 2 num_classes
serve-IsGiven = record {
  non_null = λ k h. omega arith;
  ends = λ k h. omega (arith, class-block_le k h);
  apart = λ j k a hj hk (x, y) (x', y'). omega (arith, class-block_le j hj, class-block_le k hk);
}

construct-IsClassed_example : Returns (IsClassed serve 3 2 1) (construct serve 4 3 2 1 start)
construct-IsClassed_example =
    construct-IsClassed serve 4 3 2 1 start serve-IsGiven (omega arith) (omega arith) (omega arith)
