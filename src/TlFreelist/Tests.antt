-- ===== src/TlFreelist/Tests.antt =====
-- `ThreadLocalFreelistAllocator`: its constructor at three blocks of 65 bytes, and its calls in a
-- process of two threads.
use pool_memalloc.Common.{
  ℕ, zero, suc, ◌+◌, ◌≡◌, ◌≢◌, ◌<◌, refl, true, Option, none, some, List, [], ◌∷◌, ◌==◌,
  if◌then◌else◌, arith,
}
use pool_memalloc.Common.Family.{update, total}
use pool_memalloc.Heap.{Ptr, null, tagged, World}
use pool_memalloc.Heap.Returns.{Returns}
use pool_memalloc.Stats.{Build, fresh_thread}
use pool_memalloc.Cache.{ThreadCache, new_cache}
use pool_memalloc.Cache.Spec.{Pools, pools}
use pool_memalloc.Cache.Valid.{IsCache}
use pool_memalloc.TlFreelist.{
  ThreadLocalFreelistAllocator, construct, block_size_for, get_cache, alloc, dealloc,
}
use pool_memalloc.TlFreelist.Life.{Built, construct-Built}
use pool_memalloc.TlFreelist.Shared.{IsShared, blocks}
use pool_memalloc.TlFreelist.Process.{alloc-IsShared, dealloc-IsShared}

abbrev start : World
start = record {
  next = λ a. 0;
  heads = λ f. tagged null 0;
  weak = true ∷ true ∷ [];
  local = fresh_thread;
}

abbrev serve : ℕ → ℕ → Ptr
serve alignment size = 4096

size_65 : block_size_for 65 ≡ 128
unfolding block_size_for
size_65 = refl

construct-Built_example : Returns (Built 0 65 3 2 4096 start) (construct serve 3 0 65 3 2 start)
construct-Built_example =
    construct-Built serve 3 0 65 3 2 start (omega arith) (omega (arith, size_65)) (omega arith)
      (omega arith) (omega (arith, size_65)) (omega arith)

-- Blocks 64, 128 and 192 are on the freelist, blocks 256 and 320 with thread 0; thread 1 has made no
-- call. The next compare-exchange fails.
abbrev links : Ptr → Ptr
links a = if a == 64 then 128 else if a == 128 then 192 else if a == 256 then 320 else 0

abbrev shared : World
shared = record {
  next = links;
  heads = λ f. tagged (if f == 0 then 64 else 0) 7;
  weak = true ∷ [];
  local = fresh_thread;
}

abbrev allocator : ThreadLocalFreelistAllocator
allocator = record { global = 0; batch_size = 1; block_size = 64; block_count = 6; region = 64 }

abbrev caches : ℕ → Option ThreadCache
caches t =
    if t == 0
    then some (record {
      local_head = 256;
      local_size = 2;
      batch_size = 1;
      low_watermark = 0;
      high_watermark = 2;
      global = 0;
    })
    else none

abbrev listed : List Ptr
listed = 64 ∷ 128 ∷ 192 ∷ []

abbrev cached : ℕ → List Ptr
cached t = if t == 0 then 256 ∷ 320 ∷ [] else []

abbrev checked : Build
checked = record { instrumentation = true; debug = true }

two_threads-IsCache :
    (t : ℕ) → t < 2 → IsCache shared (get_cache allocator (caches t)) (pools listed (cached t))
unfolding get_cache new_cache
two_threads-IsCache zero h = record {
  stack = record {
    chain = (refl, omega arith, (refl, omega arith, (refl, omega arith, refl)));
    distinct = (refl, (refl, (refl, tt)));
  };
  chain = (refl, omega arith, (refl, omega arith, refl));
  size = refl;
  once = λ a. ground arith;
  bounded = omega arith;
  batch = omega arith;
  low = omega arith;
  high = refl;
}
two_threads-IsCache (suc zero) h = record {
  stack = record {
    chain = (refl, omega arith, (refl, omega arith, (refl, omega arith, refl)));
    distinct = (refl, (refl, (refl, tt)));
  };
  chain = refl;
  size = refl;
  once = λ a. ground arith;
  bounded = omega arith;
  batch = omega arith;
  low = refl;
  high = refl;
}
two_threads-IsCache (suc (suc t)) h = absurd (omega arith)

two_threads-global : (t : ℕ) → t < 2 → (get_cache allocator (caches t)).global ≡ 0
unfolding get_cache new_cache
two_threads-global zero h = refl
two_threads-global (suc zero) h = refl
two_threads-global (suc (suc t)) h = absurd (omega arith)

two_threads-IsShared : IsShared 2 allocator caches shared listed cached
unfolding total
two_threads-IsShared = record {
  cache = two_threads-IsCache;
  global = two_threads-global;
  once = λ x. ground arith;
  bounded = omega arith;
}

alloc-IsShared_example :
    Returns
      (λ out w'.
        (q : Pools) × IsShared 2 allocator
          (update caches 1 (out.1))
          w'
          q.global
          (update cached 1 q.local)
        × ((x : Ptr)
            → x ≢ null
            → blocks q.global 2 (update cached 1 q.local) x + (if x == out.0 then 1 else 0)
              ≡ blocks listed 2 cached x))
      (alloc checked 4 2 allocator none shared)
alloc-IsShared_example =
    alloc-IsShared 2 allocator caches shared listed cached two_threads-IsShared 1 (omega arith)
      checked 4 2 (omega arith) (omega arith)

dealloc-IsShared_example :
    Returns
      (λ cache w'.
        (q : Pools) × IsShared 2 allocator
          (update caches 1 cache)
          w'
          q.global
          (update cached 1 q.local)
        × ((x : Ptr)
            → blocks q.global 2 (update cached 1 q.local) x
              ≡ blocks listed 2 cached x + (if x == 384 then 1 else 0)))
      (dealloc checked 4 2 allocator none 384 shared)
unfolding total
dealloc-IsShared_example =
    dealloc-IsShared 2 allocator caches shared listed cached two_threads-IsShared 1 (omega arith)
      checked 4 2 384 (omega arith) (omega arith) (omega arith) refl (omega arith)
