-- ===== src/TlFreelist.antt =====
-- `ThreadLocalFreelistAllocator` of src/tl_freelist_allocator.cpp: one region cut into blocks, a
-- freelist of them, and in front of it a cache for each thread. The cache is a `thread_local` of the
-- function `get_cache`: a thread has one for all allocators of the process, which the first call
-- makes, and the allocator of a later call does not matter. `Option ThreadCache` is that variable.
pub mod Carved
pub mod Life
pub mod Shared
pub mod Process
mod Tests
use pool_memalloc.Common.{
  ℕ, zero, suc, ◌+◌, ◌-◌, ◌*◌, ◌%◌, ◌^◌, Option, none, some, List, [], ◌∷◌, ltb, ◌==◌,
  if◌then◌else◌,
}
use pool_memalloc.Common.Words.{u64, align_up, cache_line}
use pool_memalloc.Heap.{Ptr, null, World, Cmd, pure, ◌>>=◌, ◌>>◌}
use pool_memalloc.Stats.{Build}
use pool_memalloc.Freelist
use pool_memalloc.Cache
use pool_memalloc.Cache.{ThreadCache, new_cache}

-- `global` is the number of the freelist that the allocator has as a member.
pub record ThreadLocalFreelistAllocator : Type 0 where
  pub global : ℕ
  pub batch_size : ℕ
  pub block_size : ℕ
  pub block_count : ℕ
  pub region : Ptr

-- `sizeof(FreeBlock)`, by its `alignas(64)`.
abbrev pub size_of_FreeBlock : ℕ
size_of_FreeBlock = 64

unfoldable pub block_size_for : ℕ → ℕ
unfolding align_up
block_size_for block_sz =
    align_up (if ltb block_sz size_of_FreeBlock then size_of_FreeBlock else block_sz) cache_line

-- The constructor's loop over the blocks, `rounds` of them left, from block `i` on.
unfoldable pub push_blocks :
    (fuel f : ℕ) → (region : Ptr) → (block_size rounds i : ℕ) → Cmd (Unit {0})
unfolding Freelist.push
push_blocks fuel f region block_size zero i = pure tt
push_blocks fuel f region block_size (suc rounds) i = do
  Freelist.push fuel f (u64 (region + u64 (i * block_size)))
  push_blocks fuel f region block_size rounds (i + 1)

-- `aligned_alloc` is `std::aligned_alloc`; no allocator where the constructor throws.
unfoldable pub construct :
    (aligned_alloc : ℕ → ℕ → Ptr)
    → (fuel f block_sz num_blocks batch : ℕ) → Cmd (Option ThreadLocalFreelistAllocator)
unfolding block_size_for push_blocks align_up
construct aligned_alloc fuel f block_sz num_blocks batch = do
  Freelist.construct f
  let block_size = block_size_for block_sz
  let total = align_up (u64 (block_size * num_blocks)) cache_line
  let region = aligned_alloc cache_line total
  if region == null then pure none else do
    push_blocks fuel f region block_size num_blocks 0
    pure (
        some (record {
          global = f;
          batch_size = batch;
          block_size = block_size;
          block_count = num_blocks;
          region = region;
        }))

-- The destructor's calls of `std::free`.
unfoldable pub destroy : ThreadLocalFreelistAllocator → List Ptr
destroy a = if a.region == null then [] else a.region ∷ []

unfoldable pub get_cache : ThreadLocalFreelistAllocator → Option ThreadCache → ThreadCache
unfolding new_cache
get_cache a none = new_cache a.global a.batch_size
get_cache a (some c) = c

-- A call of the cache, which the thread keeps.
abbrev pub with_cache : Cmd (Ptr × ThreadCache) → Cmd (Ptr × Option ThreadCache)
with_cache call = do (p, c) ← call; pure (p, some c)

abbrev pub keep_cache : Cmd ThreadCache → Cmd (Option ThreadCache)
keep_cache call = do c ← call; pure (some c)

unfoldable pub alloc :
    Build
    → (rounds fuel : ℕ) → ThreadLocalFreelistAllocator
    → Option ThreadCache
    → Cmd (Ptr × Option ThreadCache)
unfolding Cache.alloc get_cache
alloc b rounds fuel a cache = with_cache (Cache.alloc b rounds fuel (get_cache a cache))

unfoldable pub dealloc :
    Build
    → (rounds fuel : ℕ) → ThreadLocalFreelistAllocator
    → Option ThreadCache
    → Ptr
    → Cmd (Option ThreadCache)
unfolding Cache.dealloc get_cache
dealloc b rounds fuel a cache ptr = keep_cache (Cache.dealloc b rounds fuel (get_cache a cache) ptr)
