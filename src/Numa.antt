-- ===== src/Numa.antt =====
-- src/numa_allocator.cpp and include/numa_allocator.hpp: a pool for each NUMA node, and for each
-- thread an array of caches, one for each node, which is a `thread_local` of the function
-- `get_cache`: a thread has one array for all NUMA allocators of the process.
pub mod Utils
pub mod Owner
pub mod Nodes
pub mod Fallback
pub mod Return
pub mod Globals
pub mod Life
pub mod Setup
mod Tests
use pool_memalloc.Common.{
  ℕ, zero, suc, ◌+◌, ◌-◌, ◌*◌, ◌%◌, ◌^◌, Bool, true, false, ◌&&◌, Option, none, some, List, [], ◌∷◌,
  ltb, leb, ◌==◌, if◌then◌else◌,
}
use pool_memalloc.Common.Words.{u64, align_up, cache_line}
use pool_memalloc.Common.Family.{update}
use pool_memalloc.Heap.{Ptr, null, World, Cmd, pure, ◌>>=◌, ◌>>◌}
use pool_memalloc.Stats.{Build}
use pool_memalloc.Freelist
use pool_memalloc.Cache
use pool_memalloc.Cache.{ThreadCache, new_cache}
use pool_memalloc.TlFreelist.{size_of_FreeBlock}

-- `global` is the number of the pool's freelist.
pub record NumaPool : Type 0 where
  pub global : ℕ
  pub region : Ptr
  pub region_size : ℕ
  pub block_size : ℕ
  pub block_count : ℕ
  pub batch_size : ℕ

pub record NumaAllocator : Type 0 where
  pub pools : ℕ → NumaPool
  pub num_nodes : ℕ
  pub block_size : ℕ

abbrev pub max_nodes : ℕ
max_nodes = 16

-- `PerThread`: for each node a cache, if one was made.
abbrev pub PerThread : Type 0
PerThread = ℕ → Option ThreadCache

unfoldable pub block_size_for : ℕ → ℕ
unfolding align_up
block_size_for block_sz =
    align_up (if ltb block_sz size_of_FreeBlock then size_of_FreeBlock else block_sz) cache_line

-- The constructor's inner loop, `rounds` blocks left, from block `i` on.
unfoldable pub push_blocks :
    (fuel f : ℕ) → (region : Ptr) → (block_size rounds i : ℕ) → Cmd (Unit {0})
unfolding Freelist.push
push_blocks fuel f region block_size zero i = pure tt
push_blocks fuel f region block_size (suc rounds) i = do
  Freelist.push fuel f (u64 (region + u64 (i * block_size)))
  push_blocks fuel f region block_size rounds (i + 1)

abbrev pub new_pool :
    (global : ℕ) → (region : Ptr) → (block_size blocks_per_node batch : ℕ) → NumaPool
new_pool global region block_size blocks_per_node batch = record {
  global = global;
  region = region;
  region_size = u64 (block_size * blocks_per_node);
  block_size = block_size;
  block_count = blocks_per_node;
  batch_size = batch;
}

-- The constructor's outer loop, `rounds` nodes left, from node `n` on. A node whose memory cannot
-- be had keeps an empty pool. `alloc_on_node` is `numa::alloc_on_node`, and pool `n` has freelist
-- `first + n`.
unfoldable pub new_pools :
    (alloc_on_node : ℕ → ℕ → ℕ → Ptr)
    → (fuel first block_size blocks_per_node batch rounds n : ℕ) → (ℕ → NumaPool)
    → Cmd (ℕ → NumaPool)
unfolding push_blocks
new_pools alloc_on_node fuel first block_size blocks_per_node batch zero n pools = pure pools
new_pools alloc_on_node fuel first block_size blocks_per_node batch (suc rounds) n pools = do
  let region = alloc_on_node (u64 (block_size * blocks_per_node)) cache_line n
  let pool = new_pool (first + n) region block_size blocks_per_node batch
  if region == null
      then pure tt
      else push_blocks fuel (first + n) region block_size blocks_per_node 0
  new_pools alloc_on_node fuel first block_size blocks_per_node batch rounds (n + 1)
      (update pools n pool)

-- The freelists of all sixteen pools are constructed first.
unfoldable pub construct_globals : (rounds f : ℕ) → Cmd (Unit {0})
unfolding Freelist.construct
construct_globals zero f = pure tt
construct_globals (suc rounds) f = do Freelist.construct f; construct_globals rounds (f + 1)

-- `pools` says what the members of the pools hold before they are set, and `node_count` is the
-- result of `numa::node_count`.
unfoldable pub construct :
    (alloc_on_node : ℕ → ℕ → ℕ → Ptr)
    → (fuel first node_count block_sz blocks_per_node batch : ℕ) → (ℕ → NumaPool)
    → Cmd NumaAllocator
unfolding block_size_for new_pools construct_globals
construct alloc_on_node fuel first node_count block_sz blocks_per_node batch pools = do
  construct_globals max_nodes first
  let block_size = block_size_for block_sz
  let num_nodes = if ltb max_nodes node_count then max_nodes else node_count
  made ← new_pools alloc_on_node fuel first block_size blocks_per_node batch num_nodes 0 pools
  pure (record { pools = made; num_nodes = num_nodes; block_size = block_size })

-- The destructor's loop: the regions that are given back, with their sizes.
unfoldable pub free_pools : (ℕ → NumaPool) → (rounds n : ℕ) → List (Ptr × ℕ)
free_pools pools zero n = []
free_pools pools (suc rounds) n =
    let rest = free_pools pools rounds (n + 1) in
    if (pools n).region == null then rest else ((pools n).region, (pools n).region_size) ∷ rest

unfoldable pub destroy : NumaAllocator → List (Ptr × ℕ)
unfolding free_pools
destroy a = free_pools a.pools a.num_nodes 0

-- The loop of `owner_node`, `rounds` nodes left, from node `n` on.
unfoldable pub owner_from : (ℕ → NumaPool) → (rounds n : ℕ) → Ptr → ℕ
owner_from pools zero n addr = 0
owner_from pools (suc rounds) n addr =
    let base = (pools n).region in
    let rest = owner_from pools rounds (n + 1) addr in
    if leb base addr && ltb addr (u64 (base + (pools n).region_size)) then n else rest

unfoldable pub owner_node : NumaAllocator → Ptr → ℕ
unfolding owner_from
owner_node a ptr = owner_from a.pools a.num_nodes 0 ptr

unfoldable pub get_cache : NumaAllocator → PerThread → (node : ℕ) → ThreadCache
unfolding new_cache
get_cache a pt node = elim (pt node) [
  | none ↦ new_cache (a.pools node).global (a.pools node).batch_size
  | some c ↦ c
]

-- `get_cache(node).alloc()`
unfoldable pub alloc_from :
    Build → (rounds fuel : ℕ) → NumaAllocator → PerThread → (node : ℕ) → Cmd (Ptr × PerThread)
unfolding Cache.alloc get_cache
alloc_from b rounds fuel a pt node = do
  (p, c) ← Cache.alloc b rounds fuel (get_cache a pt node)
  pure (p, update pt node (some c))

-- The loop over the other nodes, `left` of them to go, from node `n` on.
unfoldable pub fallback :
    Build
    → (rounds fuel : ℕ) → NumaAllocator
    → (node left n : ℕ) → PerThread
    → Cmd (Ptr × PerThread)
unfolding alloc_from
fallback b rounds fuel a node zero n pt = pure (null, pt)
fallback b rounds fuel a node (suc left) n pt =
    if n == node then fallback b rounds fuel a node left (n + 1) pt else do
      (p, pt') ← alloc_from b rounds fuel a pt n
      if p == null then fallback b rounds fuel a node left (n + 1) pt' else pure (p, pt')

-- `alloc`, after the call of `numa::current_node`, whose result is an argument.
unfoldable pub alloc :
    Build
    → (rounds fuel : ℕ) → NumaAllocator
    → (current_node : ℕ) → PerThread
    → Cmd (Ptr × PerThread)
unfolding fallback alloc_from
alloc b rounds fuel a current_node pt = do
  let node = if leb a.num_nodes current_node then 0 else current_node
  (p, pt') ← alloc_from b rounds fuel a pt node
  if p == null then fallback b rounds fuel a node a.num_nodes 0 pt' else pure (p, pt')

unfoldable pub dealloc : Build → (rounds fuel : ℕ) → NumaAllocator → PerThread → Ptr → Cmd PerThread
unfolding owner_node get_cache Cache.dealloc
dealloc b rounds fuel a pt ptr = do
  let node = owner_node a ptr
  c ← Cache.dealloc b rounds fuel (get_cache a pt node) ptr
  pure (update pt node (some c))
