-- ===== src/Numa/Tests.antt =====
-- The theorems of the NUMA allocator at two nodes.
use pool_memalloc.Common.{
  ℕ, zero, suc, ◌+◌, ◌*◌, ◌≡◌, ◌≢◌, ◌<◌, ◌↔◌, refl, true, none, some, [], ◌∷◌, ◌==◌, if◌then◌else◌,
  arith,
}
use pool_memalloc.Common.Family.{update, total}
use pool_memalloc.Heap.{Ptr, null, tagged, World}
use pool_memalloc.Heap.Returns.{Returns}
use pool_memalloc.Stats.{fresh_thread}
use pool_memalloc.Cache.{new_cache}
use pool_memalloc.Cache.Spec.{Pools, pools}
use pool_memalloc.Cache.Valid.{IsCache}
use pool_memalloc.Cache.Refill.{owned}
use pool_memalloc.Numa.{
  NumaPool, NumaAllocator, PerThread, get_cache, alloc, dealloc, block_size_for, construct,
}
use pool_memalloc.Numa.Life.{IsGiven}
use pool_memalloc.Numa.Setup.{nodes_for, IsSetUp, construct-IsSetUp}
use pool_memalloc.Numa.Owner.{IsOwn}
use pool_memalloc.Numa.Nodes.{IsEmpty, IsNodes, Served}
use pool_memalloc.Numa.Fallback.{alloc-Served}
use pool_memalloc.Numa.Return.{dealloc-own_node}

-- Node 0 has the addresses from 64 on, node 1 those from 512 on. Blocks 64, 128 and 192 are on the
-- freelist of node 0, blocks 256 and 320 in the thread's cache for it; node 1 has given out its block.
abbrev two_pools : ℕ → NumaPool
two_pools n =
    if n == 0
    then record {
      global = 0;
      region = 64;
      region_size = 384;
      block_size = 64;
      block_count = 6;
      batch_size = 1;
    }
    else record {
      global = n;
      region = 512;
      region_size = 64;
      block_size = 64;
      block_count = 1;
      batch_size = 1;
    }

abbrev allocator : NumaAllocator
allocator = record { pools = two_pools; num_nodes = 2; block_size = 64 }

abbrev links : Ptr → Ptr
links a = if a == 64 then 128 else if a == 128 then 192 else if a == 256 then 320 else 0

abbrev world : World
world = record {
  next = links;
  heads = λ f. tagged (if f == 0 then 64 else 0) 7;
  weak = true ∷ [];
  local = fresh_thread;
}

abbrev mine : PerThread
mine n =
    if n == 0
    then some (record {
      local_head = 256;
      local_size = 2;
      batch_size = 1;
      low_watermark = 0;
      high_watermark = 2;
      global = 0;
    })
    else none

abbrev held : ℕ → Pools
held n = if n == 0 then pools (64 ∷ 128 ∷ 192 ∷ []) (256 ∷ 320 ∷ []) else pools [] []

pair-IsCache : (n : ℕ) → n < 2 → IsCache world (get_cache allocator mine n) (held n)
unfolding get_cache new_cache
pair-IsCache zero h = record {
  stack = record {
    chain = (refl, omega arith, (refl, omega arith, (refl, omega arith, refl)));
    distinct = (refl, (refl, (refl, tt)));
  };
  chain = (refl, omega arith, (refl, omega arith, refl));
  size = refl;
  once = λ a. ground arith;
  bounded = omega arith;
  batch = omega arith;
  low = omega arith;
  high = refl;
}
pair-IsCache (suc zero) h = record {
  stack = record { chain = refl; distinct = tt };
  chain = refl;
  size = refl;
  once = λ a. omega arith;
  bounded = omega arith;
  batch = omega arith;
  low = refl;
  high = refl;
}
pair-IsCache (suc (suc n)) h = absurd (omega arith)

pair-global : (n : ℕ) → n < 2 → (get_cache allocator mine n).global ≡ (two_pools n).global
unfolding get_cache new_cache
pair-global zero h = refl
pair-global (suc zero) h = refl
pair-global (suc (suc n)) h = absurd (omega arith)

pair-apart : (m n : ℕ) → m < 2 → n < 2 → m ≢ n → (two_pools m).global ≢ (two_pools n).global
pair-apart m n h k ne = ground arith

pair-IsNodes : IsNodes allocator mine world held
unfolding total
pair-IsNodes = record {
  cache = pair-IsCache;
  global = pair-global;
  apart = pair-apart;
  once = λ x. ground arith;
}

two_pools-IsOwn : IsOwn two_pools 2 0 384
two_pools-IsOwn = record {
  ends = λ k h. ground arith;
  inside = (omega arith, omega arith);
  alone = λ j h (x, y). ground arith;
}

-- The thread runs on node 1, which has no block.
alloc-Served_example :
    Returns
      (λ out w'.
        (qs : ℕ → Pools) × Served allocator world held out w' qs
        × ((out.0 ≡ null) ↔ ((k : ℕ) → k < 2 → IsEmpty (held k))))
      (alloc (record { instrumentation = true; debug = true }) 4 2 allocator 1 mine world)
alloc-Served_example =
    alloc-Served (record { instrumentation = true; debug = true }) 4 2 allocator 1 mine world held
      (omega arith) pair-IsNodes (omega arith) (λ k h. ground arith)

dealloc-own_node_example :
    Returns
      (λ pt' w'.
        (q : Pools) × IsNodes allocator pt' w' (update held 0 q)
        × ((x : Ptr) → owned q x ≡ owned (held 0) x + (if x == 384 then 1 else 0)))
      (dealloc (record { instrumentation = true; debug = true }) 4 2 allocator mine 384 world)
unfolding total
dealloc-own_node_example =
    dealloc-own_node allocator mine world held pair-IsNodes 0 (omega arith) 384 (omega arith) refl
      (record { instrumentation = true; debug = true }) 4 2 two_pools-IsOwn (omega arith)
      (omega arith) (omega arith)

-- Three nodes, the second of which has no memory.
abbrev second_empty : ℕ → ℕ → ℕ → Ptr
second_empty bytes alignment node = if node == 1 then null else 4096 + node * 4096

second_empty-IsGiven : IsGiven second_empty (block_size_for 40) 2 (nodes_for 3)
unfolding block_size_for
second_empty-IsGiven = record {
  ends = λ k h. ground arith;
  apart = λ j k a hj hk (x, y, z) (x', y', z'). ground arith;
}

construct-IsSetUp_example :
    Returns
      (IsSetUp second_empty 7 (block_size_for 40) 2 4 (nodes_for 3))
      (construct second_empty 2 7 3 40 2 4 two_pools world)
unfolding block_size_for
construct-IsSetUp_example =
    construct-IsSetUp second_empty 2 7 3 40 2 4 two_pools world (omega arith) (omega arith)
      (omega arith) second_empty-IsGiven (omega arith)
