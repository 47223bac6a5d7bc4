-- ===== src/Numa/Setup.antt =====
-- What the constructor of `NumaAllocator` makes, for a thread that has not used it.
use mathlib.Core.Path.{subst}
use pool_memalloc.Common.{
  Bool, ℕ, ◌+◌, ◌*◌, ◌^◌, ◌≤◌, ◌<◌, ◌≡◌, ◌≢◌, refl, ap, true, false, none, [], ltb, if◌then◌else◌,
  arith, length,
}
use pool_memalloc.Common.Family.{total-once}
use pool_memalloc.Heap.{Ptr, World}
use pool_memalloc.Heap.Returns
use pool_memalloc.Heap.Returns.{Returns, returns}
use pool_memalloc.Freelist.Stack.{IsStack}
use pool_memalloc.TlFreelist
use pool_memalloc.TlFreelist.Carved.{fewer_blocks}
use pool_memalloc.TlFreelist.Life.{block_size_for_bounds}
use pool_memalloc.Cache.{new_cache}
use pool_memalloc.Cache.Spec.{Pools, pools}
use pool_memalloc.Cache.Valid.{IsCache, new_cache-IsCache}
use pool_memalloc.Cache.Refill.{owned}
use pool_memalloc.Numa.{
  NumaPool, NumaAllocator, new_pool, block_size_for, max_nodes, construct, get_cache,
}
use pool_memalloc.Numa.Nodes.{IsNodes, everywhere}
use pool_memalloc.Numa.Life.{
  region_of, cut, IsGiven, Filled, cut-once, cut-apart, length-cut, new_pools-Filled,
}
use pool_memalloc.Numa.Globals.{construct_globals-Emptied}

abbrev pub nodes_for : ℕ → ℕ
nodes_for node_count = if ltb max_nodes node_count then max_nodes else node_count

-- The allocator: the pool of each node holds the blocks of its region, none where the node has no
-- memory.
pub record IsSetUp (alloc_on_node : ℕ → ℕ → ℕ → Ptr) (first size n batch nodes : ℕ)
    (a : NumaAllocator) (w : World) : Type 0 where
  pub num_nodes : a.num_nodes ≡ nodes
  pub block_size : a.block_size ≡ size
  pub pool :
      (k : ℕ)
      → k < nodes
      → a.pools k ≡ new_pool (first + k) (region_of alloc_on_node size n k) size n batch
  pub sound : IsNodes a (λ k. none) w (λ k. pools (cut alloc_on_node size n k) [])

module _ (alloc_on_node : ℕ → ℕ → ℕ → Ptr) (first size n batch nodes : ℕ)
    (given : IsGiven alloc_on_node size n nodes) (wide : 64 ≤ size) (fits : size * n < 2 ^ 64)
    (small : batch < 2 ^ 62) where
  Filled-IsSetUp :
      (made : ℕ → NumaPool) (w : World)
      → Filled alloc_on_node size n first batch nodes nodes w made
      → IsSetUp alloc_on_node first size n batch nodes
          (record { pools = made; num_nodes = nodes; block_size = size })
          w
  unfolding get_cache new_cache
  Filled-IsSetUp made w d = record {
    num_nodes = refl;
    block_size = refl;
    pool = d.pool;
    sound = record { cache = cache; global = global; apart = apart; once = once };
  }
    where
      a : NumaAllocator
      a = record { pools = made; num_nodes = nodes; block_size = size }

      whole : (k : ℕ) → k < nodes → IsStack w (first + k) (cut alloc_on_node size n k)
      whole k h =
          let t : ltb k nodes ≡ true = ground arith in
          subst (λ (b : Bool). IsStack w (first + k) (if b then cut alloc_on_node size n k else []))
            t (d.stack k h)

      cache :
          (k : ℕ)
          → k < nodes
          → IsCache w (get_cache a (λ j. none) k) (pools (cut alloc_on_node size n k) [])
      cache k h =
          rw (get_cache, d.pool k h)
            (new_cache-IsCache batch (whole k h)
              (λ x. cut-once alloc_on_node size n k x (omega arith))
              (omega (arith, fewer_blocks size n wide fits, length-cut alloc_on_node size n k))
              small)

      global : (k : ℕ) → k < nodes → (get_cache a (λ j. none) k).global ≡ (made k).global
      global k h = refl

      apart : (j k : ℕ) → j < nodes → k < nodes → j ≢ k → (made j).global ≢ (made k).global
      apart j k hj hk ne = rw (d.pool j hj, d.pool k hk) (λ e. ne (omega (arith, e)))

      once : (x : Ptr) → everywhere (λ k. pools (cut alloc_on_node size n k) []) nodes x ≤ 1
      once x =
          total-once (λ (p : Pools). owned p x) nodes (λ k. pools (cut alloc_on_node size n k) [])
            (λ k h. omega (arith, cut-once alloc_on_node size n k x (omega arith)))
            (λ j k hj hk ne l. omega (
              arith,
              cut-apart alloc_on_node size n given (omega arith) j k x hj hk ne (omega (arith, l)),
            ))

-- The constructor, total: where no size wraps, the batch size is below 2 ^ 62, and the regions that
-- the operating system gives end in the address space and do not overlap, it has a pool for each of
-- the nodes, sixteen at most. The freelist of each holds the blocks of the node's region, or none
-- where the node has no memory, and before it a thread that has made no call has an empty cache: all
-- nodes are well-formed.
pub construct-IsSetUp :
    (alloc_on_node : ℕ → ℕ → ℕ → Ptr) (fuel first node_count sz n batch : ℕ) (before : ℕ → NumaPool)
    (w : World)
    → sz + 63 < 2 ^ 64
    → block_size_for sz * n < 2 ^ 64
    → batch < 2 ^ 62
    → IsGiven alloc_on_node (block_size_for sz) n (nodes_for node_count)
    → length w.weak < fuel
    → Returns
        (IsSetUp alloc_on_node first (block_size_for sz) n batch (nodes_for node_count))
        (construct alloc_on_node fuel first node_count sz n batch before w)
unfolding construct block_size_for TlFreelist.block_size_for
construct-IsSetUp alloc_on_node fuel first node_count sz n batch before w small fits few given l =
    Returns.bind (construct_globals-Emptied max_nodes first w) λ _ w1 d.
      Returns.bind
        (new_pools-Filled alloc_on_node (block_size_for sz) n first batch (nodes_for node_count)
          given (omega (arith, wide)) fuel fits (nodes_for node_count) 0 w1 before (omega arith)
          (omega (arith, ap length d.weak))
          (record {
            stack = λ k h.
                let t : ltb k 0 ≡ false = ground arith in
                rw t (record {
                  chain = d.empty (first + k) (omega arith) (ground arith);
                  distinct = tt;
                });
            pool = λ k h. absurd (omega arith);
          }))
        λ made w2 f. returns (
          Filled-IsSetUp alloc_on_node first (block_size_for sz) n batch (nodes_for node_count)
            given wide fits few made w2 f)
  where
    wide : 64 ≤ block_size_for sz
    wide = (block_size_for_bounds sz small).1
