-- ===== src/Bench/CachedRuns.antt =====
-- The programs of benchmark/tl_freelist over a thread-local freelist allocator, from their start to
-- their end.
use pool_memalloc.Common.{
  ℕ, ◌+◌, ◌^◌, ◌≤◌, ◌<◌, ◌≡◌, refl, sym, ◌∙◌, Option, some, List, [], ◌++◌, arith, length,
  length-append,
}
use pool_memalloc.Heap.{Ptr, World}
use pool_memalloc.Heap.Count.{count, count-append}
use pool_memalloc.Cache.{ThreadCache}
use pool_memalloc.Cache.Spec.{Pools}
use pool_memalloc.Cache.Valid.{IsCache}
use pool_memalloc.Cache.Refill.{owned}
use pool_memalloc.TlFreelist.{get_cache}
use pool_memalloc.Bench.{BenchmarkConfig, Worker, random_size}
use pool_memalloc.Bench.Memory.{IsCut}
use pool_memalloc.Bench.TlFreelist.{
  State, Setting, end_of, same_thread, alloc_burst, locality_walk, alloc_storm, random_free,
}
use pool_memalloc.Bench.Cached.{IsFree, IsRoomy, cached-Contract}
use pool_memalloc.Bench.Workers.{IsFinished}
use pool_memalloc.Bench.Programs.{
  burst_worker-IsFinished, walk_worker-IsFinished, storm_worker-IsFinished,
  random_free_worker-IsFinished,
}

-- A run that ends with an empty vector, and with the blocks of its start in the two lists.
abbrev pub Refilled : Setting → Pools → Option (Worker State) → Type 0
Refilled e p run =
    (end : Worker State) × (run ≡ some end)
    × (end.ptrs ≡ [])
    × ((q : Pools) × IsCache (end.state.0) (get_cache e.allocator (end.state.1)) q
        × ((x : Ptr) → owned q x ≡ owned p x))

abbrev pub all : Pools → List Ptr
all p = p.global ++ p.local

module _ (e : Setting) (w : World) (c : Option ThreadCache) {p : Pools}
    (is : IsCache w (get_cache e.allocator c) p) (fuel : length w.weak < e.fuel)
    (rounds : length p.global + length p.local + 2 < e.rounds)
    (small : length p.global + length p.local + 1 < 2 ^ 63)
    (cut : IsCut (all p) e.allocator.block_size (end_of e.allocator)) where
  all-IsRoomy : IsRoomy e (all p)
  all-IsRoomy = record {
    rounds = omega (arith, length-append {0} p.global p.local);
    small = omega (arith, length-append {0} p.global p.local);
    cut = cut;
  }

  start-IsFree : IsFree e (all p) (w, c) (owned p)
  start-IsFree = record {
    lists = p;
    cache = is;
    counts = λ x. refl;
    among = λ x. omega (arith, count-append x p.global p.local);
    enough = fuel;
  }

  finished-Refilled :
      (run : Option (Worker State))
      → (end : Worker State) × (run ≡ some end)
        × IsFinished (cached-Contract e (all p) all-IsRoomy) (owned p) is.once end
      → Refilled e p run
  unfolding cached-Contract
  finished-Refilled run (end, eq, done) = (
    end,
    eq,
    done.none_kept,
    (done.state.lists, done.state.cache, λ x. sym (done.state.counts x) ∙ done.same x),
  )

  -- The workers of all five programs of benchmark/tl_freelist over one allocator, used by one thread
  -- with a well-formed cache, in every build and however often the compare-exchanges fail, with rounds
  -- and fuel enough and fewer than 2 ^ 63 - 1 blocks, if `std::shuffle` keeps the elements of the
  -- vector, the blocks lie in the region and are a block size apart, and neither the size of the command line nor a size that is drawn is
  -- larger than that: each ends, with an empty vector and a well-formed cache, and the freelist and
  -- the cache together hold the blocks of the start, each as often.
  pub programs-Refilled :
      (draw : ℕ → ℕ) (shuffle : List Ptr → List Ptr) (cfg : BenchmarkConfig)
      → ((ps : List Ptr) (x : Ptr) → count x (shuffle ps) ≡ count x ps)
      → cfg.size ≤ e.allocator.block_size
      → ((k : ℕ) → random_size (draw k) ≤ e.allocator.block_size)
      → Refilled e p (same_thread e cfg (w, c))
        × Refilled e p (alloc_burst e cfg (w, c))
        × Refilled e p (locality_walk e cfg (w, c))
        × Refilled e p (alloc_storm e draw cfg (w, c))
        × Refilled e p (random_free e draw shuffle cfg (w, c))
  unfolding cached-Contract
  programs-Refilled draw shuffle cfg keeps fits drawn_fits =
      let law = cached-Contract e (all p) all-IsRoomy in
      (
        finished-Refilled _
            (burst_worker-IsFinished law (owned p) is.once cfg (w, c) fits start-IsFree),
        finished-Refilled _
            (burst_worker-IsFinished law (owned p) is.once cfg (w, c) fits start-IsFree),
        finished-Refilled _
            (walk_worker-IsFinished law (owned p) is.once cfg (w, c) fits start-IsFree),
        finished-Refilled _ (
            storm_worker-IsFinished law (owned p) is.once draw 255 cfg (w, c) drawn_fits
              start-IsFree),
        finished-Refilled _ (
            random_free_worker-IsFinished law (owned p) is.once draw shuffle 238 cfg (w, c) keeps
              drawn_fits start-IsFree),
      )
