-- ===== src/Bench/Programs.antt =====
-- The workers from their start to their end, over any allocator that keeps the contract.
use pool_memalloc.Common.{ℕ, ◌≤◌, ◌≡◌, ◌≢◌, Option, some, List, [], ◌∷◌, arith}
use pool_memalloc.Heap.{Ptr, null}
use pool_memalloc.Heap.Count.{count}
use pool_memalloc.Bench.Contract.{Contract}
use pool_memalloc.Bench.{
  BenchmarkConfig, Worker, fresh_worker, Access, burst_worker, walk_worker, storm_worker,
  random_free_worker, random_size,
}
use pool_memalloc.Bench.Walks.{walks-IsWorking}
use pool_memalloc.Bench.Workers.{
  Own-count, AllOwn, IsFinished, give_back-IsFinished, start-IsWorking, burst_loop-IsWorking,
  fill_loop-IsWorking, storm_loop-IsWorking,
}

module _ {S : Type 0} {allocate : S → Option (S × Ptr)} {release : S → Ptr → Option S}
    {touch : S → Access → Option S} (c : Contract allocate release touch) (m0 : Ptr → ℕ)
    (once : (x : Ptr) → m0 x ≤ 1) where
  -- The worker of same_thread.cpp and alloc_burst.cpp, total, if it writes no more than a block: at its end the blocks that are free are
  -- those of its start, its vector is empty, and it has written to such blocks alone.
  pub burst_worker-IsFinished :
      (cfg : BenchmarkConfig) (s : S)
      → cfg.size ≤ c.room
      → c.Free s m0
      → (w : Worker S) × (burst_worker allocate release touch cfg s ≡ some w)
        × (IsFinished c m0 once) w
  unfolding burst_worker
  burst_worker-IsFinished cfg s fits f =
      let (w, e, is) =
        burst_loop-IsWorking c m0 once cfg.size cfg.batch cfg.ops (fresh_worker s) fits
          (start-IsWorking c m0 once s f) in
      let (w', e', done) = give_back-IsFinished c m0 once w is in
      (w', rw (burst_worker, e) e', done)

  -- The same of the worker of locality_walk.cpp.
  pub walk_worker-IsFinished :
      (cfg : BenchmarkConfig) (s : S)
      → cfg.size ≤ c.room
      → c.Free s m0
      → (w : Worker S) × (walk_worker allocate release touch cfg s ≡ some w)
        × (IsFinished c m0 once) w
  unfolding walk_worker
  walk_worker-IsFinished cfg s fits f =
      let (w, e, is) =
        fill_loop-IsWorking c m0 once cfg.size cfg.pool (fresh_worker s) fits
          (start-IsWorking c m0 once s f) in
      let (w1, e1, is1) = walks-IsWorking c m0 once 128 w is in
      let (w', e', done) = give_back-IsFinished c m0 once w1 is1 in
      (w', rw (walk_worker, e, e1) e', done)

  -- The same of the worker of alloc_storm.cpp, if the sizes that it draws are no larger than the
  -- blocks.
  pub storm_worker-IsFinished :
      (draw : ℕ → ℕ) (byte : ℕ) (cfg : BenchmarkConfig) (s : S)
      → ((k : ℕ) → random_size (draw k) ≤ c.room)
      → c.Free s m0
      → (w : Worker S) × (storm_worker allocate release touch draw byte cfg s ≡ some w)
        × (IsFinished c m0 once) w
  unfolding storm_worker
  storm_worker-IsFinished draw byte cfg s fits f =
      let (w, e, is) =
        storm_loop-IsWorking c m0 once draw byte cfg.ops 0 (fresh_worker s) fits
          (start-IsWorking c m0 once s f) in
      let (w', e', done) = give_back-IsFinished c m0 once w is in
      (w', rw (storm_worker, e) e', done)

  AllOwn-of_count :
      (ps : List Ptr) → ((x : Ptr) → 1 ≤ count x ps → c.Own x × (x ≢ null)) → (AllOwn c m0 once) ps
  AllOwn-of_count [] at = tt
  AllOwn-of_count (p ∷ ps) at =
      let (o, ne) = at p (ground arith) in
      (o, ne, AllOwn-of_count ps (λ x h. at x (ground (arith, h))))

  -- The same of the worker of random_free.cpp, if `std::shuffle` keeps the elements of the vector.
  pub random_free_worker-IsFinished :
      (draw : ℕ → ℕ) (shuffle : List Ptr → List Ptr) (byte : ℕ) (cfg : BenchmarkConfig) (s : S)
      → ((ps : List Ptr) (x : Ptr) → count x (shuffle ps) ≡ count x ps)
      → ((k : ℕ) → random_size (draw k) ≤ c.room)
      → c.Free s m0
      → (w : Worker S) × (random_free_worker allocate release touch draw shuffle byte cfg s
          ≡ some w)
        × (IsFinished c m0 once) w
  unfolding random_free_worker
  random_free_worker-IsFinished draw shuffle byte cfg s keeps fits f =
      let (w, e, is) =
        storm_loop-IsWorking c m0 once draw byte cfg.ops 0 (fresh_worker s) fits
          (start-IsWorking c m0 once s f) in
      let (w', e', done) =
        give_back-IsFinished c m0 once (record w { ptrs = shuffle w.ptrs })
          (record {
            free = is.free;
            state = is.state;
            counts = λ x. omega (arith, is.counts x, keeps w.ptrs x);
            own =
                AllOwn-of_count (shuffle w.ptrs)
                  λ x h. Own-count c m0 once w.ptrs is.own x (omega (arith, h, keeps w.ptrs x));
            inside = is.inside;
          }) in
      (w', rw (random_free_worker, e) e', done)
