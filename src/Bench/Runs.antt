-- ===== src/Bench/Runs.antt =====
-- The programs of benchmark/bitmap over a bitmap allocator, from their start to their end.
use pool_memalloc.Common.{
  ℕ, zero, suc, ◌+◌, ◌≤◌, ◌<◌, ◌≡◌, refl, Option, some, List, [], ◌==◌, if◌then◌else◌, arith,
  ℕ_discrete,
}
use pool_memalloc.Heap.Count.{count}
use pool_memalloc.Bitmap.{BitmapAllocator, Ptr}
use pool_memalloc.Bitmap.Valid.{IsValid, allocated}
use pool_memalloc.Bitmap.Dealloc.{address, address-inj}
use pool_memalloc.Bench.{BenchmarkConfig, Worker, random_size}
use pool_memalloc.Bench.Bitmap.{
  IsFree, bitmap-Contract, same_thread, alloc_burst, locality_walk, alloc_storm, random_free,
}
use pool_memalloc.Bench.Workers.{IsFinished}
use pool_memalloc.Bench.Programs.{
  burst_worker-IsFinished, walk_worker-IsFinished, storm_worker-IsFinished,
  random_free_worker-IsFinished,
}

module _ {a : BitmapAllocator} (v : IsValid a) where
  wide : 1 ≤ a.block_size
  wide = omega (arith, v.positive)

  -- How often a block at `x` is free among the first `n`.
  free_in : (n : ℕ) → Ptr → ℕ
  free_in zero x = 0
  free_in (suc n) x =
      let rest = free_in n x in
      if x == address a n then (if allocated a n then 0 else 1) + rest else rest

  free_in-past : (n i : ℕ) → n ≤ i → free_in n (address a i) ≡ 0
  unfolding free_in
  free_in-past zero i h = refl
  free_in-past (suc n) i h = ground (arith, free_in-past n i (omega arith), address-inj v i n)

  free_in-at : (n i : ℕ) → i < n → free_in n (address a i) ≡ (if allocated a i then 0 else 1)
  unfolding free_in
  free_in-at zero i h = elim h [ ]
  free_in-at (suc n) i h = elim (ℕ_discrete i n) [
    | yes e ↦ rw e (ground (arith, free_in-past n n (omega arith)))
    | no ne ↦ ground (arith, free_in-at n i (omega arith), address-inj v i n)
  ]

  free_in-once : (n : ℕ) (x : Ptr) → free_in n x ≤ 1
  unfolding free_in
  free_in-once zero x = omega arith
  free_in-once (suc n) x = elim (ℕ_discrete x (address a n)) [
    | yes e ↦ rw e (ground (arith, free_in-past n n (omega arith)))
    | no ne ↦ ground (arith, free_in-once n x)
  ]

  start-IsFree : (spurious : ℕ) → IsFree spurious a a (free_in a.block_count)
  start-IsFree spurious = record { valid = v; shape = refl; counts = free_in-at a.block_count }

  -- A run that ends with an empty vector, and with every block as it was.
  abbrev pub Restored : Option (Worker BitmapAllocator) → Type 0
  Restored run =
      (w : Worker BitmapAllocator) × (run ≡ some w)
      × (w.ptrs ≡ [])
      × IsValid w.state
      × ((j : ℕ) → j < a.block_count → allocated w.state j ≡ allocated a j)

  finished-Restored :
      (spurious : ℕ) (run : Option (Worker BitmapAllocator))
      → (w : Worker BitmapAllocator) × (run ≡ some w)
        × IsFinished
            (bitmap-Contract spurious a wide)
            (free_in a.block_count)
            (free_in-once a.block_count)
            w
      → Restored run
  unfolding bitmap-Contract
  finished-Restored spurious run (w, e, done) = (
    w,
    e,
    done.none_kept,
    done.state.valid,
    λ j h.
        ground
          (arith, done.state.counts j h, done.same (address a j), free_in-at a.block_count j h),
  )

  -- The workers of all five programs of benchmark/bitmap over one valid allocator, used by one
  -- thread, however often the compare-exchanges fail, if `std::shuffle` keeps the elements of the
  -- vector and neither the size of the command line nor a size that is drawn is larger than a block:
  -- each ends without a write past the allocator's memory, with an empty vector, and leaves the
  -- allocator valid and every block taken or free as it was.
  pub programs-Restored :
      (spurious : ℕ) (draw : ℕ → ℕ) (shuffle : List Ptr → List Ptr) (cfg : BenchmarkConfig)
      → ((ps : List Ptr) (x : Ptr) → count x (shuffle ps) ≡ count x ps)
      → cfg.size ≤ a.block_size
      → ((k : ℕ) → random_size (draw k) ≤ a.block_size)
      → Restored (same_thread spurious cfg a)
        × Restored (alloc_burst spurious cfg a)
        × Restored (locality_walk spurious cfg a)
        × Restored (alloc_storm spurious draw cfg a)
        × Restored (random_free spurious draw shuffle cfg a)
  unfolding bitmap-Contract
  programs-Restored spurious draw shuffle cfg keeps fits drawn_fits = (
    finished-Restored spurious _ (
        burst_worker-IsFinished (bitmap-Contract spurious a wide) (free_in a.block_count)
          (free_in-once a.block_count) cfg a fits (start-IsFree spurious)),
    finished-Restored spurious _ (
        burst_worker-IsFinished (bitmap-Contract spurious a wide) (free_in a.block_count)
          (free_in-once a.block_count) cfg a fits (start-IsFree spurious)),
    finished-Restored spurious _ (
        walk_worker-IsFinished (bitmap-Contract spurious a wide) (free_in a.block_count)
          (free_in-once a.block_count) cfg a fits (start-IsFree spurious)),
    finished-Restored spurious _ (
        storm_worker-IsFinished (bitmap-Contract spurious a wide) (free_in a.block_count)
          (free_in-once a.block_count) draw 239 cfg a drawn_fits (start-IsFree spurious)),
    finished-Restored spurious _ (
        random_free_worker-IsFinished (bitmap-Contract spurious a wide) (free_in a.block_count)
          (free_in-once a.block_count) draw shuffle 205 cfg a keeps drawn_fits
          (start-IsFree spurious)),
  )
