-- ===== src/Bench/TlBitmap.antt =====
-- `ThreadLocalBitmapAllocator` under the workers of benchmark/tl_bitmap, as one thread runs them.
use pool_memalloc.Common.{
  [], ◌∷◌, ◌+◌, ◌*◌, Bool, false, ◌&&◌, ◌||◌, leb, if◌then◌else◌, ℕ, Option, none, some, List,
}
use pool_memalloc.Bitmap.{Ptr}
use pool_memalloc.TlBitmap
use pool_memalloc.TlBitmap.{Region, ThreadLocalBitmapAllocator}
use pool_memalloc.Bench.{
  Access, target, extent, BenchmarkConfig, Worker, burst_worker, walk_worker, storm_worker,
  random_free_worker,
}

-- The allocator and the thread's `t_region_index`.
abbrev pub State : Type 0
State = ThreadLocalBitmapAllocator × ℕ

-- `allocator->alloc()` and `allocator->dealloc(x)`.
abbrev pub allocate : (spurious : ℕ) → State → Option (State × Ptr)
allocate spurious (a, i) = elim (TlBitmap.alloc spurious i a) [
  | none ↦ none
  | some (b, j, p) ↦ some ((b, j), p)
]

abbrev pub release : State → Ptr → Option State
release (a, i) p = some (TlBitmap.dealloc a p, i)

-- Whether an access stays in one of the regions.
unfoldable pub within_regions : (block_size : ℕ) → List Region → Access → Bool
within_regions size [] access = false
within_regions size (r ∷ rs) access =
    (leb r.memory (target access)
      && leb (target access + extent access) (r.memory + r.block_count * size))
    || within_regions size rs access

-- An access to a block: it changes nothing that the allocator reads, and is undefined behaviour
-- where it leaves the allocator's memory.
abbrev pub touch : State → Access → Option State
unfolding within_regions
touch (a, i) access = if within_regions a.block_size a.regions access then some (a, i) else none

-- The workers of the programs in benchmark/tl_bitmap.
abbrev pub same_thread : ℕ → BenchmarkConfig → State → Option (Worker State)
same_thread spurious = burst_worker (allocate spurious) release touch

abbrev pub alloc_burst : ℕ → BenchmarkConfig → State → Option (Worker State)
alloc_burst spurious = burst_worker (allocate spurious) release touch

abbrev pub locality_walk : ℕ → BenchmarkConfig → State → Option (Worker State)
locality_walk spurious = walk_worker (allocate spurious) release touch

abbrev pub alloc_storm : ℕ → (ℕ → ℕ) → BenchmarkConfig → State → Option (Worker State)
alloc_storm spurious draw = storm_worker (allocate spurious) release touch draw 204

abbrev pub random_free :
    ℕ → (ℕ → ℕ) → (List Ptr → List Ptr) → BenchmarkConfig → State → Option (Worker State)
random_free spurious draw shuffle =
    random_free_worker (allocate spurious) release touch draw shuffle 187
