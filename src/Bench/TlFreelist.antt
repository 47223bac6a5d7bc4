-- ===== src/Bench/TlFreelist.antt =====
-- `ThreadLocalFreelistAllocator` under the workers of benchmark/tl_freelist, as one thread runs them.
use pool_memalloc.Common.{ℕ, ◌+◌, ◌*◌, Option, none, some, List}
use pool_memalloc.Heap.{Ptr, World, Run, ok, fault, out_of_fuel}
use pool_memalloc.Stats.{Build}
use pool_memalloc.Cache.{ThreadCache}
use pool_memalloc.TlFreelist
use pool_memalloc.TlFreelist.{ThreadLocalFreelistAllocator}
use pool_memalloc.Bench.Memory
use pool_memalloc.Bench.{
  Access, BenchmarkConfig, Worker, burst_worker, walk_worker, storm_worker, random_free_worker,
}

-- Memory and the thread's cache.
abbrev pub State : Type 0
State = World × Option ThreadCache

-- The build, the rounds, the fuel and the allocator of a run.
pub record Setting : Type 0 where
  pub build : Build
  pub rounds : ℕ
  pub fuel : ℕ
  pub allocator : ThreadLocalFreelistAllocator

abbrev pub allocated : Run (Ptr × Option ThreadCache) → Option (State × Ptr)
allocated (ok (p, c) w) = some ((w, c), p)
allocated fault = none
allocated out_of_fuel = none

abbrev pub released : Run (Option ThreadCache) → Option State
released (ok c w) = some (w, c)
released fault = none
released out_of_fuel = none

-- `allocator->alloc()` and `allocator->dealloc(x)`.
abbrev pub allocate : Setting → State → Option (State × Ptr)
allocate e (w, c) = allocated (TlFreelist.alloc e.build e.rounds e.fuel e.allocator c w)

abbrev pub release : Setting → State → Ptr → Option State
release e (w, c) p = released (TlFreelist.dealloc e.build e.rounds e.fuel e.allocator c p w)

-- An access to the region, in which the free blocks are linked.
abbrev pub end_of : ThreadLocalFreelistAllocator → Ptr
end_of a = a.region + a.block_count * a.block_size

abbrev pub touch : Setting → State → Access → Option State
touch e (w, c) access = elim (Memory.touch (end_of e.allocator) w access) [
  | none ↦ none
  | some w' ↦ some (w', c)
]

-- The workers of the programs in benchmark/tl_freelist.
abbrev pub same_thread : Setting → BenchmarkConfig → State → Option (Worker State)
same_thread e = burst_worker (allocate e) (release e) (touch e)

abbrev pub alloc_burst : Setting → BenchmarkConfig → State → Option (Worker State)
alloc_burst e = burst_worker (allocate e) (release e) (touch e)

abbrev pub locality_walk : Setting → BenchmarkConfig → State → Option (Worker State)
locality_walk e = walk_worker (allocate e) (release e) (touch e)

abbrev pub alloc_storm : Setting → (ℕ → ℕ) → BenchmarkConfig → State → Option (Worker State)
alloc_storm e draw = storm_worker (allocate e) (release e) (touch e) draw 255

abbrev pub random_free :
    Setting → (ℕ → ℕ) → (List Ptr → List Ptr) → BenchmarkConfig → State → Option (Worker State)
random_free e draw shuffle = random_free_worker (allocate e) (release e) (touch e) draw shuffle 238
