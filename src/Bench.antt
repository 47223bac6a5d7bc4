-- ===== src/Bench.antt =====
-- benchmark/common.hpp, and the workers of the programs in benchmark/freelist, benchmark/bitmap,
-- benchmark/tl_freelist and benchmark/tl_bitmap, which differ in the allocator only: they are
-- written over an allocator's two operations, and what an access to a block does to its memory. An
-- operation without a result is undefined behaviour.
-- The vector `ptrs` is a list, its last element last.
pub mod Contract
pub mod Memory
pub mod Workers
pub mod Walks
pub mod Programs
pub mod Runs
pub mod Queue
pub mod CommandLine
pub mod Args
pub mod Freelist
pub mod Bitmap
pub mod TlFreelist
pub mod Cached
pub mod CachedRuns
pub mod TlBitmap
mod Decimal
mod Tests
use Prim.Native.String.{String, compare}
use text.Mathlib.Text.{is_eq}
use pool_memalloc.Common.{
  ℕ, zero, suc, ◌+◌, ◌*◌, ◌%◌, ◌^◌, Bool, true, false, Option, none, some, List, [], ◌∷◌, ◌++◌, leb,
  ◌==◌, if◌then◌else◌, length, get_or,
}
use pool_memalloc.Common.Words.{u64}
use pool_memalloc.Heap.{Ptr, null}

pub record BenchmarkConfig : Type 0 where
  pub size : ℕ
  pub ops : ℕ
  pub threads : ℕ
  pub batch : ℕ
  pub pool : ℕ

abbrev pub defaults : BenchmarkConfig
defaults = record { size = 64; ops = 5000000; threads = 8; batch = 256; pool = 1000000 }

abbrev pub size_classes : List ℕ
size_classes = 16 ∷ 32 ∷ 64 ∷ 128 ∷ 256 ∷ 512 ∷ 1024 ∷ []

-- `dist(rng)` draws one of the indices 0 to 6.
abbrev pub random_size : (drawn : ℕ) → ℕ
random_size drawn = get_or size_classes drawn 0

-- What a worker does to a block: `memset(p, byte, count)`, and `bytes[0]++`.
pub data Access : Type 0 where
  fill : (p : Ptr) (byte count : ℕ) → Access
  bump : (p : Ptr) → Access

abbrev pub target : Access → Ptr
target (fill p byte count) = p
target (bump p) = p

abbrev pub extent : Access → ℕ
extent (fill p byte count) = count
extent (bump p) = 1

-- A worker: the allocator, its vector, and its accesses, the last first.
pub record Worker (S : Type 0) : Type 0 where
  pub state : S
  pub ptrs : List Ptr
  pub accesses : List Access

abbrev pub fresh_worker : {S : Type 0} → S → Worker S
fresh_worker s = record { state = s; ptrs = []; accesses = [] }

-- `touch` is what an access does to memory.
module _ {S : Type 0} (allocate : S → Option (S × Ptr)) (release : S → Ptr → Option S)
    (touch : S → Access → Option S) where
  -- `for (void *x : ptrs)` with the call that gives the block back.
  unfoldable pub give_all : List Ptr → S → Option S
  give_all [] s = some s
  give_all (p ∷ ps) s = elim (release s p) [ none ↦ none | some s' ↦ give_all ps s' ]

  abbrev pub give_back : Worker S → Option (Worker S)
  give_back w = elim (give_all w.ptrs w.state) [
    | none ↦ none
    | some s ↦ some (record w { state = s; ptrs = [] })
  ]

  -- The call at the head of a pass: a block that there is, is written to and kept. The Boolean says
  -- whether there was one.
  unfoldable pub take : (byte count : ℕ) → Worker S → Option (Worker S × Bool)
  take byte count w = elim (allocate w.state) [
    | none ↦ none
    | some (s, p) ↦
        if p == null
        then some (record w { state = s }, false)
        else elim (touch s (fill p byte count)) [
          | none ↦ none
          | some s' ↦ some (
            record {
              state = s';
              ptrs = w.ptrs ++ (p ∷ []);
              accesses = fill p byte count ∷ w.accesses;
            },
            true,
          )
        ]
  ]

  -- A pass of the loop of same_thread.cpp and alloc_burst.cpp: a full batch goes back.
  unfoldable pub burst_pass : (size batch : ℕ) → Worker S → Option (Worker S)
  unfolding take give_all
  burst_pass size batch w = elim (take 171 size w) [
    | none ↦ none
    | some (w', false) ↦ some w'
    | some (w', true) ↦ if leb batch (length w'.ptrs) then give_back w' else some w'
  ]

  unfoldable pub burst_loop : (size batch rounds : ℕ) → Worker S → Option (Worker S)
  unfolding burst_pass
  burst_loop size batch zero w = some w
  burst_loop size batch (suc rounds) w = elim (burst_pass size batch w) [
    | none ↦ none
    | some w' ↦ burst_loop size batch rounds w'
  ]

  unfoldable pub burst_worker : BenchmarkConfig → S → Option (Worker S)
  unfolding burst_loop
  burst_worker cfg s = elim (burst_loop cfg.size cfg.batch cfg.ops (fresh_worker s)) [
    | none ↦ none
    | some w ↦ give_back w
  ]

  -- The first loop of locality_walk.cpp.
  unfoldable pub fill_loop : (size rounds : ℕ) → Worker S → Option (Worker S)
  unfolding take
  fill_loop size zero w = some w
  fill_loop size (suc rounds) w = elim (take 0 size w) [
    | none ↦ none
    | some (w', b) ↦ fill_loop size rounds w'
  ]

  -- One walk over the vector, and the loop over the walks.
  unfoldable pub walk : List Ptr → Worker S → Option (Worker S)
  walk [] w = some w
  walk (p ∷ ps) w = elim (touch w.state (bump p)) [
    | none ↦ none
    | some s ↦ walk ps (record w { state = s; accesses = bump p ∷ w.accesses })
  ]

  unfoldable pub walks : (rounds : ℕ) → List Ptr → Worker S → Option (Worker S)
  unfolding walk
  walks zero ps w = some w
  walks (suc rounds) ps w = elim (walk ps w) [ none ↦ none | some w' ↦ walks rounds ps w' ]

  unfoldable pub walk_worker : BenchmarkConfig → S → Option (Worker S)
  unfolding fill_loop walks give_all
  walk_worker cfg s = elim (fill_loop cfg.size cfg.pool (fresh_worker s)) [
    | none ↦ none
    | some w ↦ elim (walks 128 w.ptrs w) [ none ↦ none | some w' ↦ give_back w' ]
  ]

  -- The first loop of alloc_storm.cpp and random_free.cpp: the sizes are drawn, one for each block
  -- that there is; `draw n` is draw number `n`.
  unfoldable pub storm_loop :
      (draw : ℕ → ℕ) → (byte rounds drawn : ℕ) → Worker S → Option (Worker S)
  unfolding take
  storm_loop draw byte zero drawn w = some w
  storm_loop draw byte (suc rounds) drawn w = elim (take byte (random_size (draw drawn)) w) [
    | none ↦ none
    | some (w', b) ↦ storm_loop draw byte rounds (if b then drawn + 1 else drawn) w'
  ]

  unfoldable pub storm_worker :
      (draw : ℕ → ℕ) → (byte : ℕ) → BenchmarkConfig → S → Option (Worker S)
  unfolding storm_loop give_all
  storm_worker draw byte cfg s = elim (storm_loop draw byte cfg.ops 0 (fresh_worker s)) [
    | none ↦ none
    | some w ↦ give_back w
  ]

  -- `shuffle` is `std::shuffle` with the generator as the draws have left it.
  unfoldable pub random_free_worker :
      (draw : ℕ → ℕ)
      → (shuffle : List Ptr → List Ptr) → (byte : ℕ) → BenchmarkConfig
      → S
      → Option (Worker S)
  unfolding storm_loop give_all
  random_free_worker draw shuffle byte cfg s =
      elim (storm_loop draw byte cfg.ops 0 (fresh_worker s)) [
        | none ↦ none
        | some w ↦ give_back (record w { ptrs = shuffle w.ptrs })
      ]
