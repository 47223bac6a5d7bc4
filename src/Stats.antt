-- ===== src/Stats.antt =====
-- include/alloc_stats.hpp: the counters and the double-free check that two macros switch on. Both
-- switches are values here, so that every build is covered.
use pool_memalloc.Common.{
  ℕ, ◌+◌, Bool, true, false, Option, none, some, List, [], ◌∷◌, ◌==◌, if◌then◌else◌,
}
use pool_memalloc.Common.Words.{u64}
use pool_memalloc.Heap.{Ptr, null, AllocStats, ThreadStats, ok, Cmd}
use pool_memalloc.Heap.Chain.{has}

-- `ALLOC_INSTRUMENTATION` and `ALLOC_DEBUG`.
pub record Build : Type 0 where
  pub instrumentation : Bool
  pub debug : Bool

-- A `thread_local` of static storage starts with zeros and an empty set.
abbrev pub no_stats : AllocStats
no_stats = record {
  allocs = 0;
  deallocs = 0;
  refills = 0;
  flushes = 0;
  refill_blocks = 0;
  flush_blocks = 0;
}

abbrev pub fresh_thread : ThreadStats
fresh_thread = record { stats = no_stats; live = []; reports = 0 }

-- The counters are `size_t`.
abbrev pub inc_allocs : AllocStats → AllocStats
inc_allocs s = record s { allocs = u64 (s.allocs + 1) }

abbrev pub inc_deallocs : AllocStats → AllocStats
inc_deallocs s = record s { deallocs = u64 (s.deallocs + 1) }

-- `ALLOC_STAT_INC(refills)` and `ALLOC_STAT_ADD(refill_blocks, n)`
abbrev pub add_refill : ℕ → AllocStats → AllocStats
add_refill n s = record s {
  refills = u64 (s.refills + 1);
  refill_blocks = u64 (s.refill_blocks + n);
}

abbrev pub add_flush : ℕ → AllocStats → AllocStats
add_flush n s = record s { flushes = u64 (s.flushes + 1); flush_blocks = u64 (s.flush_blocks + n) }

-- Without `ALLOC_INSTRUMENTATION` the macros do nothing.
unfoldable pub alloc_stat : Build → (AllocStats → AllocStats) → Cmd (Unit {0})
alloc_stat b f w = ok tt (
    if b.instrumentation
    then record w { local = record (w.local) { stats = f w.local.stats } }
    else w)

-- `ALLOC_STAT_GET()`
unfoldable pub alloc_stat_get : Build → ThreadStats → AllocStats
alloc_stat_get b t = if b.instrumentation then t.stats else no_stats

-- The six numbers that `alloc_stats_dump` prints, in its order; the other build prints nothing.
unfoldable pub alloc_stats_dump : Build → ThreadStats → Option (List ℕ)
alloc_stats_dump b t =
    let s = t.stats in
    if b.instrumentation
    then some
        (s.allocs ∷ s.deallocs ∷ s.refills ∷ s.refill_blocks ∷ s.flushes ∷ s.flush_blocks ∷ [])
    else none

-- `live.erase(ptr)`
unfoldable pub erase : Ptr → List Ptr → List Ptr
erase p [] = []
erase p (x ∷ xs) = if p == x then xs else x ∷ erase p xs

unfoldable pub alloc_debug_on_alloc : Build → Ptr → Cmd (Unit {0})
alloc_debug_on_alloc b ptr w = ok tt (
    if b.debug
    then if ptr == null then w else record w {
      local = record (w.local) {
        live = if has ptr w.local.live then w.local.live else ptr ∷ w.local.live;
      };
    }
    else w)

-- The result says whether the pointer was live; `ThreadCache::dealloc` does not look at it.
unfoldable pub alloc_debug_on_dealloc : Build → Ptr → Cmd Bool
unfolding erase
alloc_debug_on_dealloc b ptr w =
    if b.debug
    then if ptr == null
      then ok false (record w { local = record (w.local) { reports = w.local.reports + 1 } })
      else if has ptr w.local.live
      then ok true (record w { local = record (w.local) { live = erase ptr w.local.live } })
      else ok false (record w { local = record (w.local) { reports = w.local.reports + 1 } })
    else ok true w
