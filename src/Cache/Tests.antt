-- ===== src/Cache/Tests.antt =====
-- The theorems of the thread cache at a cache of two blocks before a freelist of three.
use pool_memalloc.Common.{
  ◌+◌, ◌≡◌, ◌≤◌, ◌↔◌, refl, true, false, [], ◌∷◌, ◌==◌, if◌then◌else◌, arith, length,
}
use pool_memalloc.Heap.{Ptr, null, tagged, World}
use pool_memalloc.Heap.Alike.{Alike}
use pool_memalloc.Heap.Returns.{Returns}
use pool_memalloc.Stats.{Build, no_stats, fresh_thread}
use pool_memalloc.Cache.{ThreadCache, alloc, dealloc, refill, flush}
use pool_memalloc.Cache.Spec.{Pools, pools, refill_spec, flush_spec, alloc_spec, dealloc_spec}
use pool_memalloc.Cache.Valid.{IsCache}
use pool_memalloc.Cache.Refill.{Moved, owned, refill-Moved}
use pool_memalloc.Cache.Flush.{flush-Moved}
use pool_memalloc.Cache.Take.{IsCache-SameMemory, Gave}
use pool_memalloc.Cache.Calls.{alloc-refines, dealloc-refines}
use pool_memalloc.Cache.Builds.{calls-Alike}
use pool_memalloc.Cache.Settled.{Settles, calls-Settle}
use pool_memalloc.Cache.Ledger.{Balanced, calls-Balanced}
use pool_memalloc.Cache.Stock.{Takes, stock, put, calls-Stock}
use pool_memalloc.Cache.Contract.{alloc-nullptr_iff, dealloc-conserves}

-- Blocks 64, 128 and 192 are on freelist 0, blocks 256 and 320 with the thread. The next
-- compare-exchange fails.
abbrev links : Ptr → Ptr
links a = if a == 64 then 128 else if a == 128 then 192 else if a == 256 then 320 else 0

abbrev five : World
five = record {
  next = links;
  heads = λ f. tagged (if f == 0 then 64 else 0) 7;
  weak = true ∷ [];
  local = fresh_thread;
}

abbrev two_cached : ThreadCache
two_cached = record {
  local_head = 256;
  local_size = 2;
  batch_size = 1;
  low_watermark = 0;
  high_watermark = 2;
  global = 0;
}

abbrev both : Pools
both = pools (64 ∷ 128 ∷ 192 ∷ []) (256 ∷ 320 ∷ [])

two_cached-IsCache : IsCache five two_cached both
two_cached-IsCache = record {
  stack = record {
    chain = (refl, omega arith, (refl, omega arith, (refl, omega arith, refl)));
    distinct = (refl, (refl, (refl, tt)));
  };
  chain = (refl, omega arith, (refl, omega arith, refl));
  size = refl;
  once = λ a. ground arith;
  bounded = omega arith;
  batch = omega arith;
  low = omega arith;
  high = refl;
}

-- Both macros are on.
abbrev checked : Build
checked = record { instrumentation = true; debug = true }

refills_batch :
    Returns
      (λ c' w'. Moved both (refill_spec 1 both) five c' w' two_cached)
      (refill checked 4 2 two_cached five)
refills_batch =
    refill-Moved checked 4 2 two_cached five (omega arith) both two_cached-IsCache (omega arith)

flushes_two :
    Returns
      (λ c' w'. Moved both (flush_spec 2 both) five c' w' two_cached)
      (flush checked 4 2 2 two_cached five)
flushes_two =
    flush-Moved checked 4 2 two_cached five (omega arith) 1 (64 ∷ 128 ∷ 192 ∷ []) (256 ∷ 320 ∷ [])
      two_cached-IsCache (omega arith)

alloc-refines_example :
    Returns
      (λ out w'. Gave both (alloc_spec 1 both).1 (alloc_spec 1 both).0 five out w' two_cached)
      (alloc checked 4 2 two_cached five)
alloc-refines_example =
    alloc-refines checked 4 2 two_cached five (omega arith) both two_cached-IsCache (omega arith)

dealloc-refines_example :
    Returns
      (λ c' w'.
        Moved
          (pools both.global (384 ∷ both.local))
          (dealloc_spec 1 384 both)
          five
          c'
          w'
          two_cached)
      (dealloc checked 4 2 two_cached 384 five)
dealloc-refines_example =
    dealloc-refines checked 4 2 two_cached five (omega arith) both 384 two_cached-IsCache
      (omega arith) (omega arith) refl (omega arith)

alloc-nullptr_iff_example :
    Returns
      (λ out w'. (out.0 ≡ null) ↔ ((both.global ≡ []) × (both.local ≡ [])))
      (alloc checked 4 2 two_cached five)
alloc-nullptr_iff_example =
    alloc-nullptr_iff checked 4 2 two_cached five both (omega arith) two_cached-IsCache
      (omega arith)

dealloc-conserves_example :
    Returns
      (λ c' w'.
        (q : Pools) × IsCache w' c' q
        × ((a : Ptr) → owned q a ≡ owned both a + (if a == 384 then 1 else 0))
        × (length q.local ≤ 2))
      (dealloc checked 4 2 two_cached 384 five)
dealloc-conserves_example =
    dealloc-conserves checked 4 2 two_cached five both 384 (omega arith) two_cached-IsCache
      (omega arith) (omega arith) refl (omega arith)

-- Both macros are off.
abbrev plain : Build
plain = record { instrumentation = false; debug = false }

-- The checked build reports the pointer 384, which this thread was not given.
calls-Alike_example :
    Alike (alloc checked 4 2 two_cached five) (alloc plain 4 2 two_cached five)
    × Alike (dealloc checked 4 2 two_cached 384 five) (dealloc plain 4 2 two_cached 384 five)
calls-Alike_example =
    calls-Alike checked plain {rounds = 4} {rounds' = 4} {fuel = 2} {fuel' = 2} (omega arith)
      (omega arith) two_cached 384 five fresh_thread

calls-Settle_example :
    Settles two_cached-IsCache 3 (λ b rounds fuel. alloc b rounds fuel two_cached five)
    × Settles two_cached-IsCache 3 (λ b rounds fuel. dealloc b rounds fuel two_cached 384 five)
calls-Settle_example = calls-Settle two_cached-IsCache 384 (omega arith) refl (omega arith)

calls-Stock_example :
    Returns
      (λ out w'. (q : Pools) × IsCache w' out.1 q × Takes (stock both) (out.0) (stock q))
      (alloc checked 4 2 two_cached five)
    × Returns
        (λ c' w'. (q : Pools) × IsCache w' c' q × (stock q ≡ put 384 (stock both)))
        (dealloc checked 4 2 two_cached 384 five)
calls-Stock_example =
    calls-Stock checked 4 2 two_cached five both (omega arith) two_cached-IsCache 384 (omega arith)
      (omega arith) (omega arith) refl (omega arith)

-- The two blocks of the cache came from one refill.
abbrev booked : World
booked = record five {
  local = record fresh_thread { stats = record no_stats { refills = 1; refill_blocks = 2 } };
}

booked-IsCache : IsCache booked two_cached both
booked-IsCache =
    IsCache-SameMemory (record { next_eq = refl; heads_eq = refl; weak_eq = refl })
      two_cached-IsCache

calls-Balanced_example :
    Returns (λ out w'. Balanced out.1 w') (alloc checked 4 2 two_cached booked)
    × Returns Balanced (dealloc checked 4 2 two_cached 384 booked)
calls-Balanced_example =
    calls-Balanced checked refl 384 booked-IsCache refl (omega arith) (omega arith) (omega arith)
      (omega arith) refl (omega arith)
