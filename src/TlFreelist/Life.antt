-- ===== src/TlFreelist/Life.antt =====
-- What the constructor of `ThreadLocalFreelistAllocator` leaves.
use mathlib.Core.Path.{subst}
use native.Mathlib.Nat.{mul_comm}
use pool_memalloc.Common.{
  ℕ, ◌+◌, ◌*◌, ◌/◌, ◌%◌, ◌^◌, ◌≤◌, ◌<◌, ◌≡◌, ◌≢◌, refl, ap, false, Option, none, some, [], ltb,
  ◌==◌, if◌then◌else◌, arith, length,
}
use pool_memalloc.Common.Words.{u64, align_up, align_up_lem, cache_line}
use pool_memalloc.Heap.{Ptr, null, World, tagged, update}
use pool_memalloc.Heap.Returns
use pool_memalloc.Heap.Returns.{Returns, returns}
use pool_memalloc.Freelist
use pool_memalloc.Freelist.Stack.{Kept, IsStack}
use pool_memalloc.TlFreelist.{ThreadLocalFreelistAllocator, block_size_for, construct, get_cache}
use pool_memalloc.TlFreelist.Shared.{IsShared, extent}
use pool_memalloc.Cache.{new_cache}
use pool_memalloc.Cache.Valid.{new_cache-IsCache}
use pool_memalloc.Heap.Count.{count}
use pool_memalloc.Common.Family.{total-zero}
use pool_memalloc.TlFreelist.Carved.{
  carved, push_blocks-carved, length-carved, carved-once, fewer_blocks,
}

pub block_size_for_bounds :
    (sz : ℕ)
    → sz + 63 < 2 ^ 64
    → (sz ≤ block_size_for sz) × (64 ≤ block_size_for sz) × (block_size_for sz % 64 ≡ 0)
unfolding block_size_for
block_size_for_bounds sz h =
    let v = if ltb sz 64 then 64 else sz in
    let small : v + 63 < 2 ^ 64 = ground arith in
    let least : 64 ≤ v = ground arith in
    let above : sz ≤ v = ground arith in
    rw (align_up_lem v small) (omega arith, omega arith, omega arith)

abbrev pub allocator_of : (f sz n batch : ℕ) → (region : Ptr) → ThreadLocalFreelistAllocator
allocator_of f sz n batch region = record {
  global = f;
  batch_size = batch;
  block_size = block_size_for sz;
  block_count = n;
  region = region;
}

-- The allocator that the constructor makes, its freelist, and what it is to threads that have made
-- no call.
pub record Built (f sz n batch : ℕ) (region : Ptr) (w : World)
    (out : Option ThreadLocalFreelistAllocator) (w' : World) : Type 0 where
  pub made : out ≡ some (allocator_of f sz n batch region)
  pub stack : IsStack w' f (carved region (block_size_for sz) n)
  pub kept : Kept f w w'
  pub same : (a : Ptr) → (region ≤ a → region + block_size_for sz * n ≤ a) → w'.next a ≡ w.next a
  pub shared :
      (threads : ℕ)
      → IsShared threads
          (allocator_of f sz n batch region)
          (λ t. none)
          w'
          (carved region (block_size_for sz) n)
          (λ t. [])

module _ (aligned_alloc : ℕ → ℕ → Ptr) (fuel f sz n batch : ℕ) (w : World)
    (small : sz + 63 < 2 ^ 64) (fits : block_size_for sz * n + 63 < 2 ^ 64) where
  abbrev region : Ptr
  region = aligned_alloc 64 (block_size_for sz * n)

  total : align_up (u64 (block_size_for sz * n)) cache_line ≡ block_size_for sz * n
  total = omega (
    arith,
    align_up_lem (u64 (block_size_for sz * n)) (omega arith),
    multiple (block_size_for sz) (block_size_for_bounds sz small).2,
  )
    where
      regroup : (q : ℕ) → q * 64 * n ≡ q * n * 64
      regroup q = grind arith

      multiple : (s : ℕ) → s % 64 ≡ 0 → s * n % 64 ≡ 0
      multiple s d =
          let e : s ≡ s / 64 * 64 = omega arith in
          omega (arith, ap (λ (t : ℕ). t * n) e, regroup (s / 64))

  -- A stack of the region's blocks, and threads that have made no call.
  unused :
      (u : World)
      → IsStack u f (carved region (block_size_for sz) n)
      → batch < 2 ^ 62
      → (threads : ℕ)
      → IsShared threads
          (allocator_of f sz n batch region)
          (λ t. none)
          u
          (carved region (block_size_for sz) n)
          (λ t. [])
  unfolding get_cache new_cache
  unused u is few threads = record {
    cache = λ t h.
        new_cache-IsCache batch is (λ x. once x)
          (omega (arith, length-carved region (block_size_for sz) n, many)) few;
    global = λ t h. refl;
    once = λ x. omega (arith, once x, total-zero (count x) threads (λ t. []) (λ t h. refl));
    bounded = omega (
      arith,
      length-carved region (block_size_for sz) n,
      many,
      total-zero extent threads (λ t. []) (λ t h. refl),
    );
  }
    where
      many : n < 2 ^ 63
      many =
          fewer_blocks (block_size_for sz) n (block_size_for_bounds sz small).1
            (omega (arith, fits))

      once : (x : Ptr) → count x (carved region (block_size_for sz) n) ≤ 1
      once x =
          carved-once region (block_size_for sz) n x (omega (arith, block_size_for_bounds sz small))

  -- The constructor, total: where no size wraps, the batch size is below 2 ^ 62, and
  -- `std::aligned_alloc` gives a region that ends in the address space, the freelist holds the blocks
  -- of the region, the last on top, other freelists are as before, and any number of threads that have
  -- made no call share the allocator as the theorems on their calls want it.
  pub construct-Built :
      length w.weak < fuel
      → region ≢ null
      → region + block_size_for sz * n < 2 ^ 64
      → batch < 2 ^ 62
      → Returns (Built f sz n batch region w) (construct aligned_alloc fuel f sz n batch w)
  unfolding construct Freelist.construct carved
  construct-Built h ne ends few =
      let given : (region == null) ≡ false = ground arith in
      rw (total, given)
        (Returns.bind
          (push_blocks-carved fuel f region (block_size_for sz) n 0
            (record w { heads = update w.heads f (tagged null 0) }) h (omega arith)
            (omega (arith, block_size_for_bounds sz small))
            (omega (arith, mul_comm n (block_size_for sz))) empty)
          λ _ w1 (is, kept, same). returns (record {
            made = refl;
            stack = subst (λ (t : ℕ). IsStack w1 f (carved region (block_size_for sz) t)) start is;
            kept = record {
              others = λ g e. ground (arith, kept.others g e);
              local = kept.local;
              fewer = kept.fewer;
            };
            same = λ a o. same a (λ low. omega (arith, o low, mul_comm n (block_size_for sz)));
            shared =
                unused w1
                  (subst (λ (t : ℕ). IsStack w1 f (carved region (block_size_for sz) t)) start is)
                  few;
          }))
    where
      start : 0 + n ≡ n
      start = omega arith

      empty :
          IsStack
            (record w { heads = update w.heads f (tagged null 0) })
            f
            (carved region (block_size_for sz) 0)
      empty = record { chain = ground arith; distinct = tt }
