-- ===== src/TlFreelist/Process.antt =====
-- One `ThreadLocalFreelistAllocator` in a process of several threads, whose calls run one after the
-- other: each thread has its cache, and all share the freelist.
use mathlib.Core.Path.{subst}
use pool_memalloc.Common.{
  ℕ, ◌+◌, ◌^◌, ◌<◌, ◌≡◌, ◌≢◌, sym, Option, List, ◌∷◌, ◌==◌, if◌then◌else◌, arith, length,
  ℕ_discrete,
}
use pool_memalloc.Common.Family.{update, total, le-total, le-total_two}
use pool_memalloc.Heap.{Ptr, null, World}
use pool_memalloc.Heap.Returns
use pool_memalloc.Heap.Returns.{Returns, returns}
use pool_memalloc.Heap.Count.{count}
use pool_memalloc.Stats.{Build}
use pool_memalloc.Cache.{ThreadCache}
use pool_memalloc.Cache.Spec.{Pools, pools, alloc_spec, dealloc_spec}
use pool_memalloc.Cache.Refill.{owned}
use pool_memalloc.Cache.Calls.{alloc-refines, dealloc-refines}
use pool_memalloc.Cache.Contract.{
  owned-alloc, owned-dealloc, no-null, block_total-alloc, block_total-dealloc,
}
use pool_memalloc.TlFreelist.{ThreadLocalFreelistAllocator, get_cache, alloc, dealloc}
use pool_memalloc.TlFreelist.Shared.{blocks, extent, IsShared, after, mine_apart, moved, sized}

module _ (n : ℕ) (a : ThreadLocalFreelistAllocator) (caches : ℕ → Option ThreadCache) (w : World)
    (xs : List Ptr) (ys : ℕ → List Ptr) (is : IsShared n a caches w xs ys) (t : ℕ) (h : t < n) where
  abbrev given : Pools
  given = (alloc_spec (get_cache a (caches t)).batch_size (pools xs (ys t))).1

  -- `alloc` by thread `t`, total: a block that it returns leaves the lists of the process, in which
  -- it stood once, every other block stays where it is counted, and all threads' caches stay
  -- well-formed.
  pub alloc-IsShared :
      (b : Build) (rounds fuel : ℕ)
      → length w.weak < fuel
      → length xs < rounds
      → Returns
          (λ out w'.
            (q : Pools) × IsShared n a (update caches t (out.1)) w' q.global (update ys t q.local)
            × ((x : Ptr)
                → x ≢ null
                → blocks q.global n (update ys t q.local) x + (if x == out.0 then 1 else 0)
                  ≡ blocks xs n ys x))
          (alloc b rounds fuel a (caches t) w)
  unfolding alloc
  alloc-IsShared b rounds fuel l r =
      Returns.bind
        (alloc-refines b rounds fuel (get_cache a (caches t)) w l (pools xs (ys t)) (is.cache t h)
          r)
        λ (p, c) w' g.
          let leaves = (λ (x : Ptr) (ne : x ≢ null).
            subst
              (λ (s : Ptr). owned given x + (if x == s then 1 else 0) ≡ owned (pools xs (ys t)) x)
              (sym g.result)
              (owned-alloc (get_cache a (caches t)).batch_size (pools xs (ys t)) x ne)) in
          returns (
            given,
            after n a caches w xs ys is t h c w' given (owned (pools xs (ys t))) g.moved.cache
                g.moved.global_eq g.moved.step (mine_apart n a caches w xs ys is t h)
                (λ x. elim (ℕ_discrete x null) [
                  | yes e ↦ rw e (
                      omega (
                        arith,
                        moved n a caches w xs ys is t h given null,
                        is.once null,
                        no-null g.moved.cache,
                      ))
                  | no ne ↦
                      omega (arith, moved n a caches w xs ys is t h given x, is.once x, leaves x ne)
                ])
                (omega (
                  arith,
                  sized n a caches w xs ys is t h given,
                  is.bounded,
                  block_total-alloc (get_cache a (caches t)).batch_size (pools xs (ys t)),
                )),
            λ x ne. omega (arith, moved n a caches w xs ys is t h given x, leaves x ne),
          )

  -- `dealloc` by thread `t`, total, of a block that no list holds, whichever thread it was given to:
  -- the block joins the lists of the process, every other one stays where it is counted, and all
  -- threads' caches stay well-formed.
  pub dealloc-IsShared :
      (b : Build) (rounds fuel : ℕ) (ptr : Ptr)
      → length w.weak < fuel
      → length (ys t) + 1 < rounds
      → ptr ≢ null
      → blocks xs n ys ptr ≡ 0
      → length xs + total extent n ys + 1 < 2 ^ 63
      → Returns
          (λ cache w'.
            (q : Pools) × IsShared n a (update caches t cache) w' q.global (update ys t q.local)
            × ((x : Ptr)
                → blocks q.global n (update ys t q.local) x
                  ≡ blocks xs n ys x + (if x == ptr then 1 else 0)))
          (dealloc b rounds fuel a (caches t) ptr w)
  unfolding dealloc
  dealloc-IsShared b rounds fuel ptr l r ne fresh small =
      Returns.bind
        (dealloc-refines b rounds fuel (get_cache a (caches t)) w l (pools xs (ys t)) ptr
          (is.cache t h) r ne (omega (arith, fresh, le-total (count ptr) n ys t h))
          (omega (arith, small, le-total extent n ys t h)))
        λ c w' m.
          let joined = dealloc_spec (get_cache a (caches t)).batch_size ptr (pools xs (ys t)) in
          let counts = (λ (x : Ptr).
            owned-dealloc (get_cache a (caches t)).batch_size ptr (pools xs (ys t)) x) in
          returns (
            joined,
            after n a caches w xs ys is t h c w' joined (owned (pools xs (ptr ∷ ys t))) m.cache
                m.global_eq m.step
                (λ u k ne' x. ground (
                  arith,
                  mine_apart n a caches w xs ys is t h u k ne' x,
                  fresh,
                  le-total_two (count x) n ys u t k h ne',
                ))
                (λ x.
                  ground
                    (arith, moved n a caches w xs ys is t h joined x, is.once x, counts x, fresh))
                (omega (
                  arith,
                  sized n a caches w xs ys is t h joined,
                  small,
                  block_total-dealloc (get_cache a (caches t)).batch_size ptr (pools xs (ys t)),
                )),
            λ x. omega (arith, moved n a caches w xs ys is t h joined x, counts x),
          )
