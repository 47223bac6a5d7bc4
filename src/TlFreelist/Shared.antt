-- ===== src/TlFreelist/Shared.antt =====
-- The lists of all threads over one `ThreadLocalFreelistAllocator`, and the caches that stand for
-- them when one thread has made a call.
use pool_memalloc.Common.{
  ℕ, ◌+◌, ◌^◌, ◌≤◌, ◌<◌, ◌≡◌, ◌≢◌, sym, ap, ◌∙◌, Option, some, List, arith, length, ℕ_discrete,
}
use pool_memalloc.Common.Family.{
  update, update_self, update_ne, total, total-update, le-total, le-total_two,
}
use pool_memalloc.Heap.{Ptr, ThreadStats, World}
use pool_memalloc.Heap.Chain.{Chain-frame}
use pool_memalloc.Heap.Count.{count, count_of_has}
use pool_memalloc.Cache.{ThreadCache}
use pool_memalloc.Cache.Spec.{Pools, pools}
use pool_memalloc.Cache.Valid.{IsCache}
use pool_memalloc.Cache.Refill.{owned, Step}
use pool_memalloc.TlFreelist.{ThreadLocalFreelistAllocator, get_cache}

-- How often a block stands in the freelist and the lists of the first `n` threads.
abbrev pub blocks : List Ptr → ℕ → (ℕ → List Ptr) → Ptr → ℕ
blocks xs n ys x = count x xs + total (count x) n ys

abbrev pub extent : List Ptr → ℕ
extent = length

-- The freelist stands for `xs`, and the cache of thread `t` for `ys t`.
pub record IsShared (n : ℕ) (a : ThreadLocalFreelistAllocator) (caches : ℕ → Option ThreadCache)
    (w : World) (xs : List Ptr) (ys : ℕ → List Ptr) : Type 0 where
  pub cache : (t : ℕ) → t < n → IsCache w (get_cache a (caches t)) (pools xs (ys t))
  pub global : (t : ℕ) → t < n → (get_cache a (caches t)).global ≡ a.global
  pub once : (x : Ptr) → blocks xs n ys x ≤ 1
  pub bounded : length xs + total extent n ys < 2 ^ 63

-- Another thread's counters do not matter.
pub IsShared-switch :
    {n : ℕ} {a : ThreadLocalFreelistAllocator} {caches : ℕ → Option ThreadCache} {w : World}
    {xs : List Ptr} {ys : ℕ → List Ptr} (s : ThreadStats)
    → IsShared n a caches w xs ys
    → IsShared n a caches (record w { local = s }) xs ys
IsShared-switch s is = record {
  cache = λ t h. record {
    stack = record { chain = (is.cache t h).stack.chain; distinct = (is.cache t h).stack.distinct };
    chain = (is.cache t h).chain;
    size = (is.cache t h).size;
    once = (is.cache t h).once;
    bounded = (is.cache t h).bounded;
    batch = (is.cache t h).batch;
    low = (is.cache t h).low;
    high = (is.cache t h).high;
  };
  global = is.global;
  once = is.once;
  bounded = is.bounded;
}

-- The first of two caches makes a call; the second one's list is `ys`.
other-IsCache :
    {c d : ThreadCache} {q : Pools} {xs ys : List Ptr} (f : ℕ) (mine : Ptr → ℕ) {w w' : World}
    → IsCache w d (pools xs ys)
    → IsCache w' c q
    → d.global ≡ c.global
    → Step f mine w w'
    → ((a : Ptr) → count a ys + mine a ≤ 1)
    → ((a : Ptr) → count a q.global + count a ys ≤ 1)
    → length q.global + length ys < 2 ^ 63
    → IsCache w' d (pools q.global ys)
other-IsCache {c} {d} {q} {xs} {ys} f mine {w} {w'} is new same s apart once bounded = record {
  stack = rw same new.stack;
  chain =
      Chain-frame w.next w'.next d.local_head ys
        (λ a i. s.same a (omega (arith, apart a, count_of_has a ys i))) is.chain;
  size = is.size;
  once = once;
  bounded = bounded;
  batch = is.batch;
  low = is.low;
  high = is.high;
}

module _ (n : ℕ) (a : ThreadLocalFreelistAllocator) (caches : ℕ → Option ThreadCache) (w : World)
    (xs : List Ptr) (ys : ℕ → List Ptr) (is : IsShared n a caches w xs ys) (t : ℕ) (h : t < n) where
  -- Thread `t` makes a call, after which its cache and the freelist stand for `q`.
  pub after :
      (c : ThreadCache) (w' : World) (q : Pools) (mine : Ptr → ℕ)
      → IsCache w' c q
      → c.global ≡ (get_cache a (caches t)).global
      → Step (get_cache a (caches t)).global mine w w'
      → ((u : ℕ) → u < n → u ≢ t → (x : Ptr) → count x (ys u) + mine x ≤ 1)
      → ((x : Ptr) → blocks q.global n (update ys t q.local) x ≤ 1)
      → length q.global + total extent n (update ys t q.local) < 2 ^ 63
      → IsShared n a (update caches t (some c)) w' q.global (update ys t q.local)
  unfolding get_cache
  after c w' q mine new same s apart once bounded = record {
    cache = cache;
    global = global;
    once = once;
    bounded = bounded;
  }
    where
      global : (u : ℕ) → u < n → (get_cache a (update caches t (some c) u)).global ≡ a.global
      global u k = elim (ℕ_discrete u t) [
        | yes e ↦ rw (e, update_self caches t (some c)) (same ∙ is.global t h)
        | no ne ↦ rw (update_ne caches t u (some c) ne) (is.global u k)
      ]

      cache :
          (u : ℕ)
          → u < n
          → IsCache w'
              (get_cache a (update caches t (some c) u))
              (pools q.global (update ys t q.local u))
      cache u k = elim (ℕ_discrete u t) [
        | yes e ↦ rw (e, update_self caches t (some c), update_self ys t q.local) new
        | no ne ↦
            rw (update_ne caches t u (some c) ne, update_ne ys t u q.local ne)
              (other-IsCache (get_cache a (caches t)).global mine (is.cache u k) new
                (is.global u k ∙ sym (same ∙ is.global t h)) s (apart u k ne) (λ x. there u k ne x)
                (omega (
                  arith,
                  bounded,
                  le-total extent n (update ys t q.local) u k,
                  ap extent (update_ne ys t u q.local ne),
                )))
      ]
        where
          there : (u : ℕ) → u < n → u ≢ t → (x : Ptr) → count x q.global + count x (ys u) ≤ 1
          there u k ne x = omega (
            arith,
            once x,
            le-total (count x) n (update ys t q.local) u k,
            ap (count x) (update_ne ys t u q.local ne),
          )

  pub mine_apart :
      (u : ℕ) → u < n → u ≢ t → (x : Ptr) → count x (ys u) + owned (pools xs (ys t)) x ≤ 1
  mine_apart u k ne x = omega (arith, is.once x, le-total_two (count x) n ys u t k h ne)

  -- The lists `q` of thread `t` count in the sums.
  pub moved :
      (q : Pools) (x : Ptr)
      → blocks q.global n (update ys t q.local) x + count x xs + count x (ys t)
        ≡ blocks xs n ys x + owned q x
  moved q x = omega (arith, total-update (count x) n ys t q.local h)

  pub sized :
      (q : Pools)
      → length q.global + total extent n (update ys t q.local) + length xs + length (ys t)
        ≡ length xs + total extent n ys + (length q.global + length q.local)
  sized q = omega (arith, total-update extent n ys t q.local h)
