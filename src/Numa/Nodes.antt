-- ===== src/Numa/Nodes.antt =====
-- The nodes of `NumaAllocator`: each has a freelist and, for the thread that runs, a cache, which
-- stand for two lists of blocks. What a request on one node does.
use pool_memalloc.Common.{
  ℕ, ◌+◌, ◌≤◌, ◌<◌, ◌≡◌, ◌≢◌, refl, sym, ◌∙◌, some, [], ◌==◌, if◌then◌else◌, arith, length,
  ℕ_discrete,
}
use pool_memalloc.Common.Family.{update, update_self, update_ne, total, total-update, le-total_two}
use pool_memalloc.Heap.{Ptr, null, World}
use pool_memalloc.Heap.Returns
use pool_memalloc.Heap.Returns.{Returns, returns}
use pool_memalloc.Stats.{Build}
use pool_memalloc.Cache.{ThreadCache}
use pool_memalloc.Cache.Spec.{Pools, alloc_spec}
use pool_memalloc.Cache.Valid.{IsCache}
use pool_memalloc.Cache.Refill.{owned}
use pool_memalloc.Cache.Take.{Gave}
use pool_memalloc.Cache.Calls.{alloc-refines}
use pool_memalloc.Cache.Contract.{owned-alloc, alloc_spec-null, no-null}
use pool_memalloc.Cache.Frame.{IsCache-frame}
use pool_memalloc.Numa.{NumaAllocator, PerThread, get_cache, alloc_from}

-- How often the address stands in the lists of the first `n` nodes.
abbrev pub everywhere : (ℕ → Pools) → ℕ → Ptr → ℕ
everywhere ps n x = total (λ p. owned p x) n ps

abbrev pub IsEmpty : Pools → Type 0
IsEmpty p = (p.global ≡ []) × (p.local ≡ [])

pub record IsNodes (a : NumaAllocator) (pt : PerThread) (w : World) (ps : ℕ → Pools) : Type 0 where
  pub cache : (n : ℕ) → n < a.num_nodes → IsCache w (get_cache a pt n) (ps n)
  pub global : (n : ℕ) → n < a.num_nodes → (get_cache a pt n).global ≡ (a.pools n).global
  pub apart :
      (m n : ℕ)
      → m < a.num_nodes
      → n < a.num_nodes
      → m ≢ n
      → (a.pools m).global ≢ (a.pools n).global
  pub once : (x : Ptr) → everywhere ps a.num_nodes x ≤ 1

pub get_cache_self :
    (a : NumaAllocator) (pt : PerThread) (n : ℕ) (c : ThreadCache)
    → get_cache a (update pt n (some c)) n ≡ c
unfolding get_cache
get_cache_self a pt n c = rw (update_self pt n (some c), get_cache) refl

pub get_cache-ne :
    (a : NumaAllocator) (pt : PerThread) (n m : ℕ) (c : ThreadCache)
    → m ≢ n
    → get_cache a (update pt n (some c)) m ≡ get_cache a pt m
unfolding get_cache
get_cache-ne a pt n m c ne = rw (get_cache, update_ne pt n m (some c) ne) refl

-- What an allocation does: the block leaves the lists, and every other one stays.
pub record Served (a : NumaAllocator) (w : World) (ps : ℕ → Pools) (out : Ptr × PerThread)
    (w' : World) (qs : ℕ → Pools) : Type 0 where
  pub nodes : IsNodes a (out.1) w' qs
  pub counts :
      (x : Ptr)
      → x ≢ null
      → everywhere qs a.num_nodes x + (if x == out.0 then 1 else 0) ≡ everywhere ps a.num_nodes x
  pub fewer : length w'.weak ≤ length w.weak

-- The outcome on one node.
pub record From (a : NumaAllocator) (w : World) (ps : ℕ → Pools) (n : ℕ) (out : Ptr × PerThread)
    (w' : World) : Type 0 where
  pub left : Pools
  pub served : Served a w ps out w' (update ps n left)
  pub empty : out.0 ≡ null → IsEmpty (ps n)

module _ (b : Build) (rounds fuel : ℕ) (a : NumaAllocator) where
  after :
      (pt : PerThread) (w : World) (ps : ℕ → Pools) (n : ℕ) (r : Ptr) (c : ThreadCache) (w' : World)
      → IsNodes a pt w ps
      → n < a.num_nodes
      → Gave
          (ps n)
          (alloc_spec (get_cache a pt n).batch_size (ps n)).1
          (alloc_spec (get_cache a pt n).batch_size (ps n)).0
          w
          (r, c)
          w'
          (get_cache a pt n)
      → From a w ps n (r, update pt n (some c)) w'
  after pt w ps n r c w' is h g = record {
    left = q;
    served = record {
      nodes = record { cache = cache; global = global; apart = is.apart; once = once };
      counts = λ x ne. omega (arith, moved x, leaves x ne);
      fewer = g.moved.step.fewer;
    };
    empty = λ e. alloc_spec-null (is.cache n h) (sym g.result ∙ e);
  }
    where
      q : Pools
      q = (alloc_spec (get_cache a pt n).batch_size (ps n)).1

      leaves : (x : Ptr) → x ≢ null → owned q x + (if x == r then 1 else 0) ≡ owned (ps n) x
      leaves x ne = rw g.result (owned-alloc (get_cache a pt n).batch_size (ps n) x ne)

      moved :
          (x : Ptr)
          → everywhere (update ps n q) a.num_nodes x + owned (ps n) x
            ≡ everywhere ps a.num_nodes x + owned q x
      moved x = omega (arith, total-update (λ p. owned p x) a.num_nodes ps n q h)

      cache :
          (m : ℕ)
          → m < a.num_nodes
          → IsCache w' (get_cache a (update pt n (some c)) m) (update ps n q m)
      cache m k = elim (ℕ_discrete m n) [
        | yes e ↦ rw (e, get_cache_self a pt n c, update_self ps n q) g.moved.cache
        | no ne ↦
            rw (get_cache-ne a pt n m c ne, update_ne ps n m q ne)
              (IsCache-frame (get_cache a pt n).global (owned (ps n)) (is.cache m k) g.moved.step
                (rw (is.global m k, is.global n h) (is.apart m n k h ne))
                (λ x.
                  omega
                    (arith, is.once x, le-total_two (λ p. owned p x) a.num_nodes ps m n k h ne)))
      ]

      global :
          (m : ℕ)
          → m < a.num_nodes
          → (get_cache a (update pt n (some c)) m).global ≡ (a.pools m).global
      global m k = elim (ℕ_discrete m n) [
        | yes e ↦ rw (e, get_cache_self a pt n c) (g.moved.global_eq ∙ is.global n h)
        | no ne ↦ rw (get_cache-ne a pt n m c ne) (is.global m k)
      ]

      none_left : owned q null ≤ owned (ps n) null
      none_left = omega (arith, no-null g.moved.cache)

      once : (x : Ptr) → everywhere (update ps n q) a.num_nodes x ≤ 1
      once x = elim (ℕ_discrete x null) [
        | yes e ↦ rw e (omega (arith, moved null, is.once null, none_left))
        | no ne ↦ omega (arith, moved x, is.once x, leaves x ne)
      ]

  pub alloc_from-From :
      (pt : PerThread) (w : World) (ps : ℕ → Pools) (n : ℕ)
      → IsNodes a pt w ps
      → n < a.num_nodes
      → length w.weak < fuel
      → length (ps n).global < rounds
      → Returns (From a w ps n) (alloc_from b rounds fuel a pt n w)
  unfolding alloc_from
  alloc_from-From pt w ps n is h l r =
      Returns.bind (alloc-refines b rounds fuel (get_cache a pt n) w l (ps n) (is.cache n h) r)
        λ (p, c) w' g. returns (after pt w ps n p c w' is h g)
