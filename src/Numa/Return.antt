-- ===== src/Numa/Return.antt =====
-- `NumaAllocator::dealloc`: a block goes back to the node that it is from.
use pool_memalloc.Common.{
  ℕ, ◌+◌, ◌^◌, ◌≤◌, ◌<◌, ◌≡◌, ◌≢◌, ◌∙◌, some, ◌∷◌, ◌==◌, if◌then◌else◌, arith, length, ℕ_discrete,
}
use pool_memalloc.Common.Family.{
  update, update_self, update_ne, total-update, le-total_two, le-total,
}
use pool_memalloc.Heap.{Ptr, null, World}
use pool_memalloc.Heap.Returns
use pool_memalloc.Heap.Returns.{Returns, returns}
use pool_memalloc.Stats.{Build}
use pool_memalloc.Cache.{ThreadCache}
use pool_memalloc.Cache.Spec.{Pools, pools, dealloc_spec}
use pool_memalloc.Cache.Valid.{IsCache}
use pool_memalloc.Cache.Refill.{owned, Moved}
use pool_memalloc.Cache.Calls.{dealloc-refines}
use pool_memalloc.Cache.Contract.{owned-dealloc}
use pool_memalloc.Cache.Frame.{IsCache-frame}
use pool_memalloc.Numa.{NumaAllocator, PerThread, get_cache, dealloc}
use pool_memalloc.Numa.Owner.{IsOwn, owner_node-own}
use pool_memalloc.Numa.Nodes.{IsNodes, everywhere, get_cache_self, get_cache-ne}

module _ (a : NumaAllocator) (pt : PerThread) (w : World) (ps : ℕ → Pools) (is : IsNodes a pt w ps)
    (n : ℕ) (h : n < a.num_nodes) (ptr : Ptr) (ne_null : ptr ≢ null)
    (fresh : everywhere ps a.num_nodes ptr ≡ 0) where
  -- Node `n` with the block, its lists `q`.
  abbrev joined : Pools
  joined = dealloc_spec (get_cache a pt n).batch_size ptr (ps n)

  moved :
      (x : Ptr)
      → everywhere (update ps n joined) a.num_nodes x
        ≡ everywhere ps a.num_nodes x + (if x == ptr then 1 else 0)
  moved x = omega (
    arith,
    total-update (λ p. owned p x) a.num_nodes ps n joined h,
    owned-dealloc (get_cache a pt n).batch_size ptr (ps n) x,
  )

  returned :
      (c : ThreadCache) (w' : World)
      → Moved (pools (ps n).global (ptr ∷ (ps n).local)) joined w c w' (get_cache a pt n)
      → IsNodes a (update pt n (some c)) w' (update ps n joined)
  returned c w' m = record { cache = cache; global = global; apart = is.apart; once = once }
    where
      cache :
          (k : ℕ)
          → k < a.num_nodes
          → IsCache w' (get_cache a (update pt n (some c)) k) (update ps n joined k)
      cache k l = elim (ℕ_discrete k n) [
        | yes e ↦ rw (e, get_cache_self a pt n c, update_self ps n joined) m.cache
        | no ne ↦
            rw (get_cache-ne a pt n k c ne, update_ne ps n k joined ne)
              (IsCache-frame (get_cache a pt n).global
                (owned (pools (ps n).global (ptr ∷ (ps n).local))) (is.cache k l) m.step
                (rw (is.global k l, is.global n h) (is.apart k n l h ne))
                (λ x. ground (
                  arith,
                  is.once x,
                  fresh,
                  le-total_two (λ p. owned p x) a.num_nodes ps k n l h ne,
                )))
      ]

      global :
          (k : ℕ)
          → k < a.num_nodes
          → (get_cache a (update pt n (some c)) k).global ≡ (a.pools k).global
      global k l = elim (ℕ_discrete k n) [
        | yes e ↦ rw (e, get_cache_self a pt n c) (m.global_eq ∙ is.global n h)
        | no ne ↦ rw (get_cache-ne a pt n k c ne) (is.global k l)
      ]

      once : (x : Ptr) → everywhere (update ps n joined) a.num_nodes x ≤ 1
      once x = ground (arith, moved x, is.once x, fresh)

  -- `dealloc`, total, of a block that is not `nullptr`, that no list holds and that the region of node
  -- `n` alone has, where all regions end in the address space, the region of a node without memory
  -- counts from address 0, and the lists of node `n` have fewer than 2 ^ 63 blocks with it: the block
  -- joins the lists of node `n`, every other block stays where it is, and all nodes stay well-formed.
  pub dealloc-own_node :
      (b : Build) (rounds fuel : ℕ)
      → IsOwn a.pools a.num_nodes n ptr
      → length w.weak < fuel
      → length (ps n).local + 1 < rounds
      → length (ps n).global + length (ps n).local + 1 < 2 ^ 63
      → Returns
          (λ pt' w'.
            (q : Pools) × IsNodes a pt' w' (update ps n q)
            × ((x : Ptr) → owned q x ≡ owned (ps n) x + (if x == ptr then 1 else 0)))
          (dealloc b rounds fuel a pt ptr w)
  unfolding dealloc
  dealloc-own_node b rounds fuel own l r small = rw (owner_node-own a n ptr h own) (
      Returns.bind
        (dealloc-refines b rounds fuel (get_cache a pt n) w l (ps n) ptr (is.cache n h) r ne_null
          (omega (arith, fresh, le-total (λ p. owned p ptr) a.num_nodes ps n h)) small)
        λ c w' m.
          returns (joined, returned c w' m, owned-dealloc (get_cache a pt n).batch_size ptr (ps n)))
