-- ===== src/Cache/Contract.antt =====
-- `ThreadCache::alloc` and `ThreadCache::dealloc` of src/tl_freelist_allocator.cpp, by how often a
-- block stands in the two lists and how long these are.
use pool_memalloc.Common.{
  ℕ, ◌+◌, ◌-◌, ◌*◌, ◌^◌, ◌≤◌, ◌<◌, ◌≡◌, ◌≢◌, refl, sym, ap, ◌∙◌, ◌↔◌, List, [], ◌∷◌, ◌==◌,
  if◌then◌else◌, arith, length, take, length-append, length-take, length-drop,
}
use pool_memalloc.Heap.{Ptr, null, World}
use pool_memalloc.Heap.Returns
use pool_memalloc.Heap.Returns.{Returns, returns}
use pool_memalloc.Heap.Chain.{Chain}
use pool_memalloc.Heap.Count.{count, count-take-drop, count-reverse_aux, length-reverse_aux}
use pool_memalloc.Freelist.Bulk.{asked}
use pool_memalloc.Stats.{Build}
use pool_memalloc.Cache.{ThreadCache, alloc, dealloc}
use pool_memalloc.Cache.Spec.{
  Pools, pools, front, behind_front, ready_spec, alloc_spec, trim_spec, dealloc_spec,
}
use pool_memalloc.Cache.Valid.{IsCache}
use pool_memalloc.Cache.Refill.{owned}
use pool_memalloc.Cache.Calls.{alloc-refines, dealloc-refines, owned-refill}

owned-ready : (n : ℕ) (p : Pools) (a : Ptr) → owned (ready_spec n p) a ≡ owned p a
unfolding ready_spec
owned-ready n p a = ground (arith, owned-refill n p a)

-- The block that `alloc` returns leaves the lists; any other stays.
pub owned-alloc :
    (n : ℕ) (p : Pools) (a : Ptr)
    → a ≢ null
    → owned (alloc_spec n p).1 a + (if a == (alloc_spec n p).0 then 1 else 0) ≡ owned p a
unfolding alloc_spec
owned-alloc n p a ne = front-counts (ready_spec n p).local ∙ owned-ready n p a
  where
    front-counts :
        (ys : List Ptr)
        → count a (ready_spec n p).global
            + count a (behind_front ys)
            + (if a == front ys then 1 else 0)
          ≡ count a (ready_spec n p).global + count a ys
    front-counts [] = ground arith
    front-counts (y ∷ ys) = omega arith

owned-trim : (n : ℕ) (p : Pools) (a : Ptr) → owned (trim_spec n p) a ≡ owned p a
unfolding trim_spec
owned-trim n p a = ground (
  arith,
  count-reverse_aux a (take (length p.local - n) p.local) p.global,
  count-take-drop a (length p.local - n) p.local,
)

-- The block that `dealloc` is given joins the lists.
pub owned-dealloc :
    (n : ℕ) (ptr : Ptr) (p : Pools) (a : Ptr)
    → owned (dealloc_spec n ptr p) a ≡ owned p a + (if a == ptr then 1 else 0)
unfolding dealloc_spec
owned-dealloc n ptr p a = omega (arith, owned-trim n (pools p.global (ptr ∷ p.local)) a)

-- What the calls do to the number of blocks in the lists.
abbrev pub block_total : Pools → ℕ
block_total p = length p.global + length p.local

size-ready :
    (n : ℕ) (p : Pools)
    → length (ready_spec n p).global + length (ready_spec n p).local
      ≡ length p.global + length p.local
unfolding ready_spec
size-ready n p = ground (
  arith,
  length-append {0} (take (asked n) p.global) p.local,
  length-take {0} (asked n) p.global,
  length-drop {0} (asked n) p.global,
)

pub block_total-alloc : (n : ℕ) (p : Pools) → block_total (alloc_spec n p).1 ≤ block_total p
unfolding alloc_spec
block_total-alloc n p = omega (arith, size-ready n p, behind (ready_spec n p).local)
  where
    behind : (ys : List Ptr) → length (behind_front ys) ≤ length ys
    behind [] = omega arith
    behind (y ∷ ys) = omega arith

pub block_total-dealloc :
    (n : ℕ) (ptr : Ptr) (p : Pools) → block_total (dealloc_spec n ptr p) ≡ block_total p + 1
unfolding dealloc_spec trim_spec
block_total-dealloc n ptr p =
    let k = length (ptr ∷ p.local) - n in
    ground (
      arith,
      length-reverse_aux (take k (ptr ∷ p.local)) p.global,
      length-take {0} k (ptr ∷ p.local),
      length-drop {0} k (ptr ∷ p.local),
    )

local-trim : (n : ℕ) (p : Pools) → length (trim_spec n p).local ≤ 2 * n
unfolding trim_spec
local-trim n p = ground (arith, length-drop {0} (length p.local - n) p.local)

-- `alloc` finds a block where there is one.
ready-nil :
    (n : ℕ) (gs ys : List Ptr) → (ready_spec n (pools gs ys)).local ≡ [] → (gs ≡ []) × (ys ≡ [])
unfolding ready_spec
ready-nil n [] [] e = (refl, refl)
ready-nil n (g ∷ gs) [] e = ground (arith, e)
ready-nil n gs (y ∷ ys) e =
    absurd (ground (arith, ap length e, length-append {0} (take (asked n) gs) (y ∷ ys)))

count-null : (f : Ptr → Ptr) (p : Ptr) (xs : List Ptr) → Chain f p xs → count null xs ≡ 0
count-null f p [] c = refl
count-null f p (x ∷ xs) (e, ne, c) = ground (arith, ne, count-null f (f x) xs c)

front-nil : (ys : List Ptr) → count null ys ≡ 0 → front ys ≡ null → ys ≡ []
front-nil [] none_ e = refl
front-nil (y ∷ ys) none_ e = absurd (ground (arith, none_, e))

module _ {w : World} {c : ThreadCache} {p : Pools} (is : IsCache w c p) where
  pub no-null : owned p null ≡ 0
  no-null = omega (
    arith,
    count-null w.next (w.heads c.global).ptr p.global is.stack.chain,
    count-null w.next c.local_head p.local is.chain,
  )

  pub alloc_spec-null : (alloc_spec c.batch_size p).0 ≡ null → (p.global ≡ []) × (p.local ≡ [])
  unfolding alloc_spec
  alloc_spec-null e = ready-nil c.batch_size p.global p.local (
      front-nil (ready_spec c.batch_size p).local
        (omega (arith, no-null, owned-ready c.batch_size p null)) e)

alloc_spec-nil : (n : ℕ) → (alloc_spec n (pools [] [])).0 ≡ null
unfolding alloc_spec ready_spec
alloc_spec-nil n = ground arith

module _ (b : Build) (rounds fuel : ℕ) (c : ThreadCache) (w : World) (p : Pools) where
  -- `alloc`, total, on a cache and its freelist: the block that it returns leaves the allocator's
  -- blocks, every other one is there as often as before, and the lists stay well-formed.
  pub alloc-conserves :
      length w.weak < fuel
      → IsCache w c p
      → length p.global < rounds
      → Returns
          (λ out w'.
            (q : Pools) × IsCache w' out.1 q
            × ((a : Ptr) → a ≢ null → owned q a + (if a == out.0 then 1 else 0) ≡ owned p a))
          (alloc b rounds fuel c w)
  alloc-conserves h is r = Returns.mono (alloc-refines b rounds fuel c w h p is r) λ out w' g. (
    (alloc_spec c.batch_size p).1,
    g.moved.cache,
    λ a ne. rw g.result (owned-alloc c.batch_size p a ne),
  )

  -- `alloc` returns `nullptr` exactly when neither list holds a block.
  pub alloc-nullptr_iff :
      length w.weak < fuel
      → IsCache w c p
      → length p.global < rounds
      → Returns
          (λ out w'. (out.0 ≡ null) ↔ ((p.global ≡ []) × (p.local ≡ [])))
          (alloc b rounds fuel c w)
  alloc-nullptr_iff h is r = Returns.mono (alloc-refines b rounds fuel c w h p is r) λ out w' g. (
    λ e. alloc_spec-null is (sym g.result ∙ e),
    λ (eg, el).
        g.result
        ∙ ap (λ q. (alloc_spec c.batch_size q).0) (λ i. pools (eg i) (el i))
        ∙ alloc_spec-nil c.batch_size,
  )

  -- `dealloc`, total, of a block that neither list holds: the block joins the allocator's blocks,
  -- every other one is there as often as before, the lists stay well-formed, and the thread keeps at
  -- most twice its batch.
  pub dealloc-conserves :
      (ptr : Ptr)
      → length w.weak < fuel
      → IsCache w c p
      → length p.local + 1 < rounds
      → ptr ≢ null
      → owned p ptr ≡ 0
      → length p.global + length p.local + 1 < 2 ^ 63
      → Returns
          (λ c' w'.
            (q : Pools) × IsCache w' c' q
            × ((a : Ptr) → owned q a ≡ owned p a + (if a == ptr then 1 else 0))
            × (length q.local ≤ 2 * c.batch_size))
          (dealloc b rounds fuel c ptr w)
  unfolding dealloc_spec
  dealloc-conserves ptr h is r ne fresh small =
      Returns.mono (dealloc-refines b rounds fuel c w h p ptr is r ne fresh small) λ c' w' m. (
        dealloc_spec c.batch_size ptr p,
        m.cache,
        owned-dealloc c.batch_size ptr p,
        local-trim c.batch_size (pools p.global (ptr ∷ p.local)),
      )
