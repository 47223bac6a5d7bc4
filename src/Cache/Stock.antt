-- ===== src/Cache/Stock.antt =====
-- The blocks that a thread cache and its freelist have between them, without their order and without
-- where they are: all that a caller of `alloc` and `dealloc` of src/tl_freelist_allocator.cpp sees.
use mathlib.Core.Quot
use mathlib.Core.Quot.{Quot, Quot-set}
use pool_memalloc.Common.{
  ℕ, ◌+◌, ◌^◌, ◌<◌, ◌≡◌, ◌≢◌, ap, ◌∙◌, ◌⊎◌, inl, inr, [], ◌∷◌, ◌==◌, if◌then◌else◌, Bool-cases,
  arith, length,
}
use pool_memalloc.Heap.{Ptr, null, World}
use pool_memalloc.Heap.Returns
use pool_memalloc.Heap.Returns.{Returns}
use pool_memalloc.Stats.{Build}
use pool_memalloc.Cache.{ThreadCache, alloc, dealloc}
use pool_memalloc.Cache.Spec.{Pools, pools, alloc_spec, dealloc_spec}
use pool_memalloc.Cache.Valid.{IsCache}
use pool_memalloc.Cache.Refill.{owned}
use pool_memalloc.Cache.Calls.{alloc-refines, dealloc-refines}
use pool_memalloc.Cache.Contract.{owned-alloc, owned-dealloc, alloc_spec-null}

-- The same blocks, each as often.
abbrev pub SameStock : Pools → Pools → Type 0
SameStock p q = (a : Ptr) → a ≢ null → owned p a ≡ owned q a

abbrev pub Stock : Type 0
Stock = Quot SameStock

abbrev pub stock : Pools → Stock
stock = Quot.mk

abbrev pub empty : Stock
empty = stock (pools [] [])

held_in : Ptr → Pools → ℕ
held_in a p = if a == null then 0 else owned p a

held_in-same : (a : Ptr) (p q : Pools) → SameStock p q → held_in a p ≡ held_in a q
unfolding held_in
held_in-same a p q same = ground (arith, same a)

put-same :
    (x : Ptr) (p q : Pools)
    → SameStock p q
    → SameStock (pools p.global (x ∷ p.local)) (pools q.global (x ∷ q.local))
put-same x p q same a ne = omega (arith, same a ne)

-- How often a block is there.
pub holds : Ptr → Stock → ℕ
holds a = Quot.lift (hlevel) (held_in a) (held_in-same a)

-- One block more.
pub put : Ptr → Stock → Stock
put x =
    Quot.lift Quot-set (λ p. stock (pools p.global (x ∷ p.local)))
      λ p q same. Quot.sound (put-same x p q same)

-- A stock is what it holds.
pub stock_ext : (s t : Stock) → ((a : Ptr) → holds a s ≡ holds a t) → s ≡ t
unfolding holds held_in
stock_ext =
    Quot.ind (λ _. hlevel Quot-set)
      λ p. Quot.ind (λ _. hlevel Quot-set) λ q same. Quot.sound λ a ne. ground (arith, same a)

pub holds-put :
    (a x : Ptr) (s : Stock) → x ≢ null → holds a (put x s) ≡ (if a == x then 1 else 0) + holds a s
unfolding holds held_in put
holds-put a x = Quot.ind (λ _. hlevel) λ p ne. ground arith

-- What `alloc` may do: give a block that was there, or `nullptr` where none was.
abbrev pub Takes : Stock → Ptr → Stock → Type 0
Takes s r t = ((r ≡ null) × (s ≡ empty) × (t ≡ empty)) ⊎ ((r ≢ null) × (s ≡ put r t))

alloc_spec-Takes :
    {w : World} {c : ThreadCache} {p : Pools}
    → IsCache w c p
    → Takes (stock p) ((alloc_spec c.batch_size p).0) (stock ((alloc_spec c.batch_size p).1))
unfolding put
alloc_spec-Takes {c} {p} is = elim (Bool-cases ((alloc_spec c.batch_size p).0 == null)) [
  | inl none_ ↦
      let e : (alloc_spec c.batch_size p).0 ≡ null = ground arith in
      let (eg, el) = alloc_spec-null is e in
      let nothing : stock p ≡ empty = ap stock (λ i. pools (eg i) (el i)) in
      inl (
        e,
        nothing,
        Quot.sound (λ a ne. ground (arith, owned-alloc c.batch_size p a ne, e)) ∙ nothing,
      )
  | inr some_ ↦
      inr
        (λ e. ground (arith, e), Quot.sound λ a ne. omega (arith, owned-alloc c.batch_size p a ne))
]

module _ (b : Build) (rounds fuel : ℕ) (c : ThreadCache) (w : World) (p : Pools)
    (enough : length w.weak < fuel) (is : IsCache w c p) where
  -- Where neither order nor place counts, `alloc`, total, takes the block that it returns from the
  -- stock of blocks, and returns `nullptr` where there is none; and `dealloc`, total, of a block that
  -- neither list holds puts it there. Refills and flushes do not show.
  pub calls-Stock :
      (ptr : Ptr)
      → length p.global < rounds
      → length p.local + 1 < rounds
      → ptr ≢ null
      → owned p ptr ≡ 0
      → length p.global + length p.local + 1 < 2 ^ 63
      → Returns
          (λ out w'. (q : Pools) × IsCache w' out.1 q × Takes (stock p) (out.0) (stock q))
          (alloc b rounds fuel c w)
        × Returns
            (λ c' w'. (q : Pools) × IsCache w' c' q × (stock q ≡ put ptr (stock p)))
            (dealloc b rounds fuel c ptr w)
  unfolding put
  calls-Stock ptr r r' ne fresh small = (
    Returns.mono (alloc-refines b rounds fuel c w enough p is r) λ out w' g.
        ((alloc_spec c.batch_size p).1, g.moved.cache, rw g.result (alloc_spec-Takes is)),
    Returns.mono (dealloc-refines b rounds fuel c w enough p ptr is r' ne fresh small) λ c' w' m. (
      dealloc_spec c.batch_size ptr p,
      m.cache,
      Quot.sound λ a ne. omega (arith, owned-dealloc c.batch_size ptr p a),
    ),
  )
