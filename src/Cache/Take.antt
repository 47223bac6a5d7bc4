-- ===== src/Cache/Take.antt =====
-- Taking the first block of a thread cache, the last part of `ThreadCache::alloc`, and commands that
-- leave memory as it is.
use mathlib.Core.Path.{subst}
use pool_memalloc.Common.{
  ℕ, ◌≡◌, ◌≢◌, refl, sym, ap, ◌∙◌, true, List, [], ◌∷◌, ◌==◌, arith, Bool-cases, inl, inr, length,
}
use pool_memalloc.Common.Words.{sub64}
use pool_memalloc.Heap.{Ptr, null, World}
use pool_memalloc.Heap.Access.{not_null, load_next-ok}
use pool_memalloc.Heap.Returns
use pool_memalloc.Heap.Returns.{Returns, returns}
use pool_memalloc.Heap.Chain.{has, Chain}
use pool_memalloc.Stats.{Build, inc_allocs, alloc_debug_on_alloc, alloc_debug_on_dealloc}
use pool_memalloc.Cache.{ThreadCache, take_block}
use pool_memalloc.Cache.Spec.{Pools, pools, front, behind_front}
use pool_memalloc.Cache.Valid.{IsCache}
use pool_memalloc.Cache.Refill.{
  SameMemory, alloc_stat-SameMemory, Step, owned, Moved, IsStack-SameMemory,
}

pub alloc_debug_on_alloc-SameMemory :
    (b : Build) (p : Ptr) (w : World)
    → Returns (λ _ w'. SameMemory w w') (alloc_debug_on_alloc b p w)
unfolding alloc_debug_on_alloc
alloc_debug_on_alloc-SameMemory b p w = returns (ground arith)

pub alloc_debug_on_dealloc-SameMemory :
    (b : Build) (p : Ptr) (w : World)
    → Returns (λ _ w'. SameMemory w w') (alloc_debug_on_dealloc b p w)
unfolding alloc_debug_on_dealloc
alloc_debug_on_dealloc-SameMemory b p w = elim (Bool-cases b.debug) [
  | inr off ↦ rw off (returns (ground arith))
  | inl on ↦ elim (Bool-cases (p == null)) [
    | inl nothing ↦ rw (on, nothing) (returns (ground arith))
    | inr some_ ↦ elim (Bool-cases (has p w.local.live)) [
      | inl live ↦ rw (on, some_, live) (returns (ground arith))
      | inr dead ↦ rw (on, some_, dead) (returns (ground arith))
    ]
  ]
]

pub IsCache-SameMemory :
    {c : ThreadCache} {p : Pools} {w w' : World} → SameMemory w w' → IsCache w c p → IsCache w' c p
IsCache-SameMemory {c} {p} m is = record {
  stack = IsStack-SameMemory m is.stack;
  chain = subst (λ n. Chain n c.local_head p.local) (sym m.next_eq) is.chain;
  size = is.size;
  once = is.once;
  bounded = is.bounded;
  batch = is.batch;
  low = is.low;
  high = is.high;
}

pub Step-SameMemory :
    {f : ℕ} {blocks : Ptr → ℕ} {w w' : World} → SameMemory w w' → Step f blocks w w'
Step-SameMemory m = record {
  others = λ g e. ap (λ h. h g) m.heads_eq;
  fewer = omega (arith, ap length m.weak_eq);
  same = λ a o. ap (λ n. n a) m.next_eq;
}

pub Step-trans :
    {f : ℕ} {bs cs : Ptr → ℕ} {u v w : World}
    → Step f bs u v
    → Step f cs v w
    → ((a : Ptr) → bs a ≡ 0 → cs a ≡ 0)
    → Step f bs u w
Step-trans s t within = record {
  others = λ g e. t.others g e ∙ s.others g e;
  fewer = omega (arith, s.fewer, t.fewer);
  same = λ a o. t.same a (within a o) ∙ s.same a o;
}

-- The result of a call: what it returns, and the cache that it leaves.
pub record Gave (p q : Pools) (r : Ptr) (w : World) (out : Ptr × ThreadCache) (w' : World)
    (c : ThreadCache) : Type 0 where
  pub result : out.0 ≡ r
  pub moved : Moved p q w out.1 w' c

module _ (b : Build) (c : ThreadCache) (w : World) where
  pub take_block-Gave :
      (gs ys : List Ptr)
      → IsCache w c (pools gs ys)
      → Returns
          (λ out w'. Gave (pools gs ys) (pools gs (behind_front ys)) (front ys) w out w' c)
          (take_block b c w)
  unfolding take_block
  take_block-Gave gs [] is =
      let empty : (c.local_head == null) ≡ true = ground (arith, is.chain) in
      rw empty (
        returns (record {
          result = refl;
          moved = record {
            cache = is;
            step = record { others = λ g e. refl; fewer = omega arith; same = λ a o. refl };
            batch_eq = refl;
            global_eq = refl;
          };
        }))
  take_block-Gave gs (x ∷ xs) is =
      rw (not_null c.local_head ne, load_next-ok c.local_head w ne)
        (Returns.bind (alloc_stat-SameMemory b inc_allocs w) λ _ w1 m1.
          Returns.bind (alloc_debug_on_alloc-SameMemory b c.local_head w1) λ _ w2 m2.
            returns (record {
              result = is.chain.0;
              moved = record {
                cache = IsCache-SameMemory m2 (IsCache-SameMemory m1 taken);
                step =
                    Step-trans (Step-SameMemory m1)
                      (Step-SameMemory {blocks = owned (pools gs (x ∷ xs))} m2) (λ a o. o);
                batch_eq = refl;
                global_eq = refl;
              };
            }))
    where
      ne : c.local_head ≢ null
      ne = rw (is.chain.0) (is.chain.1)

      taken :
          IsCache w
            (record c { local_head = w.next c.local_head; local_size = sub64 c.local_size 1 })
            (pools gs xs)
      taken = record {
        stack = is.stack;
        chain = rw (is.chain.0) (is.chain.2);
        size = omega (arith, is.size, is.bounded);
        once = λ a. omega (arith, is.once a);
        bounded = omega (arith, is.bounded);
        batch = is.batch;
        low = is.low;
        high = is.high;
      }
