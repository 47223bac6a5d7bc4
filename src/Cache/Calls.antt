-- ===== src/Cache/Calls.antt =====
-- `ThreadCache::alloc` and `ThreadCache::dealloc` do to the two lists what their specification says.
use pool_memalloc.Common.{
  ℕ, suc, ◌+◌, ◌-◌, ◌*◌, ◌/◌, ◌^◌, ◌≤◌, ◌<◌, ◌≡◌, ◌≢◌, refl, ap, ◌∙◌, true, false, ◌∷◌, ltb, leb,
  ◌==◌, if◌then◌else◌, arith, Bool-cases, inl, inr, length, take,
}
use pool_memalloc.Common.Words.{u64, sub64}
use pool_memalloc.Heap.{Ptr, null, World, ok, update, pure}
use pool_memalloc.Heap.Access.{not_null, set_next-ok}
use pool_memalloc.Heap.Returns
use pool_memalloc.Heap.Returns.{Returns, returns}
use pool_memalloc.Heap.Chain.{Chain-update, update_self, update_ne}
use pool_memalloc.Heap.Count.{count, count-append, count-take-drop, has_of_count}
use pool_memalloc.Freelist.Bulk.{asked}
use pool_memalloc.Stats.{Build, inc_deallocs}
use pool_memalloc.Cache.{ThreadCache, flush, take_block, alloc, dealloc}
use pool_memalloc.Cache.Spec.{
  Pools, pools, front, behind_front, refill_spec, alloc_spec, trim_spec, dealloc_spec,
}
use pool_memalloc.Cache.Valid.{IsCache}
use pool_memalloc.Cache.Refill.{
  SameMemory, alloc_stat-SameMemory, Step, owned, Moved, IsStack-SameMemory, refill-Moved,
}
use pool_memalloc.Cache.Flush.{flush-Moved}
use pool_memalloc.Cache.Take.{
  alloc_debug_on_dealloc-SameMemory, IsCache-SameMemory, Step-trans, Gave, take_block-Gave,
}

pub owned-refill : (n : ℕ) (p : Pools) (a : Ptr) → owned (refill_spec n p) a ≡ owned p a
owned-refill n p a =
    omega (
      arith,
      count-append a (take (asked n) p.global) p.local,
      count-take-drop a (asked n) p.global,
    )

module _ (b : Build) (rounds fuel : ℕ) (c : ThreadCache) (w : World)
    (enough : length w.weak < fuel) where
  after-refill :
      (p : Pools) (c1 : ThreadCache) (w1 : World)
      → Moved p (refill_spec c.batch_size p) w c1 w1 c
      → Returns
          (λ out w'.
            Gave p
              (pools
                (refill_spec c.batch_size p).global
                (behind_front (refill_spec c.batch_size p).local))
              (front (refill_spec c.batch_size p).local)
              w
              out
              w'
              c)
          (take_block b c1 w1)
  after-refill p c1 w1 m =
      Returns.mono
        (take_block-Gave b c1 w1 (refill_spec c.batch_size p).global
          (refill_spec c.batch_size p).local m.cache)
        λ out w2 g. record {
          result = g.result;
          moved = record {
            cache = g.moved.cache;
            step =
                Step-trans m.step (rw m.global_eq at g.moved.step)
                  (λ a o. owned-refill c.batch_size p a ∙ o);
            batch_eq = g.moved.batch_eq ∙ m.batch_eq;
            global_eq = g.moved.global_eq ∙ m.global_eq;
          };
        }

  -- `alloc` does to the two lists what `alloc_spec` says, and returns the block that it names. It
  -- ends, reads no null pointer, and touches no block but those of the two lists.
  pub alloc-refines :
      (p : Pools)
      → IsCache w c p
      → length p.global < rounds
      → Returns
          (λ out w'. Gave p (alloc_spec c.batch_size p).1 (alloc_spec c.batch_size p).0 w out w' c)
          (alloc b rounds fuel c w)
  unfolding alloc alloc_spec
  alloc-refines p is r = elim (Bool-cases (leb c.local_size c.low_watermark)) [
    | inl short ↦
        let short' : leb (length p.local) (c.batch_size / 2) ≡ true =
          rw (is.size, is.low) at short in
        rw (short, short')
          (Returns.bind (refill-Moved b rounds fuel c w enough p is r)
            λ c1 w1 m. after-refill p c1 w1 m)
    | inr plenty ↦
        let plenty' : leb (length p.local) (c.batch_size / 2) ≡ false =
          rw (is.size, is.low) at plenty in
        rw (plenty, plenty') (take_block-Gave b c w p.global p.local is)
  ]

  -- The cache after `dealloc` has linked the block in front.
  linked-IsCache :
      (p : Pools) (ptr : Ptr) (w2 : World)
      → IsCache w c p
      → SameMemory w w2
      → ptr ≢ null
      → owned p ptr ≡ 0
      → length p.global + length p.local + 1 < 2 ^ 63
      → IsCache
          (record w2 { next = update w2.next ptr c.local_head })
          (record c { local_head = ptr; local_size = u64 (c.local_size + 1) })
          (pools p.global (ptr ∷ p.local))
  linked-IsCache p ptr w2 is m ne fresh small = record {
    stack = record {
      chain =
          Chain-update w2.next (w2.heads c.global).ptr ptr c.local_head p.global
            (has_of_count ptr p.global (omega (arith, fresh)))
            (IsStack-SameMemory m is.stack).chain;
      distinct = is.stack.distinct;
    };
    chain = (
      refl,
      ne,
      rw (update_self w2.next ptr c.local_head) (
          Chain-update w2.next c.local_head ptr c.local_head p.local
            (has_of_count ptr p.local (omega (arith, fresh))) (IsCache-SameMemory m is).chain),
    );
    size = omega (arith, is.size, is.bounded);
    once = λ a. once a;
    bounded = omega (arith, small);
    batch = is.batch;
    low = is.low;
    high = is.high;
  }
    where
      once : (a : Ptr) → count a p.global + count a (ptr ∷ p.local) ≤ 1
      once a = elim (Bool-cases (a == ptr)) [
        | inl e ↦ let e' : a ≡ ptr = ground arith in rw e' (ground (arith, fresh))
        | inr e ↦ ground (arith, is.once a)
      ]

  -- The step from before the link to after it.
  linked-Step :
      (p : Pools) (ptr : Ptr) (w2 : World)
      → SameMemory w w2
      → Step c.global
          (owned (pools p.global (ptr ∷ p.local)))
          w
          (record w2 { next = update w2.next ptr c.local_head })
  linked-Step p ptr w2 m = record {
    others = λ g e. ap (λ h. h g) m.heads_eq;
    fewer = omega (arith, ap length m.weak_eq);
    same = λ a o.
        update_ne w2.next ptr a c.local_head (λ e. ground (arith, o)) ∙ ap (λ n. n a) m.next_eq;
  }

  -- The test against the high watermark, and the flush.
  trim-Moved :
      (q : Pools)
      → IsCache w c q
      → length q.local < rounds
      → Returns
          (λ c' w'. Moved q (trim_spec c.batch_size q) w c' w' c)
          ((if ltb c.high_watermark c.local_size
              then flush b rounds fuel (sub64 c.local_size c.batch_size) c
              else pure c)
            w)
  unfolding trim_spec
  trim-Moved q is r = elim (Bool-cases (ltb (c.batch_size * 2) (length q.local))) [
    | inl many ↦
        let test : ltb c.high_watermark c.local_size ≡ true = rw (is.high, is.size) many in
        let excess : sub64 c.local_size c.batch_size ≡ length q.local - c.batch_size =
          ground (arith, is.size, is.bounded, is.batch, many) in
        let excess' : length q.local - c.batch_size ≡ suc (length q.local - c.batch_size - 1) =
          ground (arith, many) in
        rw (many, test, excess, excess')
          (flush-Moved b rounds fuel c w enough (length q.local - c.batch_size - 1) q.global q.local
            is r)
    | inr few ↦
        let test : ltb c.high_watermark c.local_size ≡ false = rw (is.high, is.size) few in
        rw (few, test)
          (returns (record {
            cache = is;
            step = record { others = λ g e. refl; fewer = omega arith; same = λ a o. refl };
            batch_eq = refl;
            global_eq = refl;
          }))
  ]

module _ (b : Build) (rounds fuel : ℕ) (c : ThreadCache) (w : World)
    (enough : length w.weak < fuel) where
  -- `dealloc` does to the two lists what `dealloc_spec` says, for a block that is in neither. It
  -- ends, reads no null pointer, and touches no block but those of the two lists and the one given.
  pub dealloc-refines :
      (p : Pools) (ptr : Ptr)
      → IsCache w c p
      → length p.local + 1 < rounds
      → ptr ≢ null
      → owned p ptr ≡ 0
      → length p.global + length p.local + 1 < 2 ^ 63
      → Returns
          (λ c' w'.
            Moved (pools p.global (ptr ∷ p.local)) (dealloc_spec c.batch_size ptr p) w c' w' c)
          (dealloc b rounds fuel c ptr w)
  unfolding dealloc dealloc_spec
  dealloc-refines p ptr is r ne fresh small = rw (not_null ptr ne) (
      Returns.bind (alloc_stat-SameMemory b inc_deallocs w) λ _ w1 m1.
        Returns.bind (alloc_debug_on_dealloc-SameMemory b ptr w1) λ _ w2 m2.
          let m : SameMemory w w2 = record {
            next_eq = m2.next_eq ∙ m1.next_eq;
            heads_eq = m2.heads_eq ∙ m1.heads_eq;
            weak_eq = m2.weak_eq ∙ m1.weak_eq;
          } in
          rw (set_next-ok ptr c.local_head w2 ne) (
            Returns.mono
              (trim-Moved b rounds fuel
                (record c { local_head = ptr; local_size = u64 (c.local_size + 1) })
                (record w2 { next = update w2.next ptr c.local_head })
                (omega (arith, enough, ap length m.weak_eq)) (pools p.global (ptr ∷ p.local))
                (linked-IsCache b rounds fuel c w enough p ptr w2 is m ne fresh small)
                (omega (arith, r)))
              λ c' w' t. record {
                cache = t.cache;
                step =
                    Step-trans (linked-Step b rounds fuel c w enough p ptr w2 m) t.step (λ a o. o);
                batch_eq = t.batch_eq;
                global_eq = t.global_eq;
              }))

  -- `dealloc(nullptr)` does nothing.
  dealloc-null : dealloc b rounds fuel c null w ≡ ok c w
  unfolding dealloc
  dealloc-null = refl
