-- ===== src/Cache/Flush.antt =====
-- `flush` gives the first blocks of the thread's list back to the freelist.
use mathlib.Core.List.{reverse_aux}
use mathlib.Core.Path.{subst}
use pool_memalloc.Common.{
  ℕ, suc, ◌+◌, ◌<◌, ◌≡◌, ◌≢◌, refl, sym, ap, ◌∙◌, true, false, ◌||◌, List, [], ◌∷◌, ◌==◌, arith,
  length, take, drop, length-take, length-drop,
}
use pool_memalloc.Common.Words.{sub64}
use pool_memalloc.Heap.{Ptr, null, World, ok, update}
use pool_memalloc.Heap.Access.{load_next-ok, set_next-ok}
use pool_memalloc.Heap.Returns
use pool_memalloc.Heap.Returns.{Returns, returns}
use pool_memalloc.Heap.Chain.{
  has, Distinct, Chain, SameOutside, Chain-outside, Chain-frame, Chain-update, update_ne,
}
use pool_memalloc.Heap.Count.{
  count, count-take-drop, count-reverse_aux, length-reverse_aux, has_of_count, Distinct-of_count,
}
use pool_memalloc.Heap.Last.{last, has-last, last-ne-null, Chain-rest, Chain-cut}
use pool_memalloc.Freelist.Stack.{Kept, IsStack}
use pool_memalloc.Freelist.Bulk.{push_bulk_lem, Apart}
use pool_memalloc.Stats.{Build, add_flush}
use pool_memalloc.Cache.{ThreadCache, batch_end, flush}
use pool_memalloc.Cache.Spec.{pools, flush_spec}
use pool_memalloc.Cache.Valid.{IsCache, batch_end-last}
use pool_memalloc.Cache.Refill.{
  SameMemory, alloc_stat-SameMemory, owned, Moved, IsStack-SameMemory, Apart-of_once,
}

module _ {c : ThreadCache} {w : World} (x d : ℕ) (xs gs : List Ptr)
    (is : IsCache w c (pools gs (x ∷ xs))) where
  -- The world after `batch_tail->next = nullptr`.
  abbrev cut : World
  cut = record w { next = update w.next (last x (take d xs)) null }

  counts : (a : Ptr) → count a (x ∷ take d xs) + count a (drop d xs) ≡ count a (x ∷ xs)
  counts a = omega (arith, count-take-drop a d xs)

  whole : Chain w.next x (x ∷ xs)
  whole = (refl, is.chain.1, is.chain.2)

  batch-Distinct : Distinct (x ∷ take d xs)
  batch-Distinct = Distinct-of_count (x ∷ take d xs) (λ a. omega (arith, counts a, is.once a))

  batch-Apart : Apart (x ∷ take d xs) gs
  batch-Apart = Apart-of_once (x ∷ take d xs) gs (λ a. omega (arith, counts a, is.once a))

  rest-Apart : Apart (drop d xs) (x ∷ take d xs)
  rest-Apart = Apart-of_once (drop d xs) (x ∷ take d xs) (λ a. omega (arith, counts a, is.once a))

  all-Distinct : Distinct (x ∷ xs)
  all-Distinct = Distinct-of_count (x ∷ xs) (λ a. omega (arith, is.once a))

  batch-Chain : Chain cut.next x (x ∷ take d xs)
  batch-Chain = Chain-cut w.next d x xs whole all-Distinct

  in-batch : has (last x (take d xs)) (x ∷ take d xs) ≡ true
  in-batch = has-last x (take d xs)

  tail-ne-null : last x (take d xs) ≢ null
  tail-ne-null = last-ne-null cut.next x (take d xs) batch-Chain

  cut-IsStack : IsStack cut c.global gs
  cut-IsStack = record {
    chain =
        Chain-update w.next (w.heads c.global).ptr (last x (take d xs)) null gs
          (batch-Apart (last x (take d xs)) in-batch) is.stack.chain;
    distinct = is.stack.distinct;
  }

  -- The chain that `push_bulk` is given, whose last block it cuts off again.
  handed-Chain : Chain (update cut.next (last x (take d xs)) null) x (x ∷ take d xs)
  handed-Chain =
      Chain-frame cut.next (update cut.next (last x (take d xs)) null) x (x ∷ take d xs)
        (λ a h. ground arith) batch-Chain

  rest-Chain : Chain cut.next (w.next (last x (take d xs))) (drop d xs)
  rest-Chain =
      Chain-outside w.next cut.next (w.next (last x (take d xs))) (drop d xs) (x ∷ take d xs)
        (λ a o.
          update_ne w.next (last x (take d xs)) a null
            (λ e. ground (arith, o, in-batch, ap (λ (t : Ptr). has t (x ∷ take d xs)) e)))
        rest-Apart (Chain-rest w.next d x xs whole)

  -- After `push_bulk` and the counters.
  flushed :
      (w2 w3 : World)
      → IsStack w2 c.global (reverse_aux (x ∷ take d xs) gs)
      → Kept c.global cut w2
      → SameOutside (x ∷ take d xs) cut.next w2.next
      → SameMemory w2 w3
      → Moved
          (pools gs (x ∷ xs))
          (pools (reverse_aux (x ∷ take d xs) gs) (drop d xs))
          w
          (record c {
            local_head = w.next (last x (take d xs));
            local_size = sub64 c.local_size (1 + length (take d xs));
          })
          w3
          c
  flushed w2 w3 st k same m = record {
    cache = record {
      stack = IsStack-SameMemory m st;
      chain =
          subst (λ n. Chain n (w.next (last x (take d xs))) (drop d xs)) (sym m.next_eq)
            (Chain-outside cut.next w2.next (w.next (last x (take d xs))) (drop d xs)
              (x ∷ take d xs) same rest-Apart rest-Chain);
      size = omega (arith, is.size, is.bounded, lengths);
      once = λ a. omega (arith, is.once a, counts a, count-reverse_aux a (take d xs) (x ∷ gs));
      bounded = omega (arith, is.bounded, lengths, length-reverse_aux (take d xs) (x ∷ gs));
      batch = is.batch;
      low = is.low;
      high = is.high;
    };
    step = record {
      others = λ g e. ap (λ h. h g) m.heads_eq ∙ k.others g e;
      fewer = omega (arith, k.fewer, ap length m.weak_eq);
      same = λ a o.
          ap (λ n. n a) m.next_eq
          ∙ same a (free a o)
          ∙ update_ne w.next (last x (take d xs)) a null
              (λ e. ground (arith, free a o, in-batch, ap (λ (t : Ptr). has t (x ∷ take d xs)) e));
    };
    batch_eq = refl;
    global_eq = refl;
  }
    where
      lengths : length (take d xs) + length (drop d xs) ≡ length xs
      lengths = omega (arith, length-take {0} d xs, length-drop {0} d xs)

      free : (a : Ptr) → owned (pools gs (x ∷ xs)) a ≡ 0 → has a (x ∷ take d xs) ≡ false
      free a o = has_of_count a (x ∷ take d xs) (omega (arith, counts a))

module _ (b : Build) (rounds fuel : ℕ) (c : ThreadCache) (w : World)
    (enough : length w.weak < fuel) where
  -- `flush`, total: the first `excess` blocks of the thread's list, or as many as there are, go onto
  -- the freelist one after the other.
  pub flush-Moved :
      (d : ℕ) (gs ys : List Ptr)
      → IsCache w c (pools gs ys)
      → length ys < rounds
      → Returns
          (λ c' w'. Moved (pools gs ys) (flush_spec (suc d) (pools gs ys)) w c' w' c)
          (flush b rounds fuel (suc d) c w)
  unfolding flush
  flush-Moved d gs [] is r =
      let empty : ((c.local_head == null) || (suc d == 0)) ≡ true = ground (arith, is.chain) in
      rw empty (
        returns (record {
          cache = is;
          step = record { others = λ g e. refl; fewer = omega arith; same = λ a o. refl };
          batch_eq = refl;
          global_eq = refl;
        }))
  flush-Moved d gs (x ∷ xs) is r =
      rw (some_, ends)
        (rw (load_next-ok (last x (take d xs)) w (tail-ne-null x d xs gs is)) (
          rw (set_next-ok (last x (take d xs)) null w (tail-ne-null x d xs gs is)) (
            Returns.bind
              (push_bulk_lem rounds fuel c.global c.local_head (last x (take d xs)) (x ∷ take d xs)
                gs (cut x d xs gs is) short enough (in-batch x d xs gs is)
                (tail-ne-null x d xs gs is)
                (is.chain.0, (handed-Chain x d xs gs is).1, (handed-Chain x d xs gs is).2)
                (batch-Distinct x d xs gs is) (cut-IsStack x d xs gs is) (batch-Apart x d xs gs is))
              λ _ w2 (st, k, same).
                Returns.bind (alloc_stat-SameMemory b (add_flush (1 + length (take d xs))) w2)
                  λ _ w3 m. returns (flushed x d xs gs is w2 w3 st k same m))))
    where
      some_ : ((c.local_head == null) || (suc d == 0)) ≡ false
      some_ = ground (arith, is.chain.0, is.chain.1)

      ends :
          batch_end rounds (suc d) c.local_head 1 w
          ≡ ok (last x (take d xs), 1 + length (take d xs)) w
      ends = rw (is.chain.0) (
          batch_end-last rounds d x xs 1 (suc d) w (omega arith) (omega arith)
            (omega (arith, is.bounded)) (whole x d xs gs is))

      short : length (x ∷ take d xs) < rounds
      short = omega (arith, length-take {0} d xs, r)
