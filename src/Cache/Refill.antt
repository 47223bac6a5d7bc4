-- ===== src/Cache/Refill.antt =====
-- `refill` and `flush` move a batch between the thread's list and the shared one.
use mathlib.Core.Path.{subst, subst₂}
use pool_memalloc.Common.{
  ℕ, suc, ◌+◌, ◌≤◌, ◌<◌, ◌≡◌, ◌≢◌, refl, sym, ap, ◌∙◌, false, List, [], ◌∷◌, ◌++◌, arith, length,
  take, drop, length-append, length-take, length-drop,
}
use pool_memalloc.Common.Words.{u64}
use pool_memalloc.Heap.{Ptr, null, World, update, AllocStats}
use pool_memalloc.Heap.Access.{not_null, set_next-ok}
use pool_memalloc.Heap.Returns
use pool_memalloc.Heap.Returns.{Returns, returns}
use pool_memalloc.Heap.Chain.{
  has, Distinct, Chain, SameOutside, Chain-outside, Chain-frame, Chain-update, update_ne,
}
use pool_memalloc.Heap.Count.{
  count, count-append, count-take-drop, has_of_count, count_of_has, Distinct-of_count,
}
use pool_memalloc.Heap.Last.{last, has-last, last-ne-null, Chain-append}
use pool_memalloc.Freelist.Stack.{Kept, IsStack}
use pool_memalloc.Freelist.Bulk.{asked, pop_bulk_lem, Apart}
use pool_memalloc.Stats.{Build, alloc_stat, add_refill}
use pool_memalloc.Cache.{ThreadCache, refill_rest, refill}
use pool_memalloc.Cache.Spec.{Pools, pools, refill_spec}
use pool_memalloc.Cache.Valid.{IsCache, last_block-last}

-- The world but for the running thread's own statistics.
pub record SameMemory (w w' : World) : Type 0 where
  pub next_eq : w'.next ≡ w.next
  pub heads_eq : w'.heads ≡ w.heads
  pub weak_eq : w'.weak ≡ w.weak

pub alloc_stat-SameMemory :
    (b : Build) (f : AllocStats → AllocStats) (w : World)
    → Returns (λ _ w'. SameMemory w w') (alloc_stat b f w)
unfolding alloc_stat
alloc_stat-SameMemory b f w = returns (ground arith)

-- What a call of the cache may change: the links of the blocks it owns, and its own freelist.
pub record Step (f : ℕ) (blocks : Ptr → ℕ) (w w' : World) : Type 0 where
  pub others : (g : ℕ) → g ≢ f → w'.heads g ≡ w.heads g
  pub fewer : length w'.weak ≤ length w.weak
  pub same : (a : Ptr) → blocks a ≡ 0 → w'.next a ≡ w.next a

abbrev pub owned : Pools → Ptr → ℕ
owned p a = count a p.global + count a p.local

-- The cache after a call, with the lists `q`, and what the call left alone.
pub record Moved (p q : Pools) (w : World) (c' : ThreadCache) (w' : World) (c : ThreadCache)
    : Type 0 where
  pub cache : IsCache w' c' q
  pub step : Step c.global (owned p) w w'
  pub batch_eq : c'.batch_size ≡ c.batch_size
  pub global_eq : c'.global ≡ c.global

pub IsStack-SameMemory :
    {f : ℕ} {xs : List Ptr} {w w' : World} → SameMemory w w' → IsStack w f xs → IsStack w' f xs
IsStack-SameMemory {f} {xs} {w} {w'} m is = record {
  chain = subst₂ (λ n h. Chain n (h f).ptr xs) (sym m.next_eq) (sym m.heads_eq) is.chain;
  distinct = is.distinct;
}

pub Apart-of_once : (xs ys : List Ptr) → ((a : Ptr) → count a xs + count a ys ≤ 1) → Apart xs ys
Apart-of_once xs ys once a i = has_of_count a ys (omega (arith, once a, count_of_has a xs i))

-- The lists of a cache whose freelist has given up the batch `bs` and kept `rs`.
record Split (c : ThreadCache) (p : Pools) (bs rs : List Ptr) : Type 0 where
  counts : (a : Ptr) → count a bs + count a rs ≡ count a p.global
  lengths : length bs + length rs ≡ length p.global

module _ (b : Build) (rounds : ℕ) (c : ThreadCache) (p : Pools) (w w1 : World)
    (is : IsCache w c p) where
  -- The last block `x` of the batch now points at the old local list.
  refill-joined :
      (x : Ptr) (xs rs : List Ptr) (w3 : World)
      → Split c p (x ∷ xs) rs
      → x ≢ null
      → Chain w1.next (w1.next x) xs
      → IsStack w1 c.global rs
      → Kept c.global w w1
      → SameOutside (x ∷ xs) w.next w1.next
      → SameMemory (record w1 { next = update w1.next (last x xs) c.local_head }) w3
      → Moved p
          (pools rs ((x ∷ xs) ++ p.local))
          w
          (record c { local_head = x; local_size = u64 (c.local_size + (1 + length xs)) })
          w3
          c
  refill-joined x xs rs w3 sp ne ch st k same m = record {
    cache = record {
      stack = IsStack-SameMemory m (record {
        chain =
            Chain-update w1.next (w1.heads c.global).ptr (last x xs) c.local_head rs
              (tail-apart-rs (last x xs) (has-last x xs)) st.chain;
        distinct = st.distinct;
      });
      chain =
          subst (λ n. Chain n x ((x ∷ xs) ++ p.local)) (sym m.next_eq)
            (Chain-append w1.next c.local_head x xs p.local (refl, ne, ch) batch-distinct old
              apart);
      size = omega (arith, is.size, is.bounded, sp.lengths, length-append {0} xs p.local);
      once = λ a. omega (arith, is.once a, sp.counts a, count-append a (x ∷ xs) p.local);
      bounded = omega (arith, is.bounded, sp.lengths, length-append {0} xs p.local);
      batch = is.batch;
      low = is.low;
      high = is.high;
    };
    step = record {
      others = λ g e. ap (λ h. h g) m.heads_eq ∙ k.others g e;
      fewer = omega (arith, k.fewer, ap length m.weak_eq);
      same = λ a o.
          ap (λ n. n a) m.next_eq
          ∙ update_ne w1.next (last x xs) a c.local_head
              (λ e. ground (arith, free a o, has-last x xs, ap (λ (t : Ptr). has t (x ∷ xs)) e))
          ∙ same a (free a o);
    };
    batch_eq = refl;
    global_eq = refl;
  }
    where
      free : (a : Ptr) → owned p a ≡ 0 → has a (x ∷ xs) ≡ false
      free a o = has_of_count a (x ∷ xs) (omega (arith, sp.counts a))

      tail-apart-rs : Apart (x ∷ xs) rs
      tail-apart-rs = Apart-of_once (x ∷ xs) rs (λ a. omega (arith, sp.counts a, is.once a))

      batch-distinct : Distinct (x ∷ xs)
      batch-distinct = Distinct-of_count (x ∷ xs) (λ a. omega (arith, sp.counts a, is.once a))

      apart : Apart (x ∷ xs) p.local
      apart = Apart-of_once (x ∷ xs) p.local (λ a. omega (arith, sp.counts a, is.once a))

      old : Chain w1.next c.local_head p.local
      old =
          Chain-outside w.next w1.next c.local_head p.local (x ∷ xs) same
            (Apart-of_once p.local (x ∷ xs) (λ a. omega (arith, sp.counts a, is.once a))) is.chain

  -- `refill` behind `pop_bulk`, which has returned `start`.
  refill-batch :
      (start : Ptr) (bs rs : List Ptr)
      → Split c p bs rs
      → length bs < suc rounds
      → Chain w1.next start bs
      → IsStack w1 c.global rs
      → Kept c.global w w1
      → SameOutside bs w.next w1.next
      → Returns
          (λ c' w'. Moved p (pools rs (bs ++ p.local)) w c' w' c)
          (refill_rest b rounds c start w1)
  unfolding refill_rest
  refill-batch start [] rs sp r ch st k same = rw ch (
      returns (record {
        cache = record {
          stack = st;
          chain = Chain-frame w.next w1.next c.local_head p.local (λ a h. same a refl) is.chain;
          size = is.size;
          once = λ a. omega (arith, is.once a, sp.counts a);
          bounded = omega (arith, is.bounded, sp.lengths);
          batch = is.batch;
          low = is.low;
          high = is.high;
        };
        step = record { others = k.others; fewer = k.fewer; same = λ a o. same a refl };
        batch_eq = refl;
        global_eq = refl;
      }))
  refill-batch start (x ∷ xs) rs sp r (at, ne, ch) st k same =
      rw
        (
          at,
          not_null x ne,
          last_block-last rounds x xs 1 w1 (omega arith) (omega (arith, is.bounded, sp.lengths))
              (refl, ne, ch),
          set_next-ok (last x xs) c.local_head w1 (last-ne-null w1.next x xs (refl, ne, ch)),
        )
        (Returns.bind (alloc_stat-SameMemory b (add_refill (1 + length xs)) w2)
          λ _ w3 m. returns (refill-joined x xs rs w3 sp ne ch st k same m))
    where
      w2 : World
      w2 = record w1 { next = update w1.next (last x xs) c.local_head }

module _ (b : Build) (rounds fuel : ℕ) (c : ThreadCache) (w : World)
    (enough : length w.weak < fuel) where
  -- `refill`, total: the first `batch_size` blocks of the freelist, or as many as there are, come in
  -- front of the thread's own.
  pub refill-Moved :
      (p : Pools)
      → IsCache w c p
      → length p.global < rounds
      → Returns (λ c' w'. Moved p (refill_spec c.batch_size p) w c' w' c) (refill b rounds fuel c w)
  unfolding refill
  refill-Moved p is r =
      Returns.bind (pop_bulk_lem fuel c.global c.batch_size p.global w enough is.stack)
        λ start w1 d.
          refill-batch b rounds c p w w1 is start (take (asked c.batch_size) p.global)
            (drop (asked c.batch_size) p.global)
            (record {
              counts = λ a. count-take-drop a (asked c.batch_size) p.global;
              lengths = lengths;
            })
            (omega (arith, lengths)) d.batch d.rest d.kept d.same
    where
      lengths :
          length (take (asked c.batch_size) p.global) + length (drop (asked c.batch_size) p.global)
          ≡ length p.global
      lengths = omega (
        arith,
        length-take {0} (asked c.batch_size) p.global,
        length-drop {0} (asked c.batch_size) p.global,
      )
