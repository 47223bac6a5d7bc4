-- ===== src/Cache/Ledger.antt =====
-- The counters of include/alloc_stats.hpp against the blocks that the thread cache holds.
use mathlib.Core.Path.{subst}
use pool_memalloc.Common.{
  ℕ, ◌+◌, ◌^◌, ◌<◌, ◌≡◌, ◌≢◌, refl, sym, ◌∙◌, true, ltb, leb, ◌==◌, ◌||◌, Bool-cases, inl, inr,
  arith, length,
}
use pool_memalloc.Common.Words.{u64, sub64}
use pool_memalloc.Heap.{Ptr, null, World, AllocStats, ThreadStats}
use pool_memalloc.Heap.Chain.{has}
use pool_memalloc.Heap.Returns.{Returns}
use pool_memalloc.Heap.Ends
use pool_memalloc.Heap.Ends.{
  Ends, ended, cut_off, either, both, Returns-Ends, IsQuiet, pure-IsQuiet, stop-IsQuiet,
  bind-IsQuiet, if-IsQuiet, load_next-IsQuiet, set_next-IsQuiet,
}
use pool_memalloc.Freelist.Quiet.{push_bulk-IsQuiet, pop_bulk-IsQuiet}
use pool_memalloc.Stats.{
  Build, alloc_stat, alloc_debug_on_alloc, alloc_debug_on_dealloc, inc_allocs, inc_deallocs,
  add_refill, add_flush,
}
use pool_memalloc.Cache.{ThreadCache, refill_rest, refill, flush, take_block, alloc, dealloc}
use pool_memalloc.Cache.Spec.{Pools}
use pool_memalloc.Cache.Valid.{IsCache}
use pool_memalloc.Cache.Refill.{owned}
use pool_memalloc.Cache.Calls.{alloc-refines, dealloc-refines}
use pool_memalloc.Cache.Walks.{after, last_block-IsQuiet, batch_end-IsQuiet, batch_end-count}

-- What came into the cache is what left it and what is there, as `size_t` counts: `size` blocks.
abbrev pub Balances : (size : ℕ) → AllocStats → Type 0
Balances size s = u64 (s.deallocs + s.refill_blocks) ≡ u64 (size + s.allocs + s.flush_blocks)

abbrev pub Balanced : ThreadCache → World → Type 0
Balanced c w = Balances c.local_size w.local.stats

module _ (size : ℕ) (s : AllocStats) (bal : Balances size s) where
  refilled : (n : ℕ) → Balances (u64 (size + n)) (add_refill n s)
  refilled n = omega (arith, bal)

  flushed : (n : ℕ) → n < 2 ^ 64 → Balances (sub64 size n) (add_flush n s)
  flushed n h = omega (arith, bal)

  taken : Balances (sub64 size 1) (inc_allocs s)
  taken = omega (arith, bal)

  given : Balances (u64 (size + 1)) (inc_deallocs s)
  given = omega (arith, bal)

moved : (size : ℕ) {t t' : ThreadStats} → t' ≡ t → Balances size t.stats → Balances size t'.stats
moved size e bal = subst (λ (t : ThreadStats). Balances size t.stats) (sym e) bal

-- The same where only the counters are known to agree.
counts : (size : ℕ) {s s' : AllocStats} → s' ≡ s → Balances size s → Balances size s'
counts size e bal = subst (Balances size) (sym e) bal

module _ (b : Build) (on : b.instrumentation ≡ true) where
  counted :
      (f : AllocStats → AllocStats) (w : World)
      → Ends (λ _ w'. w'.local.stats ≡ f w.local.stats) (alloc_stat b f w)
  unfolding alloc_stat
  counted f w = rw on (ended refl)

  on_alloc-kept :
      (p : Ptr) (w : World)
      → Ends (λ _ w'. w'.local.stats ≡ w.local.stats) (alloc_debug_on_alloc b p w)
  unfolding alloc_debug_on_alloc
  on_alloc-kept p w = ended (ground arith)

  on_dealloc-kept :
      (p : Ptr) (w : World)
      → Ends (λ _ w'. w'.local.stats ≡ w.local.stats) (alloc_debug_on_dealloc b p w)
  unfolding alloc_debug_on_dealloc
  on_dealloc-kept p w = elim (Bool-cases b.debug) [
    | inr off ↦ rw off (ended refl)
    | inl debug ↦ elim (Bool-cases (p == null)) [
      | inl nothing ↦ rw (debug, nothing) (ended refl)
      | inr some_ ↦ elim (Bool-cases (has p w.local.live)) [
        | inl live ↦ rw (debug, some_, live) (ended refl)
        | inr dead ↦ rw (debug, some_, dead) (ended refl)
      ]
    ]
  ]

  refill-Balanced :
      (rounds fuel : ℕ) (c : ThreadCache) (w : World)
      → Balanced c w
      → Ends Balanced (refill b rounds fuel c w)
  unfolding refill refill_rest
  refill-Balanced rounds fuel c w bal =
      after (pop_bulk-IsQuiet c.global fuel c.batch_size) w λ batch w1 e1.
        either _ _ w1 (batch == null) (λ _. ended (moved c.local_size e1 bal))
          λ _. after (last_block-IsQuiet rounds batch 1) w1 λ (tail, count) w2 e2.
            after (set_next-IsQuiet tail c.local_head) w2 λ _ w3 e3.
              Ends.bind (counted (add_refill count) w3) λ _ w4 e4. ended (
                counts (u64 (c.local_size + count)) e4 (
                  refilled c.local_size w3.local.stats (moved c.local_size (e3 ∙ e2 ∙ e1) bal)
                    count))

  flush-Balanced :
      (rounds fuel excess : ℕ) (c : ThreadCache) (w : World)
      → Balanced c w
      → Ends Balanced (flush b rounds fuel excess c w)
  unfolding flush
  flush-Balanced rounds fuel excess c w bal =
      either _ _ w ((c.local_head == null) || (excess == 0)) (λ _. ended bal)
        λ _.
          Ends.bind
            (both ((batch_end-IsQuiet rounds excess c.local_head 1).run w)
              (batch_end-count rounds excess c.local_head 1 w (omega arith)))
            λ (batch_tail, count) w1 (e1, h). after (load_next-IsQuiet batch_tail) w1 λ rest w2 e2.
              after (set_next-IsQuiet batch_tail null) w2 λ _ w3 e3.
                after (push_bulk-IsQuiet c.global rounds fuel c.local_head batch_tail) w3 λ _ w4 e4.
                  Ends.bind (counted (add_flush count) w4) λ _ w5 e5. ended (
                    counts (sub64 c.local_size count) e5 (
                      flushed c.local_size w4.local.stats
                        (moved c.local_size (e4 ∙ e3 ∙ e2 ∙ e1) bal) count h))

  take_block-Balanced :
      (c : ThreadCache) (w : World)
      → Balanced c w
      → Ends (λ out w'. Balanced out.1 w') (take_block b c w)
  unfolding take_block
  take_block-Balanced c w bal =
      either _ _ w (c.local_head == null) (λ _. ended bal)
        λ _. after (load_next-IsQuiet c.local_head) w λ next w1 e1.
          Ends.bind (counted inc_allocs w1) λ _ w2 e2.
            Ends.bind (on_alloc-kept c.local_head w2) λ _ w3 e3. ended (
              counts (sub64 c.local_size 1) (e3 ∙ e2)
                (taken c.local_size w1.local.stats (moved c.local_size e1 bal)))

  alloc-Balanced :
      (rounds fuel : ℕ) (c : ThreadCache) (w : World)
      → Balanced c w
      → Ends (λ out w'. Balanced out.1 w') (alloc b rounds fuel c w)
  unfolding alloc
  alloc-Balanced rounds fuel c w bal =
      either _ _ w (leb c.local_size c.low_watermark)
        (λ _. Ends.bind (refill-Balanced rounds fuel c w bal) λ c1 w1. take_block-Balanced c1 w1)
        λ _. take_block-Balanced c w bal

  dealloc-Balanced :
      (rounds fuel : ℕ) (c : ThreadCache) (ptr : Ptr) (w : World)
      → Balanced c w
      → Ends Balanced (dealloc b rounds fuel c ptr w)
  unfolding dealloc
  dealloc-Balanced rounds fuel c ptr w bal =
      let c' : ThreadCache = record c { local_head = ptr; local_size = u64 (c.local_size + 1) } in
      either _ _ w (ptr == null) (λ _. ended bal)
        λ _. Ends.bind (counted inc_deallocs w) λ _ w1 e1.
          Ends.bind (on_dealloc-kept ptr w1) λ _ w2 e2.
            after (set_next-IsQuiet ptr c.local_head) w2 λ _ w3 e3.
              let bal3 : Balanced c' w3 =
                moved c'.local_size e3
                  (counts c'.local_size (e2 ∙ e1) (given c.local_size w.local.stats bal)) in
              either _ _ w3 (ltb c'.high_watermark c'.local_size)
                (λ _. flush-Balanced rounds fuel (sub64 c'.local_size c'.batch_size) c' w3 bal3)
                λ _. ended bal3

  -- With the counters switched on, `alloc` and `dealloc`, both total, of a block that neither list
  -- holds keep the books: blocks given back and blocks from refills are, as `size_t` counts, blocks
  -- handed out, blocks flushed and blocks in the cache.
  pub calls-Balanced :
      {c : ThreadCache} {w : World} {p : Pools} {rounds fuel : ℕ} (ptr : Ptr)
      → IsCache w c p
      → Balanced c w
      → length w.weak < fuel
      → length p.global < rounds
      → length p.local + 1 < rounds
      → ptr ≢ null
      → owned p ptr ≡ 0
      → length p.global + length p.local + 1 < 2 ^ 63
      → Returns (λ out w'. Balanced out.1 w') (alloc b rounds fuel c w)
        × Returns Balanced (dealloc b rounds fuel c ptr w)
  calls-Balanced {c} {w} {p} {rounds} {fuel} ptr is bal f r r' ne fresh small = (
    Returns-Ends (alloc-refines b rounds fuel c w f p is r) (alloc-Balanced rounds fuel c w bal),
    Returns-Ends (dealloc-refines b rounds fuel c w f p ptr is r' ne fresh small)
        (dealloc-Balanced rounds fuel c ptr w bal),
  )
