-- ===== src/Cache/Builds.antt =====
-- Neither the macros of include/alloc_stats.hpp nor the fuel change what the thread cache does.
use pool_memalloc.Common.{
  ℕ, zero, suc, arith, ◌≤◌, ◌+◌, ◌≡◌, refl, true, false, ltb, leb, ◌==◌, ◌||◌, Bool-cases, inl, inr,
}
use pool_memalloc.Common.Words.{u64, sub64}
use pool_memalloc.Heap.{Ptr, null, World, AllocStats, ThreadStats, ok, Cmd, ◌>>=◌}
use pool_memalloc.Heap.Chain.{has}
use pool_memalloc.Heap.Alike.{
  Alike, Blind, pure-Blind, stop-Blind, bind-Blind, if-Blind, load_next-Blind, set_next-Blind,
}
use pool_memalloc.Freelist.Blind.{push_bulk-Blind, pop_bulk-Blind}
use pool_memalloc.Stats.{
  Build, alloc_stat, alloc_debug_on_alloc, alloc_debug_on_dealloc, inc_allocs, inc_deallocs,
  add_refill, add_flush,
}
use pool_memalloc.Cache.{
  ThreadCache, last_block, refill_rest, refill, batch_end, flush, take_block, alloc, dealloc,
}

-- A command that changes the thread's own state alone.
record Local {A : Type 0} (m : Cmd A) : Type 0 where
  at : (w : World) → (t : ThreadStats) × (a : A) × (m w ≡ ok a (record w { local = t }))

-- Two such commands, whose results nobody reads, do not tell the rest apart.
Local-Blind :
    {A B : Type 0} {m n : Cmd A} {k l : Cmd B}
    → Local m
    → Local n
    → Blind k l
    → Blind (m >>= λ _. k) (n >>= λ _. l)
Local-Blind {m} {n} {k} {l} one two rest = record {
  run = λ w t.
      let (t1, a1, e1) = one.at w in
      let (t2, a2, e2) = two.at (record w { local = t }) in
      rw (e1, e2) (rest.run (record w { local = t1 }) t2);
}

alloc_stat-Local : (b : Build) (f : AllocStats → AllocStats) → Local (alloc_stat b f)
unfolding alloc_stat
alloc_stat-Local b f = record {
  at = λ w. elim (Bool-cases b.instrumentation) [
    | inl on ↦ rw on (_, tt, refl)
    | inr off ↦ rw off (w.local, tt, refl)
  ];
}

on_alloc-Local : (b : Build) (p : Ptr) → Local (alloc_debug_on_alloc b p)
unfolding alloc_debug_on_alloc
on_alloc-Local b p = record {
  at = λ w. elim (Bool-cases b.debug) [
    | inl on ↦ elim (Bool-cases (p == null)) [
      | inl nil ↦ rw (on, nil) (w.local, tt, refl)
      | inr real ↦ rw (on, real) (_, tt, refl)
    ]
    | inr off ↦ rw off (w.local, tt, refl)
  ];
}

on_dealloc-Local : (b : Build) (p : Ptr) → Local (alloc_debug_on_dealloc b p)
unfolding alloc_debug_on_dealloc
on_dealloc-Local b p = record {
  at = λ w. elim (Bool-cases b.debug) [
    | inl on ↦ elim (Bool-cases (p == null)) [
      | inl nil ↦ rw (on, nil) (_, false, refl)
      | inr real ↦ elim (Bool-cases (has p w.local.live)) [
        | inl live ↦ rw (on, real, live) (_, true, refl)
        | inr dead ↦ rw (on, real, dead) (_, false, refl)
      ]
    ]
    | inr off ↦ rw off (w.local, true, refl)
  ];
}

last_block-Blind :
    (rounds rounds' : ℕ) (tail : Ptr) (count : ℕ)
    → rounds ≤ rounds'
    → Blind (last_block rounds tail count) (last_block rounds' tail count)
unfolding last_block
last_block-Blind zero rounds' tail count l = stop-Blind
last_block-Blind (suc rounds) zero tail count l = absurd (omega arith)
last_block-Blind (suc rounds) (suc rounds') tail count l = bind-Blind (load_next-Blind tail) λ next.
    if-Blind (next == null) (pure-Blind (tail, count))
      (last_block-Blind rounds rounds' next (u64 (count + 1)) (omega arith))

batch_end-Blind :
    (rounds rounds' excess : ℕ) (batch_tail : Ptr) (count : ℕ)
    → rounds ≤ rounds'
    → Blind (batch_end rounds excess batch_tail count) (batch_end rounds' excess batch_tail count)
unfolding batch_end
batch_end-Blind zero rounds' excess batch_tail count l = stop-Blind
batch_end-Blind (suc rounds) zero excess batch_tail count l = absurd (omega arith)
batch_end-Blind (suc rounds) (suc rounds') excess batch_tail count l =
    if-Blind (ltb count excess)
      (bind-Blind (load_next-Blind batch_tail) λ next.
        if-Blind (next == null) (pure-Blind (batch_tail, count))
          (batch_end-Blind rounds rounds' excess next (u64 (count + 1)) (omega arith)))
      (pure-Blind (batch_tail, count))

-- Two builds, and fuel for the first and at least as much for the second.
module _ (b b' : Build) {rounds rounds' fuel fuel' : ℕ} (l : rounds ≤ rounds')
    (h : fuel ≤ fuel') where
  refill-Blind : (c : ThreadCache) → Blind (refill b rounds fuel c) (refill b' rounds' fuel' c)
  unfolding refill refill_rest
  refill-Blind c = bind-Blind (pop_bulk-Blind h c.global c.batch_size) λ batch.
      if-Blind (batch == null) (pure-Blind c) (
        bind-Blind (last_block-Blind rounds rounds' batch 1 l) λ (tail, count).
          bind-Blind (set_next-Blind tail c.local_head) λ _.
            Local-Blind (alloc_stat-Local b (add_refill count))
              (alloc_stat-Local b' (add_refill count))
              (pure-Blind
                (record c { local_head = batch; local_size = u64 (c.local_size + count) })))

  flush-Blind :
      (excess : ℕ) (c : ThreadCache)
      → Blind (flush b rounds fuel excess c) (flush b' rounds' fuel' excess c)
  unfolding flush
  flush-Blind excess c = if-Blind ((c.local_head == null) || (excess == 0)) (pure-Blind c) (
      bind-Blind (batch_end-Blind rounds rounds' excess c.local_head 1 l) λ (batch_tail, count).
        bind-Blind (load_next-Blind batch_tail) λ rest.
          bind-Blind (set_next-Blind batch_tail null) λ _.
            bind-Blind (push_bulk-Blind h c.global c.local_head batch_tail l) λ _.
              Local-Blind (alloc_stat-Local b (add_flush count))
                (alloc_stat-Local b' (add_flush count))
                (pure-Blind
                  (record c { local_head = rest; local_size = sub64 c.local_size count })))

  take_block-Blind : (c : ThreadCache) → Blind (take_block b c) (take_block b' c)
  unfolding take_block
  take_block-Blind c = if-Blind (c.local_head == null) (pure-Blind (null, c)) (
      bind-Blind (load_next-Blind c.local_head) λ next.
        Local-Blind (alloc_stat-Local b inc_allocs) (alloc_stat-Local b' inc_allocs) (
          Local-Blind (on_alloc-Local b c.local_head) (on_alloc-Local b' c.local_head) (
            pure-Blind
              (c.local_head, record c { local_head = next; local_size = sub64 c.local_size 1 }))))

  alloc-Blind : (c : ThreadCache) → Blind (alloc b rounds fuel c) (alloc b' rounds' fuel' c)
  unfolding alloc
  alloc-Blind c =
      if-Blind (leb c.local_size c.low_watermark)
        (bind-Blind (refill-Blind c) λ c'. take_block-Blind c') (take_block-Blind c)

  dealloc-Blind :
      (c : ThreadCache) (ptr : Ptr)
      → Blind (dealloc b rounds fuel c ptr) (dealloc b' rounds' fuel' c ptr)
  unfolding dealloc
  dealloc-Blind c ptr =
      let c' : ThreadCache = record c { local_head = ptr; local_size = u64 (c.local_size + 1) } in
      if-Blind (ptr == null) (pure-Blind c) (
        Local-Blind (alloc_stat-Local b inc_deallocs) (alloc_stat-Local b' inc_deallocs) (
          Local-Blind (on_dealloc-Local b ptr) (on_dealloc-Local b' ptr) (
            bind-Blind (set_next-Blind ptr c.local_head) λ _.
              if-Blind (ltb c'.high_watermark c'.local_size)
                (flush-Blind (sub64 c'.local_size c'.batch_size) c') (pure-Blind c'))))

  -- In every build, whatever the thread's counters and its set of live pointers hold, and with as much
  -- fuel or more, a call that does not run out of fuel does the same to memory and to the cache and
  -- returns the same, faults included; a pointer that the check reports is put into the cache all the
  -- same.
  pub calls-Alike :
      (c : ThreadCache) (ptr : Ptr) (w : World) (t : ThreadStats)
      → Alike (alloc b rounds fuel c w) (alloc b' rounds' fuel' c (record w { local = t }))
        × Alike
            (dealloc b rounds fuel c ptr w)
            (dealloc b' rounds' fuel' c ptr (record w { local = t }))
  calls-Alike c ptr w t = ((alloc-Blind c).run w t, (dealloc-Blind c ptr).run w t)
