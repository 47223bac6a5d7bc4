-- ===== src/Bench/Workers.antt =====
-- The loops of the workers over any allocator that keeps the contract: which blocks they have, and
-- touch.
use pool_memalloc.Common.{
  ℕ, zero, suc, ◌+◌, ◌≤◌, ◌≡◌, ◌≢◌, refl, ap, Bool, true, false, inl, inr, Option, some, List, [],
  ◌∷◌, ◌++◌, leb, ◌==◌, if◌then◌else◌, arith, length, Bool-cases,
}
use pool_memalloc.Heap.{Ptr, null}
use pool_memalloc.Heap.Count.{count, count-append}
use pool_memalloc.Bench.{
  Worker, fresh_worker, Access, fill, bump, random_size, give_all, give_back, take, burst_pass,
  burst_loop, fill_loop, storm_loop,
}
use pool_memalloc.Bench.Contract.{Contract}

module _ {S : Type 0} {allocate : S → Option (S × Ptr)} {release : S → Ptr → Option S}
    {touch : S → Access → Option S} (c : Contract allocate release touch) (m0 : Ptr → ℕ)
    (once : (x : Ptr) → m0 x ≤ 1) where
  abbrev pub AllOwn : List Ptr → Type 0
  AllOwn [] = Unit
  AllOwn (p ∷ ps) = c.Own p × (p ≢ null) × AllOwn ps

  -- Every access is to a block that was free at the start.
  abbrev pub Inside : List Access → Type 0
  Inside [] = Unit
  Inside (fill p byte n ∷ rest) = (m0 p ≡ 1) × Inside rest
  Inside (bump p ∷ rest) = (m0 p ≡ 1) × Inside rest

  -- Between two passes: the blocks in the vector and the free ones are those of the start.
  pub record IsWorking (w : Worker S) : Type 0 where
    pub free : Ptr → ℕ
    pub state : c.Free w.state free
    pub counts : (x : Ptr) → free x + count x w.ptrs ≡ m0 x
    pub own : AllOwn w.ptrs
    pub inside : Inside w.accesses

  -- At the end: the free blocks are those of the start.
  pub record IsFinished (w : Worker S) : Type 0 where
    pub free : Ptr → ℕ
    pub state : c.Free w.state free
    pub same : (x : Ptr) → free x ≡ m0 x
    pub none_kept : w.ptrs ≡ []
    pub inside : Inside w.accesses

  AllOwn-append :
      (ps : List Ptr) (p : Ptr) → AllOwn ps → c.Own p → p ≢ null → AllOwn (ps ++ (p ∷ []))
  AllOwn-append [] p all o ne = (o, ne, tt)
  AllOwn-append (q ∷ ps) p (o', ne', all) o ne = (o', ne', AllOwn-append ps p all o ne)

  pub Own-count : (ps : List Ptr) → AllOwn ps → (x : Ptr) → 1 ≤ count x ps → c.Own x × (x ≢ null)
  Own-count [] all x h = absurd (omega arith)
  Own-count (p ∷ ps) (o, ne, all) x h = elim (Bool-cases (x == p)) [
    | inl here ↦ let e : x ≡ p = ground (arith, here) in rw e (o, ne)
    | inr other ↦ Own-count ps all x (ground (arith, h, other))
  ]

  give_all-law :
      (ps : List Ptr) (s : S) (m : Ptr → ℕ)
      → c.Free s m
      → AllOwn ps
      → ((x : Ptr) → m x + count x ps ≡ m0 x)
      → (s' : S) × (give_all allocate release touch ps s ≡ some s')
        × ((m' : Ptr → ℕ) × c.Free s' m' × ((x : Ptr) → m' x ≡ m0 x))
  unfolding give_all
  give_all-law [] s m f all counts = (s, refl, (m, f, λ x. omega (arith, counts x)))
  give_all-law (p ∷ ps) s m f (o, ne, all) counts =
      let (s1, e, (m1, f1, up)) = c.release_law s m p f o ne (ground (arith, counts p, once p)) in
      let (s2, e2, rest) = give_all-law ps s1 m1 f1 all (λ x. omega (arith, up x, counts x)) in
      (s2, rw (give_all, e) e2, rest)

  pub give_back-IsFinished :
      (w : Worker S)
      → IsWorking w
      → (w' : Worker S) × (give_back allocate release touch w ≡ some w') × IsFinished w'
  give_back-IsFinished w is =
      let (s, e, (m, f, same)) = give_all-law w.ptrs w.state is.free is.state is.own is.counts in
      (
        record w { state = s; ptrs = [] },
        rw (give_back, e) refl,
        record { free = m; state = f; same = same; none_kept = refl; inside = is.inside },
      )

  take-IsWorking :
      (byte n : ℕ) (w : Worker S)
      → n ≤ c.room
      → IsWorking w
      → (w' : Worker S) × (b : Bool) × (take allocate release touch byte n w ≡ some (w', b))
        × IsWorking w'
  unfolding take
  take-IsWorking byte n w fits is =
      let (s, p, e, out) = c.allocate_law w.state is.free is.state in
      elim out [
        | inl (nil, f) ↦ (
          record w { state = s },
          false,
          rw (take, e, nil) refl,
          record {
            free = is.free;
            state = f;
            counts = is.counts;
            own = is.own;
            inside = is.inside;
          },
        )
        | inr (ne, o, (m, f, down)) ↦
            let real : (p == null) ≡ false = ground arith in
            let (s1, e1, f1) =
              c.touch_law s m (fill p byte n) f o (ground (arith, down p, is.counts p, once p))
                fits in
            (
              record {
                state = s1;
                ptrs = w.ptrs ++ (p ∷ []);
                accesses = fill p byte n ∷ w.accesses;
              },
              true,
              rw (take, e, real, e1) refl,
              record {
                free = m;
                state = f1;
                counts = λ x. omega (arith, down x, is.counts x, count-append x w.ptrs (p ∷ []));
                own = AllOwn-append w.ptrs p is.own o ne;
                inside = (ground (arith, down p, is.counts p, once p), is.inside);
              },
            )
      ]

  pub start-IsWorking : (s : S) → c.Free s m0 → IsWorking (fresh_worker s)
  start-IsWorking s f = record {
    free = m0;
    state = f;
    counts = λ x. omega arith;
    own = tt;
    inside = tt;
  }

  -- A finished worker works on with an empty vector.
  resume : (w : Worker S) → IsFinished w → IsWorking w
  resume w done = record {
    free = done.free;
    state = done.state;
    counts = λ x. omega (arith, done.same x, ap (count x) done.none_kept);
    own = rw done.none_kept tt;
    inside = done.inside;
  }

  burst_pass-IsWorking :
      (size batch : ℕ) (w : Worker S)
      → size ≤ c.room
      → IsWorking w
      → (w' : Worker S) × (burst_pass allocate release touch size batch w ≡ some w') × IsWorking w'
  unfolding burst_pass
  burst_pass-IsWorking size batch w fits is =
      let (w1, b, e, is1) = take-IsWorking 171 size w fits is in
      elim (Bool-cases b) [
        | inr skipped ↦ (w1, rw (burst_pass, e, skipped) refl, is1)
        | inl took ↦ elim (Bool-cases (leb batch (length w1.ptrs))) [
          | inr more ↦ (w1, rw (burst_pass, e, took, more) refl, is1)
          | inl full_ ↦
              let (w2, e2, done) = give_back-IsFinished w1 is1 in
              (w2, rw (burst_pass, e, took, full_) e2, resume w2 done)
        ]
      ]

  pub burst_loop-IsWorking :
      (size batch rounds : ℕ) (w : Worker S)
      → size ≤ c.room
      → IsWorking w
      → (w' : Worker S) × (burst_loop allocate release touch size batch rounds w ≡ some w')
        × IsWorking w'
  unfolding burst_loop
  burst_loop-IsWorking size batch zero w fits is = (w, refl, is)
  burst_loop-IsWorking size batch (suc rounds) w fits is =
      let (w1, e, is1) = burst_pass-IsWorking size batch w fits is in
      let (w2, e2, is2) = burst_loop-IsWorking size batch rounds w1 fits is1 in
      (w2, rw (burst_loop, e) e2, is2)

  pub fill_loop-IsWorking :
      (size rounds : ℕ) (w : Worker S)
      → size ≤ c.room
      → IsWorking w
      → (w' : Worker S) × (fill_loop allocate release touch size rounds w ≡ some w') × IsWorking w'
  unfolding fill_loop
  fill_loop-IsWorking size zero w fits is = (w, refl, is)
  fill_loop-IsWorking size (suc rounds) w fits is =
      let (w1, b, e, is1) = take-IsWorking 0 size w fits is in
      let (w2, e2, is2) = fill_loop-IsWorking size rounds w1 fits is1 in
      (w2, rw (fill_loop, e) e2, is2)

  pub storm_loop-IsWorking :
      (draw : ℕ → ℕ) (byte rounds drawn : ℕ) (w : Worker S)
      → ((k : ℕ) → random_size (draw k) ≤ c.room)
      → IsWorking w
      → (w' : Worker S) × (storm_loop allocate release touch draw byte rounds drawn w ≡ some w')
        × IsWorking w'
  unfolding storm_loop
  storm_loop-IsWorking draw byte zero drawn w fits is = (w, refl, is)
  storm_loop-IsWorking draw byte (suc rounds) drawn w fits is =
      let (w1, b, e, is1) = take-IsWorking byte (random_size (draw drawn)) w (fits drawn) is in
      let (w2, e2, is2) =
        storm_loop-IsWorking draw byte rounds (if b then drawn + 1 else drawn) w1 fits is1 in
      (w2, rw (storm_loop, e) e2, is2)
