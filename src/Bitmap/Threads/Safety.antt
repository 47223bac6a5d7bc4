-- ===== src/Bitmap/Threads/Safety.antt =====
-- The reachable states of `alloc` and `dealloc` of src/bitmap_allocator.cpp in several threads.
use pool_memalloc.Common.{
  ℕ, ◌≤◌, ◌<◌, ◌≡◌, refl, sym, ap, ◌∙◌, true, false, arith, Bool-cases, inl, inr,
}
use pool_memalloc.Common.Family.{le-total, total-zero}
use pool_memalloc.Bitmap.{Ptr, BitmapAllocator}
use pool_memalloc.Bitmap.Valid.{allocated, allocated_in, IsValid}
use pool_memalloc.Bitmap.Dealloc.{address, address-inj}
use pool_memalloc.Bitmap.Threads.{idle, System, Step, pick, start, Reach, here, later}
use pool_memalloc.Bitmap.Threads.Invariant.{bit, owns, holders, IsBlock, IsSound}
use pool_memalloc.Bitmap.Threads.Moves.{Move-Sound}

-- The members as the threads have left them.
abbrev pub view : BitmapAllocator → System → BitmapAllocator
view a s = record a { bitmap = s.mem.bitmap; hint = s.mem.hint }

module _ {a : BitmapAllocator} (v : IsValid a) (free : (j : ℕ) → allocated a j ≡ false)
    {n : ℕ} where
  start-IsSound : IsSound a n (start a)
  start-IsSound = record {
    sized = v.sized;
    words = v.words;
    hinted = v.hinted;
    once = λ j. ground (arith, free j, total-zero (owns a j) n (λ i. idle) (λ i h. refl));
    known = λ p e. absurd (ground (arith, e));
    knows = λ i h. tt;
  }

  Reach-IsSound : {s : System} → Reach a n s → IsSound a n s
  Reach-IsSound here = start-IsSound
  Reach-IsSound (later r (pick i h move)) = Move-Sound v (Reach-IsSound r) i h refl move

  -- However the accesses of the threads in `alloc` and `dealloc` interleave: a bit is set exactly as
  -- long as someone holds it, the program or one thread between its compare-exchange and its return
  -- or between its call of `dealloc` and the `fetch_and`, and no two hold the same; the program holds
  -- addresses of blocks alone.
  pub Reach-held :
      {s : System}
      → Reach a n s
      → ((j : ℕ) → bit (allocated_in s.mem.bitmap j) ≡ holders a n s j)
        × ((j : ℕ) → holders a n s j ≤ 1)
        × ((p : Ptr) → s.mem.held p ≡ true → IsBlock a p)
  Reach-held r = let is = Reach-IsSound r in (is.once, λ j. ground (arith, is.once j), is.known)

  -- A block that one access of a thread brings to the program is one that nobody else holds: no
  -- thread is about to return it or to give it back, and its bit is set. No block is given out twice.
  pub Step-handed :
      {s t : System} (p : Ptr)
      → Reach a n s
      → Step a n s t
      → s.mem.held p ≡ false
      → t.mem.held p ≡ true
      → (j : ℕ) × (j < a.block_count)
        × (p ≡ address a j)
        × (allocated_in t.mem.bitmap j ≡ true)
        × ((i : ℕ) → i < n → owns a j (t.pc i) ≡ 0)
  Step-handed {s} {t} p r step was now =
      let is = Reach-IsSound (later r step) in
      let (j, l, e) = is.known p now in
      let mine : t.mem.held (address a j) ≡ true = ap t.mem.held (sym e) ∙ now in
      (
        j,
        l,
        e,
        ground (arith, is.once j, mine),
        λ i h. ground (arith, is.once j, mine, le-total (owns a j) n t.pc i h),
      )

  -- When no thread is inside a call, the allocator is valid, and the bit of each block says whether
  -- the program holds it.
  pub Reach-quiet :
      {s : System}
      → Reach a n s
      → ((i : ℕ) → i < n → s.pc i ≡ idle)
      → IsValid (view a s) × ((j : ℕ) → allocated (view a s) j ≡ s.mem.held (address a j))
  Reach-quiet {s} r quiet = (
    record {
      sized = is.sized;
      words = is.words;
      enough = v.enough;
      tight = v.tight;
      hinted = is.hinted;
      positive = v.positive;
      non_null = v.non_null;
      fits = v.fits;
      spare = λ j h. same j ∙ spare j h;
    },
    same,
  )
    where
      is : IsSound a n s
      is = Reach-IsSound r

      same : (j : ℕ) → allocated (view a s) j ≡ s.mem.held (address a j)
      same j =
          ground (arith, is.once j, total-zero (owns a j) n s.pc (λ i h. ap (owns a j) (quiet i h)))

      spare : (j : ℕ) → a.block_count ≤ j → s.mem.held (address a j) ≡ false
      spare j h = elim (Bool-cases (s.mem.held (address a j))) [
        | inl held ↦
            let (k, l, e) = is.known (address a j) held in
            absurd (omega (arith, address-inj v j k e))
        | inr gone ↦ gone
      ]
