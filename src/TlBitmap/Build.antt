-- ===== src/TlBitmap/Build.antt =====
-- The constructor of `ThreadLocalBitmapAllocator`, and what the destructor gives back.
use pool_memalloc.Common.{
  ℕ, zero, suc, ◌+◌, ◌*◌, ◌^◌, ◌≤◌, ◌<◌, ◌≡◌, ◌≢◌, refl, sym, ap, ◌∙◌, false, some, List, [], ◌∷◌,
  ◌==◌, arith, get_elem?, length,
}
use pool_memalloc.Common.Words.{u64}
use pool_memalloc.Bitmap.{Ptr, null, rounded_size, words_for}
use pool_memalloc.Bitmap.Life.{IsNew, IsPlaced, fresh-IsNew}
use pool_memalloc.TlBitmap.{
  Region, ThreadLocalBitmapAllocator, block_size_for, new_region, new_regions, construct,
  free_regions, destroy,
}
use pool_memalloc.TlBitmap.AsBitmap.{as_bitmap}
use pool_memalloc.TlBitmap.Regions.{AllValid, Disjoint}

-- The block size is that of a bitmap allocator, unless it is 0.
block_size_for-rounded_size :
    (sz : ℕ) → 0 < sz → sz + 63 < 2 ^ 64 → block_size_for sz ≡ rounded_size sz
unfolding block_size_for rounded_size
block_size_for-rounded_size sz h l = ground arith

module _ (aligned_alloc : ℕ → ℕ → ℕ → Ptr) (sz count : ℕ) where
  abbrev pub memory_of : ℕ → Ptr
  memory_of i = aligned_alloc (2 * i) 64 (u64 (block_size_for sz * count))

  abbrev pub bitmap_of : ℕ → Ptr
  bitmap_of i = aligned_alloc (2 * i + 1) 64 (u64 (8 * words_for count))

  -- What `std::aligned_alloc` promises of its first `2 * n` calls: memory inside the address space,
  -- and no address in two of the blocks of memory for regions.
  pub record IsServed (n : ℕ) : Type 0 where
    pub placed : (k : ℕ) → k < n → IsPlaced (memory_of k) (block_size_for sz * count)
    pub mapped : (k : ℕ) → k < n → bitmap_of k ≢ null
    pub apart :
        (j k : ℕ) (p : Ptr)
        → j < n
        → k < n
        → memory_of j ≤ p
        → p < memory_of j + count * block_size_for sz
        → memory_of k ≤ p
        → p < memory_of k + count * block_size_for sz
        → j ≡ k

  -- The regions that the loop makes.
  abbrev regions_from : (rounds i : ℕ) → List Region
  regions_from zero i = []
  regions_from (suc rounds) i = new_region (memory_of i) count ∷ regions_from rounds (i + 1)

  regions_from-at :
      (rounds i k : ℕ) (r : Region)
      → get_elem? (regions_from rounds i) k ≡ some r
      → (k < rounds) × (r ≡ new_region (memory_of (i + k)) count)
  regions_from-at zero i k r e = absurd (ground (arith, e))
  regions_from-at (suc rounds) i zero r e =
      let here : new_region (memory_of i) count ≡ r = ground (arith, e) in
      (omega arith, sym here ∙ ap (λ n. new_region (memory_of n) count) (omega arith))
  regions_from-at (suc rounds) i (suc k) r e =
      let (h, same) = regions_from-at rounds (i + 1) k r e in
      (omega arith, same ∙ ap (λ n. new_region (memory_of n) count) (omega arith))

  first_regions-at :
      (n k : ℕ) (r : Region)
      → get_elem? (regions_from n 0) k ≡ some r
      → (k < n) × (r ≡ new_region (memory_of k) count)
  first_regions-at n k r e =
      let (h, same) = regions_from-at n 0 k r e in
      (h, same ∙ ap (λ i. new_region (memory_of i) count) (omega arith))

  regions_from-length : (rounds i : ℕ) → length (regions_from rounds i) ≡ rounds
  regions_from-length zero i = refl
  regions_from-length (suc rounds) i = ap suc (regions_from-length rounds (i + 1))

  new_regions-from :
      (rounds i : ℕ)
      → ((k : ℕ) → i ≤ k → k < i + rounds → bitmap_of k ≢ null)
      → new_regions aligned_alloc rounds i (block_size_for sz) count ≡ some (regions_from rounds i)
  unfolding new_regions
  new_regions-from zero i live = refl
  new_regions-from (suc rounds) i live =
      let given : (bitmap_of i == null) ≡ false = ground (arith, live i) in
      rw (given, new_regions-from rounds (i + 1) (λ k h l. live k (omega arith) (omega arith))) refl

  -- The results of the calls for the regions from `i` on.
  freed_from-at :
      (rounds i k : ℕ)
      → k < rounds
      → (get_elem? (free_regions bitmap_of i (regions_from rounds i)) (2 * k)
          ≡ some (bitmap_of (i + k)))
        × (get_elem? (free_regions bitmap_of i (regions_from rounds i)) (2 * k + 1)
            ≡ some (memory_of (i + k)))
  unfolding free_regions new_region
  freed_from-at zero i k h = elim h [ ]
  freed_from-at (suc rounds) i zero h =
      (ap (λ n. some (bitmap_of n)) (omega arith), ap (λ n. some (memory_of n)) (omega arith))
  freed_from-at (suc rounds) i (suc k) h =
      let even : 2 * suc k ≡ suc (suc (2 * k)) = omega arith in
      let odd : suc (suc (2 * k)) + 1 ≡ suc (suc (2 * k + 1)) = omega arith in
      let shift : i + 1 + k ≡ i + suc k = omega arith in
      let (b, m) = freed_from-at rounds (i + 1) k (omega arith) in
      rw (even, odd)
        (b ∙ ap (λ n. some (bitmap_of n)) shift, m ∙ ap (λ n. some (memory_of n)) shift)

  length-freed_from :
      (rounds i : ℕ) → length (free_regions bitmap_of i (regions_from rounds i)) ≡ 2 * rounds
  unfolding free_regions
  length-freed_from zero i = refl
  length-freed_from (suc rounds) i = omega (arith, length-freed_from rounds (i + 1))

  -- An allocator of `n` regions that no thread has used.
  pub record IsReady (n : ℕ) (a : ThreadLocalBitmapAllocator) : Type 0 where
    pub valid : AllValid a.block_size a.regions
    pub apart : Disjoint a.block_size a.regions
    pub regions_eq : length a.regions ≡ n
    pub max_threads_eq : a.max_threads ≡ n
    pub thread_counter_eq : a.thread_counter ≡ 0
    pub new :
        (k : ℕ) (r : Region)
        → get_elem? a.regions k ≡ some r
        → IsNew sz count (as_bitmap a.block_size r)

  module _ (positive : 0 < sz) (s : sz + 63 < 2 ^ 64) (c : block_size_for sz * count < 2 ^ 64) where
    region-IsNew :
        (m : Ptr)
        → IsPlaced m (block_size_for sz * count)
        → IsNew sz count (as_bitmap (block_size_for sz) (new_region m count))
    unfolding new_region
    region-IsNew m placed =
        let same = block_size_for-rounded_size sz positive s in
        rw same (fresh-IsNew (λ n alignment size. m) sz count s (rw same at c) (rw same at placed))

    abbrev made : (n : ℕ) → ThreadLocalBitmapAllocator
    made n = record {
      block_size = block_size_for sz;
      blocks_per_thread = count;
      max_threads = n;
      regions = regions_from n 0;
      thread_counter = 0;
    }

    made-IsNew :
        (n k : ℕ) (r : Region)
        → IsServed n
        → get_elem? (regions_from n 0) k ≡ some r
        → IsNew sz count (as_bitmap (block_size_for sz) r)
    made-IsNew n k r served e =
        let (h, same) = first_regions-at n k r e in
        rw same (region-IsNew (memory_of k) (served.placed k h))

    made-apart : (n : ℕ) → IsServed n → Disjoint (block_size_for sz) (regions_from n 0)
    unfolding new_region
    made-apart n served j k r t p e f (a, b) (d, g) =
        let (h, same) = first_regions-at n j r e in
        let (l, same') = first_regions-at n k t f in
        served.apart j k p h l (rw same at a) (rw same at b) (rw same' at d) (rw same' at g)

    -- Where the block size is not 0, every request for memory is served, and neither the size nor its
    -- product with the number of blocks wraps: the constructor makes `n` valid regions, all of whose blocks are free and as
    -- large as asked for, no address lies in two, and the destructor frees each result of
    -- `std::aligned_alloc` once, the bitmap of a region before its memory.
    pub construct-IsReady :
        (n : ℕ)
        → IsServed n
        → (a : ThreadLocalBitmapAllocator) × (construct aligned_alloc sz count n ≡ some a)
          × IsReady n a
          × (length (destroy bitmap_of a) ≡ 2 * n)
          × ((k : ℕ)
              → k < n
              → (get_elem? (destroy bitmap_of a) (2 * k) ≡ some (bitmap_of k))
                × (get_elem? (destroy bitmap_of a) (2 * k + 1) ≡ some (memory_of k)))
    unfolding construct destroy
    construct-IsReady n served = (
      made n,
      rw (construct, new_regions-from n 0 (λ k h l. served.mapped k (omega arith))) refl,
      record {
        valid = λ k r e. (made-IsNew n k r served e).valid;
        apart = made-apart n served;
        regions_eq = regions_from-length n 0;
        max_threads_eq = refl;
        thread_counter_eq = refl;
        new = λ k r. made-IsNew n k r served;
      },
      length-freed_from n 0,
      λ k h. let z : 0 + k ≡ k = omega arith in rw z at (freed_from-at n 0 k h),
    )
