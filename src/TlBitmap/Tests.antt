-- ===== src/TlBitmap/Tests.antt =====
-- Runs of the bitmap allocator with a region for each thread, and its theorems at two regions.
use pool_memalloc.Common.{
  ℕ, zero, suc, ◌+◌, ◌*◌, ◌^◌, ◌%◌, ◌/◌, ◌≡◌, ◌≢◌, ◌<◌, refl, false, some, List, [], ◌∷◌, ◌==◌,
  if◌then◌else◌, arith, get_elem?, length, get_or, set,
}
use pool_memalloc.Common.Bits.{test_bit-zero}
use mathlib.Core.Path.{subst}
use pool_memalloc.Bitmap.{Ptr, null}
use pool_memalloc.Bitmap.Valid.{IsValid, allocated}
use pool_memalloc.TlBitmap.{
  Region, ThreadLocalBitmapAllocator, construct, alloc_in, alloc, dealloc_in, dealloc, unassigned,
  block_size_for, destroy,
}
use pool_memalloc.TlBitmap.AsBitmap.{
  alloc_in-as_bitmap, as_region, as_bitmap, as_region, served, alloc_in-as_bitmap,
}
use pool_memalloc.Bitmap
use pool_memalloc.TlBitmap.Build.{bitmap_of, memory_of, IsServed, IsReady, construct-IsReady}
use pool_memalloc.TlBitmap.Regions.{AllValid, Disjoint, dealloc-region}
use pool_memalloc.TlBitmap.Threads.{assign_times, assign_times-region}

-- Every request is served at the address 4096 * (call + 1).
abbrev serve : ℕ → ℕ → ℕ → Ptr
serve call alignment size = 4096 * (call + 1)

abbrev region_at : Ptr → Region
region_at p = record { memory = p; bitmap = 0 ∷ []; block_count = 64; word_count = 1; hint = 0 }

abbrev two : ThreadLocalBitmapAllocator
two = record {
  block_size = 64;
  blocks_per_thread = 64;
  max_threads = 2;
  regions = region_at 4096 ∷ region_at 12288 ∷ [];
  thread_counter = 0;
}

made : construct serve 1 64 2 ≡ some two
unfolding construct
made = refl

-- The second thread to come has the second region.
second :
    alloc 0 unassigned (record two { thread_counter = 1 })
    ≡ some (
      record two {
        thread_counter = 2;
        regions = region_at 4096 ∷ record (region_at 12288) { bitmap = 1 ∷ [] } ∷ [];
      },
      1,
      12288,
    )
unfolding alloc
second = refl

-- A block size of 0 is not rounded up, and every block is at one address.
abbrev empty_blocks : ThreadLocalBitmapAllocator
empty_blocks = record two { block_size = 0 }

same_address :
    alloc_in 0 0
      (record empty_blocks { regions = record (region_at 4096) { bitmap = 1 ∷ [] } ∷ [] })
    ≡ some (
      record empty_blocks { regions = record (region_at 4096) { bitmap = 3 ∷ [] } ∷ [] },
      0,
      4096,
    )
unfolding alloc_in
same_address = refl

region-IsValid : (p : Ptr) → p ≢ null → p < 2 ^ 63 → IsValid (as_bitmap 64 (region_at p))
region-IsValid p ne h = record {
  sized = refl;
  words = words;
  enough = omega arith;
  tight = omega arith;
  hinted = omega arith;
  positive = omega arith;
  non_null = omega arith;
  fits = omega arith;
  spare = λ i h. rw (zeros (i / 64)) (test_bit-zero (i % 64));
}
  where
    zeros : (i : ℕ) → get_or {A = ℕ} (0 ∷ []) i 0 ≡ 0
    zeros zero = refl
    zeros (suc i) = refl

    words : (i : ℕ) → get_or (0 ∷ []) i 0 < 2 ^ 64
    words i = omega (arith, zeros i)

two-AllValid : AllValid 64 two.regions
two-AllValid zero r e =
    subst (λ s. IsValid (as_bitmap 64 s)) (ground (arith, e))
      (region-IsValid 4096 (omega arith) (omega arith))
two-AllValid (suc zero) r e =
    subst (λ s. IsValid (as_bitmap 64 s)) (ground (arith, e))
      (region-IsValid 12288 (omega arith) (omega arith))
two-AllValid (suc (suc k)) r e = absurd (ground (arith, e))

two-Disjoint : Disjoint 64 two.regions
two-Disjoint zero zero r s p e f h l = refl
two-Disjoint zero (suc zero) r s p e f h l = absurd (ground (arith, e, f, h, l))
two-Disjoint (suc zero) zero r s p e f h l = absurd (ground (arith, e, f, h, l))
two-Disjoint (suc zero) (suc zero) r s p e f h l = refl
two-Disjoint zero (suc (suc k)) r s p e f h l = absurd (ground (arith, f))
two-Disjoint (suc zero) (suc (suc k)) r s p e f h l = absurd (ground (arith, f))
two-Disjoint (suc (suc j)) k r s p e f h l = absurd (ground (arith, e))

dealloc-region_example :
    (s : Region) × (dealloc two (12288 + 3 * 64) ≡ record two { regions = set two.regions 1 s })
    × IsValid (as_bitmap 64 s)
    × ((j : ℕ)
        → allocated (as_bitmap 64 s) j
          ≡ (if 3 == j then false else allocated (as_bitmap 64 (region_at 12288)) j))
dealloc-region_example =
    dealloc-region two two-AllValid 1 3 (region_at 12288) two-Disjoint refl (omega arith)

assign_times-region_example :
    (drawn_all : List ℕ) × (assign_times 5 two
      ≡ some (record two { thread_counter = 5 }, drawn_all))
    × ((k : ℕ) → k < 5 → get_elem? drawn_all k ≡ some (k % 2))
    × ((j k : ℕ) → j < k → k < 2 → (j % 2) ≢ (k % 2))
    × ((k : ℕ) → (2 + k) % 2 ≡ k % 2)
assign_times-region_example = assign_times-region 5 two (omega arith) refl (omega arith)

alloc_in-as_bitmap_example :
    ((spurious : ℕ)
      → alloc_in spurious 1 two
        ≡ served two 1
            (as_region ((Bitmap.alloc spurious (as_bitmap 64 (region_at 12288))).0))
            ((Bitmap.alloc spurious (as_bitmap 64 (region_at 12288))).1))
    × ((ptr : Ptr)
        → dealloc_in 64 (region_at 12288) ptr
          ≡ as_region (Bitmap.dealloc (as_bitmap 64 (region_at 12288)) ptr))
alloc_in-as_bitmap_example = alloc_in-as_bitmap two 1 (region_at 12288) refl

serve-IsServed : IsServed serve 1 64 2
unfolding block_size_for
serve-IsServed = record {
  placed = λ k h. record { given = omega arith; ends = omega arith };
  mapped = λ k h. omega arith;
  apart = λ j k p h l a b c d. omega arith;
}

-- Bitmaps and memory, in the order in which they are freed.
freed : destroy (bitmap_of serve 1 64) two ≡ 8192 ∷ 4096 ∷ 16384 ∷ 12288 ∷ []
unfolding destroy
freed = refl

construct-IsReady_example :
    (a : ThreadLocalBitmapAllocator) × (construct serve 1 64 2 ≡ some a)
    × IsReady serve 1 64 2 a
    × (length (destroy (bitmap_of serve 1 64) a) ≡ 4)
    × ((k : ℕ)
        → k < 2
        → (get_elem? (destroy (bitmap_of serve 1 64) a) (2 * k) ≡ some (bitmap_of serve 1 64 k))
          × (get_elem? (destroy (bitmap_of serve 1 64) a) (2 * k + 1)
              ≡ some (memory_of serve 1 64 k)))
unfolding block_size_for
construct-IsReady_example =
    construct-IsReady serve 1 64 (omega arith) (omega arith) (omega arith) 2 serve-IsServed
