-- ===== src/TlBitmap/AsBitmap.antt =====
-- A region read as the allocator of src/bitmap_allocator.cpp, whose code the loops of
-- src/tl_bitmap_allocator.cpp repeat on the members of a region.
use pool_memalloc.Common.{
  ℕ, zero, suc, ◌+◌, ◌*◌, ◌%◌, ◌≡◌, refl, ◌==◌, leb, Bool-cases, inl, inr, Option, some, get_elem?,
  set,
}
use pool_memalloc.Common.Words.{u64, full}
use pool_memalloc.Bitmap.{Ptr, null, BitmapAllocator, word_bits}
use pool_memalloc.Bitmap
use pool_memalloc.TlBitmap.{
  Region, ThreadLocalBitmapAllocator, load_word, taken, claim, probe_words, alloc_in, dealloc_in,
  find_free_bit,
}

abbrev pub as_bitmap : (block_size : ℕ) → Region → BitmapAllocator
as_bitmap size r = record {
  block_size = size;
  block_count = r.block_count;
  word_count = r.word_count;
  memory = r.memory;
  bitmap = r.bitmap;
  hint = r.hint;
}

abbrev pub as_region : BitmapAllocator → Region
as_region a = record {
  memory = a.memory;
  bitmap = a.bitmap;
  block_count = a.block_count;
  word_count = a.word_count;
  hint = a.hint;
}

abbrev pub lift : (block_size : ℕ) → Region × Ptr → BitmapAllocator × Ptr
lift size (r, p) = (as_bitmap size r, p)

module _ (size : ℕ) where
  taken-as_bitmap :
      (r : Region) (word_index bit : ℕ)
      → Bitmap.taken (as_bitmap size r) word_index bit ≡ lift size (taken size r word_index bit)
  unfolding taken Bitmap.taken
  taken-as_bitmap r word_index bit =
      elim (Bool-cases (leb r.block_count (u64 (u64 (word_index * word_bits) + bit)))) [
        | inl past ↦ rw past refl
        | inr inside ↦ rw inside refl
      ]

  claim-as_bitmap :
      (spurious : ℕ) (r : Region) (word_index word : ℕ)
      → Bitmap.claim spurious (as_bitmap size r) word_index word
        ≡ lift size (claim spurious size r word_index word)
  unfolding claim Bitmap.claim
  claim-as_bitmap zero r word_index word = taken-as_bitmap _ word_index (find_free_bit word)
  claim-as_bitmap (suc spurious) r word_index word =
      claim-as_bitmap spurious r word_index (load_word r word_index)

  probe_words-as_bitmap :
      (rounds probe start spurious : ℕ) (r : Region)
      → Bitmap.probe_words rounds probe start spurious (as_bitmap size r)
        ≡ lift size (probe_words rounds probe start spurious size r)
  unfolding probe_words Bitmap.probe_words
  probe_words-as_bitmap zero probe start spurious r = refl
  probe_words-as_bitmap (suc rounds) probe start spurious r =
      elim (Bool-cases (load_word r (u64 (start + probe) % r.word_count) == full)) [
        | inl closed ↦ rw closed (probe_words-as_bitmap rounds (probe + 1) start spurious r)
        | inr open_ ↦ rw open_ (claim-as_bitmap spurious r _ _)
      ]

  dealloc_in-as_bitmap :
      (r : Region) (ptr : Ptr)
      → dealloc_in size r ptr ≡ as_region (Bitmap.dealloc (as_bitmap size r) ptr)
  unfolding dealloc_in Bitmap.dealloc
  dealloc_in-as_bitmap r ptr = refl

-- The result of a call of a thread with region `t` that leaves that region as `s`.
abbrev pub served :
    ThreadLocalBitmapAllocator
    → (t : ℕ) → Region
    → Ptr
    → Option (ThreadLocalBitmapAllocator × ℕ × Ptr)
served a t s p = some (record a { regions = set a.regions t s }, t, p)

-- On the region of the calling thread `alloc` does what `BitmapAllocator::alloc` does to an allocator
-- with the members of that region, whatever these are and however often the compare-exchange fails;
-- and what `dealloc` does to a region is what `BitmapAllocator::dealloc` does.
pub alloc_in-as_bitmap :
    (a : ThreadLocalBitmapAllocator) (t : ℕ) (r : Region)
    → get_elem? a.regions t ≡ some r
    → ((spurious : ℕ)
        → alloc_in spurious t a
          ≡ served a t
              (as_region ((Bitmap.alloc spurious (as_bitmap a.block_size r)).0))
              ((Bitmap.alloc spurious (as_bitmap a.block_size r)).1))
      × ((ptr : Ptr)
          → dealloc_in a.block_size r ptr
            ≡ as_region (Bitmap.dealloc (as_bitmap a.block_size r) ptr))
unfolding alloc_in Bitmap.alloc
alloc_in-as_bitmap a t r e = (
  λ spurious.
      rw (alloc_in, e, probe_words-as_bitmap a.block_size r.word_count 0 r.hint spurious r) refl,
  dealloc_in-as_bitmap a.block_size r,
)
