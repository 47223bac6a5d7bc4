-- ===== src/Bitmap/Life.antt =====
-- The constructor of `BitmapAllocator`, on every branch.
use native.Mathlib.Nat.{mul_comm}
use pool_memalloc.Common.{
  ℕ, zero, suc, ◌+◌, ◌*◌, ◌/◌, ◌%◌, ◌^◌, ◌≤◌, ◌<◌, ◌≡◌, ◌≢◌, refl, ◌⊎◌, false, [], ◌∷◌, ◌==◌,
  if◌then◌else◌, get_or, replicate, length-replicate, arith,
}
use pool_memalloc.Common.Bits.{test_bit-zero}
use pool_memalloc.Common.Words.{u64}
use pool_memalloc.Bitmap.{
  BitmapAllocator, Ptr, null, built, bad_alloc, rounded_size, words_for, construct,
}
use pool_memalloc.Bitmap.Valid.{allocated, IsValid}

get_or-replicate : (n i : ℕ) → get_or {A = ℕ} (replicate n 0) i 0 ≡ 0
get_or-replicate zero i = refl
get_or-replicate (suc n) zero = refl
get_or-replicate (suc n) (suc i) = get_or-replicate n i

-- The size of a block is the one asked for, or 16, rounded up to a cache line.
pub rounded_size_bounds :
    (size : ℕ)
    → size + 63 < 2 ^ 64
    → (64 ≤ rounded_size size)
      × (size ≤ rounded_size size)
      × (rounded_size size < size + 64 ⊎ (rounded_size size ≡ 64))
      × (rounded_size size % 64 ≡ 0)
unfolding rounded_size
rounded_size_bounds size h = ground arith

-- A new allocator of `count` blocks of at least `size` bytes: none is taken.
pub record IsNew (size count : ℕ) (a : BitmapAllocator) : Type 0 where
  pub valid : IsValid a
  pub count_eq : a.block_count ≡ count
  pub large : size ≤ a.block_size
  pub aligned : a.block_size % 64 ≡ 0
  pub free : (j : ℕ) → allocated a j ≡ false

-- What `std::aligned_alloc` promises of the memory for the blocks: it is no null pointer, and ends
-- within the address space.
pub record IsPlaced (memory size : ℕ) : Type 0 where
  pub given : memory ≢ null
  pub ends : memory + size < 2 ^ 64

module _ (aligned_alloc : ℕ → ℕ → ℕ → Ptr) (size count : ℕ) (s : size + 63 < 2 ^ 64)
    (c : rounded_size size * count < 2 ^ 64) where
  abbrev pub memory : Ptr
  memory = aligned_alloc 0 64 (rounded_size size * count)

  abbrev pub bitmap : Ptr
  bitmap = aligned_alloc 1 64 (8 * words_for count)

  count-small : count < 2 ^ 58
  count-small = omega (arith, rounded_size_bounds size s, scaled count (rounded_size size))
    where
      scaled : (n s : ℕ) → 64 ≤ s → n * 64 ≤ s * n
      scaled n s h = grind arith

  no-wrap : u64 (rounded_size size * count) ≡ rounded_size size * count
  no-wrap = omega (arith, c)

  no-wrap-words : u64 (8 * words_for count) ≡ 8 * words_for count
  unfolding words_for
  no-wrap-words = omega (arith, count-small)

  abbrev pub fresh : BitmapAllocator
  fresh = record {
    block_size = rounded_size size;
    block_count = count;
    word_count = words_for count;
    memory = memory;
    bitmap = replicate (words_for count) 0;
    hint = 0;
  }

  all-zero : (i : ℕ) → get_or fresh.bitmap i 0 ≡ 0
  all-zero i = get_or-replicate (words_for count) i

  all-free : (j : ℕ) → allocated fresh j ≡ false
  all-free j = rw (all-zero (j / 64)) (test_bit-zero (j % 64))

  covers : (count ≤ words_for count * 64) × (words_for count * 64 < count + 64)
  unfolding words_for
  covers = omega (arith, count-small)

  pub fresh-IsNew : IsPlaced memory (rounded_size size * count) → IsNew size count fresh
  fresh-IsNew m = record {
    valid = record {
      sized = length-replicate (words_for count) 0;
      words = λ i. omega (arith, all-zero i);
      enough = covers.0;
      tight = covers.1;
      hinted = omega arith;
      positive = (rounded_size_bounds size s).0;
      non_null = omega (arith, m.given);
      fits = omega (arith, m.ends, mul_comm count (rounded_size size));
      spare = λ j h. all-free j;
    };
    count_eq = refl;
    large = (rounded_size_bounds size s).1;
    aligned = (rounded_size_bounds size s).3;
    free = all-free;
  }

  -- With both calls of `std::aligned_alloc` served, the constructor makes a new allocator.
  pub construct-IsNew :
      IsPlaced memory (rounded_size size * count)
      → bitmap ≢ null
      → (a : BitmapAllocator) × (construct aligned_alloc size count ≡ built a) × IsNew size count a
  unfolding construct
  construct-IsNew m b = (fresh, rw (no-wrap, no-wrap-words, given, given_bitmap), new)
    where
      given : (memory == null) ≡ false
      given = ground (arith, m.given)

      given_bitmap : (bitmap == null) ≡ false
      given_bitmap = ground arith

      new : IsNew size count fresh
      new = fresh-IsNew m

  -- Where either call fails the constructor throws, and what it had been given is freed.
  pub construct-bad_alloc :
      memory ≡ null ⊎ (bitmap ≡ null)
      → construct aligned_alloc size count ≡ bad_alloc (if memory == null then [] else memory ∷ [])
  unfolding construct
  construct-bad_alloc failed = rw (no-wrap, no-wrap-words) (ground arith)
