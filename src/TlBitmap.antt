-- ===== src/TlBitmap.antt =====
-- src/tl_bitmap_allocator.cpp and include/tl_bitmap_allocator.hpp, for whole calls: a bitmap
-- allocator whose blocks are cut into regions, one for each thread. `t_region_index` is the calling
-- thread's, and all allocators of the process share it.
pub mod AsBitmap
pub mod Regions
pub mod Build
pub mod Threads
mod Tests
use Prim.Native.Nat.{bit_and, bit_or}
use pool_memalloc.Common.{
  ℕ, zero, suc, ◌+◌, ◌-◌, ◌*◌, ◌/◌, ◌%◌, ◌^◌, Bool, true, false, ◌&&◌, Option, none, some, List, [],
  ◌∷◌, ltb, leb, ◌==◌, if◌then◌else◌, get_elem?, get_or, set, replicate,
}
use pool_memalloc.Common.Bits.{count_trailing_zeros}
use pool_memalloc.Common.Words.{u64, sub64, full, complement}
use pool_memalloc.Bitmap.{Ptr, null, word_bits, words_for}
use pool_memalloc.Bitmap

pub record Region : Type 0 where
  pub memory : Ptr
  pub bitmap : List ℕ
  pub block_count : ℕ
  pub word_count : ℕ
  pub hint : ℕ

pub record ThreadLocalBitmapAllocator : Type 0 where
  pub block_size : ℕ
  pub blocks_per_thread : ℕ
  pub max_threads : ℕ
  pub regions : List Region
  pub thread_counter : ℕ

unfoldable pub block_size_for : ℕ → ℕ
block_size_for block_size = u64 (block_size + 63) / 64 * 64

-- A pass of the constructor's loop. Neither result of `std::aligned_alloc` is tested.
unfoldable pub new_region : (memory : Ptr) → ℕ → Region
unfolding Bitmap.words_for
new_region memory blocks_per_thread = record {
  memory = memory;
  bitmap = replicate (words_for blocks_per_thread) 0;
  block_count = blocks_per_thread;
  word_count = words_for blocks_per_thread;
  hint = 0;
}

-- The constructor's loop with `rounds` passes left, from `i` on; call `n` of `std::aligned_alloc`
-- returns `aligned_alloc n alignment size`. There is no result where a word is written through a
-- null pointer.
unfoldable pub new_regions :
    (aligned_alloc : ℕ → ℕ → ℕ → Ptr)
    → (rounds i : ℕ) → (size blocks_per_thread : ℕ) → Option (List Region)
unfolding new_region
new_regions aligned_alloc zero i size blocks_per_thread = some []
new_regions aligned_alloc (suc rounds) i size blocks_per_thread =
    let memory = aligned_alloc (2 * i) 64 (u64 (size * blocks_per_thread)) in
    let bitmap = aligned_alloc (2 * i + 1) 64 (u64 (8 * words_for blocks_per_thread)) in
    let rest = new_regions aligned_alloc rounds (i + 1) size blocks_per_thread in
    if (bitmap == null) && ltb 0 (words_for blocks_per_thread)
    then none
    else elim rest [ none ↦ none | some rs ↦ some (new_region memory blocks_per_thread ∷ rs) ]

unfoldable pub construct :
    (aligned_alloc : ℕ → ℕ → ℕ → Ptr)
    → (block_size blocks_per_thread max_threads : ℕ) → Option ThreadLocalBitmapAllocator
unfolding new_regions block_size_for
construct aligned_alloc block_size blocks_per_thread max_threads =
    elim (new_regions aligned_alloc max_threads 0 (block_size_for block_size) blocks_per_thread) [
      | none ↦ none
      | some rs ↦ some (record {
        block_size = block_size_for block_size;
        blocks_per_thread = blocks_per_thread;
        max_threads = max_threads;
        regions = rs;
        thread_counter = 0;
      })
    ]

-- The destructor's calls of `std::free`, in order; `bitmap n` is the address of the bitmap of region
-- `n`. The words' destructors do nothing.
unfoldable pub free_regions : (bitmap : ℕ → Ptr) → (n : ℕ) → List Region → List Ptr
free_regions bitmap n [] = []
free_regions bitmap n (r ∷ rs) = bitmap n ∷ r.memory ∷ free_regions bitmap (n + 1) rs

unfoldable pub destroy : (bitmap : ℕ → Ptr) → ThreadLocalBitmapAllocator → List Ptr
unfolding free_regions
destroy bitmap a = free_regions bitmap 0 a.regions

-- `SIZE_MAX`, with which a thread's `t_region_index` starts.
abbrev pub unassigned : ℕ
unassigned = 2 ^ 64 - 1

-- The counter moves on, and the index is what it was modulo `m_max_threads`; no result for a
-- modulus of 0.
unfoldable pub assign_region : ThreadLocalBitmapAllocator → Option (ThreadLocalBitmapAllocator × ℕ)
assign_region a =
    if a.max_threads == 0
    then none
    else some
        (record a { thread_counter = u64 (a.thread_counter + 1) }, a.thread_counter % a.max_threads)

-- `__builtin_ctzll(~word)`
unfoldable pub find_free_bit : ℕ → ℕ
unfolding count_trailing_zeros
find_free_bit word = count_trailing_zeros word_bits (complement word)

unfoldable pub index_to_ptr : (block_size : ℕ) → Region → (index : ℕ) → Ptr
index_to_ptr size r index = u64 (r.memory + u64 (index * size))

unfoldable pub ptr_to_index : (block_size : ℕ) → Region → Ptr → ℕ
ptr_to_index size r ptr = sub64 ptr r.memory / size

abbrev pub load_word : Region → ℕ → ℕ
load_word r i = get_or r.bitmap i 0

abbrev pub store_word : Region → ℕ → ℕ → Region
store_word r i w = record r { bitmap = set r.bitmap i w }

-- What follows a compare-exchange that has put `desired` in place.
unfoldable pub taken : (block_size : ℕ) → Region → (word_index bit : ℕ) → Region × Ptr
unfolding index_to_ptr
taken size r word_index bit =
    let mask = 2 ^ bit in
    let global_index = u64 (u64 (word_index * word_bits) + bit) in
    if leb r.block_count global_index
    then (store_word r word_index (bit_and (load_word r word_index) (complement mask)), null)
    else (record r { hint = word_index }, index_to_ptr size r global_index)

-- The `while (word != FULL)` loop, entered with a word that is not full; each spurious failure of
-- the compare-exchange loads the word again.
unfoldable pub claim : (spurious block_size : ℕ) → Region → (word_index word : ℕ) → Region × Ptr
unfolding find_free_bit taken
claim zero size r word_index word =
    let bit = find_free_bit word in
    taken size (store_word r word_index (bit_or word (2 ^ bit))) word_index bit
claim (suc spurious) size r word_index word =
    claim spurious size r word_index (load_word r word_index)

-- The `for` loop over the probes, `rounds` of them left.
unfoldable pub probe_words : (rounds probe start spurious block_size : ℕ) → Region → Region × Ptr
unfolding claim
probe_words zero probe start spurious size r = (r, null)
probe_words (suc rounds) probe start spurious size r =
    let word_index = u64 (start + probe) % r.word_count in
    let word = load_word r word_index in
    let rest = probe_words rounds (probe + 1) start spurious size r in
    if word == full then rest else claim spurious size r word_index word

-- `alloc` from `m_regions[t_region_index]` on; no result for an index past the last region.
unfoldable pub alloc_in :
    (spurious t_region_index : ℕ)
    → ThreadLocalBitmapAllocator
    → Option (ThreadLocalBitmapAllocator × ℕ × Ptr)
unfolding probe_words
alloc_in spurious t_region_index a = elim (get_elem? a.regions t_region_index) [
  | none ↦ none
  | some r ↦
      let (s, p) = probe_words r.word_count 0 r.hint spurious a.block_size r in
      some (record a { regions = set a.regions t_region_index s }, t_region_index, p)
]

-- The allocator, the thread's `t_region_index` and the pointer after a call.
unfoldable pub alloc :
    (spurious t_region_index : ℕ)
    → ThreadLocalBitmapAllocator
    → Option (ThreadLocalBitmapAllocator × ℕ × Ptr)
unfolding assign_region alloc_in
alloc spurious t_region_index a =
    if t_region_index == unassigned
    then elim (assign_region a) [ none ↦ none | some (b, i) ↦ alloc_in spurious i b ]
    else alloc_in spurious t_region_index a

-- `ptr >= start && ptr < end`
unfoldable pub in_region : (block_size : ℕ) → Region → Ptr → Bool
in_region size r ptr = leb r.memory ptr && ltb ptr (u64 (r.memory + u64 (r.block_count * size)))

-- What `dealloc` does in the region that it has found.
unfoldable pub dealloc_in : (block_size : ℕ) → Region → Ptr → Region
unfolding ptr_to_index
dealloc_in size r ptr =
    let index = ptr_to_index size r ptr in
    let word_index = index / word_bits in
    let bit_index = index % word_bits in
    let mask = complement (2 ^ bit_index) in
    let s = store_word r word_index (bit_and (load_word r word_index) mask) in
    record s { hint = word_index }

-- The loop of `dealloc`: the first region whose range holds the pointer, if any, is changed.
unfoldable pub dealloc_loop : (block_size : ℕ) → List Region → Ptr → List Region
unfolding dealloc_in in_region
dealloc_loop size [] ptr = []
dealloc_loop size (r ∷ rs) ptr =
    let rest = dealloc_loop size rs ptr in
    if in_region size r ptr then dealloc_in size r ptr ∷ rs else r ∷ rest

unfoldable pub dealloc : ThreadLocalBitmapAllocator → Ptr → ThreadLocalBitmapAllocator
unfolding dealloc_loop
dealloc a ptr = record a { regions = dealloc_loop a.block_size a.regions ptr }
