-- ===== src/Bitmap.antt =====
-- src/bitmap_allocator.cpp and include/bitmap_allocator.hpp, as one thread runs them: the
-- allocator's members, its constructor and destructor, `alloc` and `dealloc`. `m_bitmap` is the
-- list of its words. Addresses are numbers, and 0 is `nullptr`. A compare-exchange that meets the
-- word it expects may still fail; how often it does so before it succeeds is an argument.
pub mod Valid
pub mod Word
pub mod Alloc
pub mod Dealloc
pub mod Complete
pub mod Life
pub mod Threads
mod Tests
use Prim.Native.Nat.{bit_and, bit_or}
use pool_memalloc.Common.{
  ℕ, zero, suc, ◌+◌, ◌-◌, ◌*◌, ◌/◌, ◌%◌, ◌^◌, Bool, List, [], ◌∷◌, ltb, leb, ◌==◌, if◌then◌else◌,
  get_or, set, replicate,
}
use pool_memalloc.Common.Bits.{count_trailing_zeros}
use pool_memalloc.Common.Words.{u64, sub64, full, complement}

abbrev pub Ptr : Type 0
Ptr = ℕ

abbrev pub null : Ptr
null = 0

abbrev pub word_bits : ℕ
word_bits = 64

pub record BitmapAllocator : Type 0 where
  pub block_size : ℕ
  pub block_count : ℕ
  pub word_count : ℕ
  pub memory : Ptr
  pub bitmap : List ℕ
  pub hint : ℕ

-- What the constructor leads to. `std::bad_alloc` comes with what was freed before the throw.
pub data Built (A : Type 0) : Type 0 where
  built : A → Built A
  bad_alloc : (freed : List Ptr) → Built A

-- The member initialiser and the rounding in the constructor's body.
unfoldable pub rounded_size : ℕ → ℕ
rounded_size block_size = u64 ((if ltb block_size 16 then 16 else block_size) + 63) / 64 * 64

unfoldable pub words_for : ℕ → ℕ
words_for block_count = sub64 (u64 (block_count + word_bits)) 1 / word_bits

-- `aligned_alloc n alignment size` is what the n-th call of `std::aligned_alloc` returns.
unfoldable pub construct : (aligned_alloc : ℕ → ℕ → ℕ → Ptr) → ℕ → ℕ → Built BitmapAllocator
construct aligned_alloc block_size block_count =
    let size = rounded_size block_size in
    let words = words_for block_count in
    let memory = aligned_alloc 0 64 (u64 (size * block_count)) in
    let bitmap = aligned_alloc 1 64 (u64 (8 * words)) in
    if memory == null
    then bad_alloc []
    else if bitmap == null
    then bad_alloc (memory ∷ [])
    else built (record {
      block_size = size;
      block_count = block_count;
      word_count = words;
      memory = memory;
      bitmap = replicate words 0;
      hint = 0;
    })

-- The destructor's calls of `std::free`; the words' destructors do nothing. `bitmap` is the
-- address of `m_bitmap`.
unfoldable pub destroy : (bitmap : Ptr) → BitmapAllocator → List Ptr
destroy bitmap a = bitmap ∷ a.memory ∷ []

-- `__builtin_ctzll(~word)`
unfoldable pub find_free_bit : ℕ → ℕ
unfolding count_trailing_zeros
find_free_bit word = count_trailing_zeros word_bits (complement word)

unfoldable pub index_to_ptr : BitmapAllocator → ℕ → Ptr
index_to_ptr a index = u64 (a.memory + u64 (index * a.block_size))

unfoldable pub ptr_to_index : BitmapAllocator → Ptr → ℕ
ptr_to_index a ptr = sub64 ptr a.memory / a.block_size

abbrev pub load_word : BitmapAllocator → ℕ → ℕ
load_word a i = get_or a.bitmap i 0

abbrev pub store_word : BitmapAllocator → ℕ → ℕ → BitmapAllocator
store_word a i w = record a { bitmap = set a.bitmap i w }

-- What follows a compare-exchange that has put `word | mask` in place.
unfoldable pub taken : BitmapAllocator → (word_index free_bit : ℕ) → BitmapAllocator × Ptr
unfolding index_to_ptr
taken a word_index free_bit =
    let mask = 2 ^ free_bit in
    let global_index = u64 (u64 (word_index * word_bits) + free_bit) in
    if leb a.block_count global_index
    then (store_word a word_index (bit_and (load_word a word_index) (complement mask)), null)
    else (record a { hint = word_index }, index_to_ptr a global_index)

-- The `while (word != FULL)` loop, entered with a word that is not full; each spurious failure of
-- the compare-exchange loads the word again.
unfoldable pub claim : (spurious : ℕ) → BitmapAllocator → ℕ → ℕ → BitmapAllocator × Ptr
unfolding find_free_bit taken
claim zero a word_index word =
    let free_bit = find_free_bit word in
    taken (store_word a word_index (bit_or word (2 ^ free_bit))) word_index free_bit
claim (suc spurious) a word_index word = claim spurious a word_index (load_word a word_index)

-- The `for` loop over the probes, `rounds` of them left.
unfoldable pub probe_words :
    (rounds probe start spurious : ℕ) → BitmapAllocator → BitmapAllocator × Ptr
unfolding claim
probe_words zero probe start spurious a = (a, null)
probe_words (suc rounds) probe start spurious a =
    let word_index = u64 (start + probe) % a.word_count in
    let word = load_word a word_index in
    let rest = probe_words rounds (probe + 1) start spurious a in
    if word == full then rest else claim spurious a word_index word

unfoldable pub alloc : (spurious : ℕ) → BitmapAllocator → BitmapAllocator × Ptr
unfolding probe_words
alloc spurious a = probe_words a.word_count 0 a.hint spurious a

unfoldable pub dealloc : BitmapAllocator → Ptr → BitmapAllocator
unfolding ptr_to_index
dealloc a ptr =
    let index = ptr_to_index a ptr in
    let word_index = index / word_bits in
    let bit_index = index % word_bits in
    let mask = complement (2 ^ bit_index) in
    let b = store_word a word_index (bit_and (load_word a word_index) mask) in
    record b { hint = word_index }
