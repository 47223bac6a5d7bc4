-- ===== src/Bitmap/Word.antt =====
-- One word of the bitmap: its lowest clear bit, and what `alloc` does once that bit is set.
use Prim.Native.Nat.{bit_and, bit_or}
use pool_memalloc.Common.{
  ℕ, zero, suc, ◌+◌, ◌*◌, ◌/◌, ◌%◌, ◌^◌, ◌≤◌, ◌<◌, ◌≡◌, ◌≢◌, refl, ap, true, false, List, leb,
  length, get_or, set, arith,
}
use pool_memalloc.Common.Bits.{
  set_bit, bit_or-set_bit, bit_and-clear_bit, clear_bit-set_bit, set_bit-lt, LowestZero,
  count_trailing_zeros-LowestZero,
}
use pool_memalloc.Common.Words.{u64, full, complement}
use pool_memalloc.Bitmap.{
  BitmapAllocator, null, word_bits, load_word, store_word, index_to_ptr, find_free_bit, taken,
  claim,
}
use pool_memalloc.Bitmap.Valid.{IsValid, mark, set-set, set-get_or, get_or-set_self}

-- `find_free_bit` gives the lowest zero of a word that has one.
pub find_free_bit-LowestZero : (w : ℕ) → w < full → LowestZero 64 w (find_free_bit w)
unfolding find_free_bit
find_free_bit-LowestZero w h = count_trailing_zeros-LowestZero 64 w h

pub count-lt : {a : BitmapAllocator} → IsValid a → a.block_count < 2 ^ 58
count-lt {a} v = omega (arith, v.fits, scaled a.block_count a.block_size v.positive)
  where
    scaled : (n s : ℕ) → 64 ≤ s → n * 64 ≤ n * s
    scaled n s h = grind arith

pub index_to_ptr-eq :
    {a : BitmapAllocator}
    → IsValid a
    → (index : ℕ) → index < a.block_count
    → index_to_ptr a index ≡ a.memory + index * a.block_size
unfolding index_to_ptr
index_to_ptr-eq {a} v index h = omega (arith, v.fits, scaled index a.block_count a.block_size h)
  where
    scaled : (n m s : ℕ) → n < m → n * s ≤ m * s
    scaled n m s h = grind arith

module _ {a : BitmapAllocator} (v : IsValid a) (i : ℕ) (hi : i < a.word_count) where
  abbrev word : ℕ
  word = load_word a i

  abbrev bit : ℕ
  bit = find_free_bit word

  module _ (open_ : word ≢ full) where
    pub lowest : LowestZero 64 word bit
    lowest = find_free_bit-LowestZero word (omega (arith, v.words i))

    global : ℕ
    global = i * 64 + bit

    pub global-div : (i * 64 + bit) / 64 ≡ i
    global-div = omega (arith, lowest.within)

    pub global-mod : (i * 64 + bit) % 64 ≡ bit
    global-mod = omega (arith, lowest.within)

    -- The index of the bit does not wrap.
    global_index : u64 (u64 (i * word_bits) + bit) ≡ i * 64 + bit
    global_index = omega (arith, count-lt v, v.tight, lowest.within)

    inside_words : i < length a.bitmap
    inside_words = omega (arith, v.sized)

    -- The word with the bit put in and taken out again is the word.
    undone :
        set
          (set a.bitmap i (set_bit word bit))
          i
          (bit_and (get_or (set a.bitmap i (set_bit word bit)) i 0) (complement (2 ^ bit)))
        ≡ a.bitmap
    undone =
        rw (set-set, get_or-set_self a.bitmap i (set_bit word bit) inside_words)
          (rw
            (bit_and-clear_bit 64 (set_bit word bit) bit
              (set_bit-lt 64 word bit (v.words i) lowest.within) lowest.within)
            (rw (clear_bit-set_bit word bit lowest.zero_bit) (set-get_or a.bitmap i)))

    -- The bit lies past the last block: the word is put back.
    pub taken-past :
        a.block_count ≤ i * 64 + bit
        → taken (store_word a i (bit_or word (2 ^ bit))) i bit ≡ (a, null)
    unfolding taken
    taken-past past =
        let test : leb a.block_count (i * 64 + bit) ≡ true = ground arith in
        rw (bit_or-set_bit word bit, global_index, test)
          (ap (λ (t : List ℕ). (record a { bitmap = t }, null)) undone)

    pub taken-block :
        i * 64 + bit < a.block_count
        → taken (store_word a i (bit_or word (2 ^ bit))) i bit
          ≡ (mark a (i * 64 + bit), a.memory + (i * 64 + bit) * a.block_size)
    unfolding taken
    taken-block inside =
        let test : leb a.block_count (i * 64 + bit) ≡ false = ground arith in
        rw (bit_or-set_bit word bit, global_index, test, global-div, global-mod)
          (ap (λ (t : ℕ). (record a { bitmap = set a.bitmap i (set_bit word bit); hint = i }, t))
            (index_to_ptr-eq v (i * 64 + bit) inside))

-- However often the compare-exchange fails, the loop ends as its first success does.
pub claim-taken :
    (s : ℕ) (a : BitmapAllocator) (i : ℕ)
    → claim s a i (load_word a i)
      ≡ taken
          (store_word a i (bit_or (load_word a i) (2 ^ find_free_bit (load_word a i))))
          i
          (find_free_bit (load_word a i))
unfolding claim
claim-taken zero a i = refl
claim-taken (suc s) a i = claim-taken s a i
