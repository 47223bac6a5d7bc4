-- ===== src/Bitmap/Threads.antt =====
-- `alloc` and `dealloc` of src/bitmap_allocator.cpp in any number of threads at once. A move is one
-- access to shared memory, or what a thread does between two of them: a load of the hint or of a
-- word, a compare-exchange that succeeds or fails, a `fetch_and`, a store of the hint. Accesses take
-- effect one after the other.
pub mod Invariant
pub mod Word
pub mod Moves
pub mod Safety
mod Tests
use Prim.Native.Nat.{bit_and, bit_or}
use pool_memalloc.Common.{
  ℕ, ◌+◌, ◌*◌, ◌/◌, ◌%◌, ◌^◌, ◌<◌, ◌≡◌, ◌≢◌, Bool, true, false, List, leb, ltb, get_or, set,
}
use pool_memalloc.Common.Words.{u64, full, complement}
use pool_memalloc.Common.Family.{update}
use pool_memalloc.Bitmap.{
  Ptr, BitmapAllocator, word_bits, find_free_bit, index_to_ptr, ptr_to_index,
}

-- What the threads share: `m_bitmap`, `m_hint`, and which blocks the program holds, which no code
-- reads.
pub record Shared : Type 0 where
  pub bitmap : List ℕ
  pub hint : ℕ
  pub held : Ptr → Bool

-- Where a thread stands, with its local variables.
pub data Pc : Type 0 where
  idle : Pc
  starting : Pc  -- before the load of the hint
  scanning : (start probe : ℕ) → Pc  -- head of the loop over the probes
  trying : (start probe word : ℕ) → Pc  -- head of the loop `while (word != FULL)`
  claimed : (word_index free_bit : ℕ) → Pc  -- after the compare-exchange
  freeing : (ptr : Ptr) → Pc  -- before the `fetch_and` of `dealloc`
  hinting : (word_index : ℕ) → Pc  -- before the store of the hint in `dealloc`

abbrev pub fetch_and : Shared → (word_index mask : ℕ) → Shared
fetch_and m i mask = record m { bitmap = set m.bitmap i (bit_and (get_or m.bitmap i 0) mask) }

-- The members that the constructor sets are those of `a`.
module _ (a : BitmapAllocator) where
  abbrev pub word_index_of : (start probe : ℕ) → ℕ
  word_index_of start probe = u64 (start + probe) % a.word_count

  abbrev pub global_index : (word_index free_bit : ℕ) → ℕ
  global_index i b = u64 (u64 (i * word_bits) + b)

  -- A failed compare-exchange has no premise on memory: it may fail for no reason.
  pub data Move (m : Shared) : Pc → Shared → Pc → Type 0 where
    begin_alloc : Move m idle m starting
    load_hint : Move m starting m (scanning m.hint 0)
    exhausted :
        {start probe : ℕ} → leb a.word_count probe ≡ true → Move m (scanning start probe) m idle
    load :
        {start probe : ℕ}
        → leb a.word_count probe ≡ false
        → Move m
            (scanning start probe)
            m
            (trying start probe (get_or m.bitmap (word_index_of start probe) 0))
    next_word : {start probe : ℕ} → Move m (trying start probe full) m (scanning start (probe + 1))
    swap :
        {start probe word : ℕ}
        → word ≢ full
        → get_or m.bitmap (word_index_of start probe) 0 ≡ word
        → Move m
            (trying start probe word)
            (record m {
              bitmap =
                  set m.bitmap (word_index_of start probe) (bit_or word (2 ^ find_free_bit word));
            })
            (claimed (word_index_of start probe) (find_free_bit word))
    fail :
        {start probe word : ℕ}
        → word ≢ full
        → Move m
            (trying start probe word)
            m
            (trying start probe (get_or m.bitmap (word_index_of start probe) 0))
    -- `alloc` returns `nullptr`.
    put_back :
        {i b : ℕ}
        → leb a.block_count (global_index i b) ≡ true
        → Move m (claimed i b) (fetch_and m i (complement (2 ^ b))) idle
    -- `alloc` stores the hint and returns the block.
    hand_out :
        {i b : ℕ}
        → leb a.block_count (global_index i b) ≡ false
        → Move m
            (claimed i b)
            (record m { hint = i; held = update m.held (index_to_ptr a (global_index i b)) true })
            idle
    begin_dealloc :
        (ptr : Ptr)
        → m.held ptr ≡ true
        → Move m idle (record m { held = update m.held ptr false }) (freeing ptr)
    clear :
        {ptr : Ptr}
        → Move m
            (freeing ptr)
            (fetch_and m
              (ptr_to_index a ptr / word_bits)
              (complement (2 ^ (ptr_to_index a ptr % word_bits))))
            (hinting (ptr_to_index a ptr / word_bits))
    store_hint : {i : ℕ} → Move m (hinting i) (record m { hint = i }) idle

pub record System : Type 0 where
  pub mem : Shared
  pub pc : ℕ → Pc

-- One of the `n` threads moves.
pub data Step (a : BitmapAllocator) (n : ℕ) (s : System) : System → Type 0 where
  pick :
      (i : ℕ) {m : Shared} {p : Pc}
      → i < n
      → Move a s.mem (s.pc i) m p
      → Step a n s (record { mem = m; pc = update s.pc i p })

-- The program has no block yet.
abbrev pub start : BitmapAllocator → System
start a = record {
  mem = record { bitmap = a.bitmap; hint = a.hint; held = λ p. false };
  pc = λ i. Pc.idle;
}

pub data Reach (a : BitmapAllocator) (n : ℕ) : System → Type 0 where
  here : Reach a n (start a)
  later : {s t : System} → Reach a n s → Step a n s t → Reach a n t
