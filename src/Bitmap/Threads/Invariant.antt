-- ===== src/Bitmap/Threads/Invariant.antt =====
-- What holds of the bitmap between any two accesses of its threads.
use pool_memalloc.Common.{
  ℕ, ◌+◌, ◌*◌, ◌^◌, ◌≤◌, ◌<◌, ◌≡◌, Bool, true, ◌==◌, if◌then◌else◌, length, get_or, arith,
}
use pool_memalloc.Common.Family.{total}
use pool_memalloc.Bitmap.{Ptr, BitmapAllocator}
use pool_memalloc.Bitmap.Valid.{allocated_in, IsValid}
use pool_memalloc.Bitmap.Word.{count-lt}
use pool_memalloc.Bitmap.Dealloc.{address}
use pool_memalloc.Bitmap.Threads.{
  Pc, idle, starting, scanning, trying, claimed, freeing, hinting, System, global_index,
}

abbrev pub bit : Bool → ℕ
bit b = if b then 1 else 0

module _ (a : BitmapAllocator) where
  -- The bit that a thread has set and not yet answered for, or that it is about to clear.
  abbrev pub owns : ℕ → Pc → ℕ
  owns j idle = 0
  owns j starting = 0
  owns j (scanning start probe) = 0
  owns j (trying start probe word) = 0
  owns j (claimed i b) = bit (i * 64 + b == j)
  owns j (freeing p) = bit (p == address a j)
  owns j (hinting i) = 0

  -- How many hold bit `j`: the program, and threads.
  abbrev pub holders : ℕ → System → ℕ → ℕ
  holders n s j = bit (s.mem.held (address a j)) + total (owns j) n s.pc

  -- The address of a block.
  abbrev pub IsBlock : Ptr → Type 0
  IsBlock p = (j : ℕ) × (j < a.block_count) × (p ≡ address a j)

  abbrev pub Knows : Pc → Type 0
  Knows idle = Unit {0}
  Knows starting = Unit {0}
  Knows (scanning start probe) = Unit {0}
  Knows (trying start probe word) = (probe < a.word_count) × (word < 2 ^ 64)
  Knows (claimed i b) = (i < a.word_count) × (b < 64)
  Knows (freeing p) = IsBlock p
  Knows (hinting i) = i ≤ a.word_count

  -- A bit is set as long as someone holds it, and then one alone.
  pub record IsSound (n : ℕ) (s : System) : Type 0 where
    pub sized : length s.mem.bitmap ≡ a.word_count
    pub words : (i : ℕ) → get_or s.mem.bitmap i 0 < 2 ^ 64
    pub hinted : s.mem.hint ≤ a.word_count
    pub once : (j : ℕ) → bit (allocated_in s.mem.bitmap j) ≡ holders n s j
    pub known : (p : Ptr) → s.mem.held p ≡ true → IsBlock p
    pub knows : (i : ℕ) → i < n → Knows (s.pc i)

module _ {a : BitmapAllocator} (v : IsValid a) where
  pub global_index_lem : (i b : ℕ) → i < a.word_count → b < 64 → global_index a i b ≡ i * 64 + b
  global_index_lem i b h l = omega (arith, count-lt v, v.tight)
