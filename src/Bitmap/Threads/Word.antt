-- ===== src/Bitmap/Threads/Word.antt =====
-- A word of the bitmap with one bit set or cleared: its bound, and the bits of the bitmap.
use Prim.Native.Nat.{bit_and, bit_or}
use pool_memalloc.Common.{
  ℕ, ◌+◌, ◌*◌, ◌^◌, ◌<◌, ◌≡◌, true, false, List, ◌==◌, if◌then◌else◌, length, get_or, set, arith,
}
use pool_memalloc.Common.Bits.{
  set_bit, clear_bit, bit_or-set_bit, bit_and-clear_bit, set_bit-lt, clear_bit-le,
}
use pool_memalloc.Common.Words.{complement}
use pool_memalloc.Bitmap.Valid.{allocated_in, get_or-set, allocated-set_bit, allocated-clear_bit}

module _ (bitmap : List ℕ) (w b : ℕ) (inside : w < length bitmap) (small : b < 64)
    (words : (k : ℕ) → get_or bitmap k 0 < 2 ^ 64) where
  pub set-words : (k : ℕ) → get_or (set bitmap w (bit_or (get_or bitmap w 0) (2 ^ b))) k 0 < 2 ^ 64
  set-words k = rw (bit_or-set_bit (get_or bitmap w 0) b) (
      ground (
        arith,
        get_or-set bitmap w k (set_bit (get_or bitmap w 0) b),
        words k,
        set_bit-lt 64 (get_or bitmap w 0) b (words w) small,
      ))

  pub set-allocated :
      (j : ℕ)
      → allocated_in (set bitmap w (bit_or (get_or bitmap w 0) (2 ^ b))) j
        ≡ (if w * 64 + b == j then true else allocated_in bitmap j)
  set-allocated j =
      rw (bit_or-set_bit (get_or bitmap w 0) b) (allocated-set_bit bitmap w b j inside small)

  cleared : bit_and (get_or bitmap w 0) (complement (2 ^ b)) ≡ clear_bit (get_or bitmap w 0) b
  cleared = bit_and-clear_bit 64 (get_or bitmap w 0) b (words w) small

  pub clear-words :
      (k : ℕ)
      → get_or (set bitmap w (bit_and (get_or bitmap w 0) (complement (2 ^ b)))) k 0 < 2 ^ 64
  clear-words k = rw cleared (
      ground (
        arith,
        get_or-set bitmap w k (clear_bit (get_or bitmap w 0) b),
        words k,
        words w,
        clear_bit-le (get_or bitmap w 0) b,
      ))

  pub clear-allocated :
      (j : ℕ)
      → allocated_in (set bitmap w (bit_and (get_or bitmap w 0) (complement (2 ^ b)))) j
        ≡ (if w * 64 + b == j then false else allocated_in bitmap j)
  clear-allocated j = rw cleared (allocated-clear_bit bitmap w b j inside small)
