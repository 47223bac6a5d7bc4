-- ===== src/Common/Words.antt =====
-- `size_t` and `uint64_t`: numbers below 2 ^ 64 with the wrap-around written out, the full word
-- `~0ULL`, and `align_up`.
use Prim.Native.Nat.{ℕ, ◌+◌, ◌-◌, ◌*◌, ◌/◌, ◌%◌, ◌^◌, ◌≤◌, ◌<◌, bit_and}
use mathlib.Core.Path.{◌≡◌, ap}
use native.Mathlib.Omega.{arith}
use pool_memalloc.Common.Bits.{bit_and_step, bit_and-ones}

abbrev pub u64 : ℕ → ℕ
u64 n = n % 2 ^ 64

-- `a - b` on `size_t`.
abbrev pub sub64 : ℕ → ℕ → ℕ
sub64 a b = (a + 2 ^ 64 - b) % 2 ^ 64

-- `~0ULL`.
abbrev pub full : ℕ
full = 2 ^ 64 - 1

-- `~x`.
abbrev pub complement : ℕ → ℕ
complement x = full - x

-- `(val + alignment - 1) & ~(alignment - 1)`
unfoldable pub align_up : ℕ → ℕ → ℕ
align_up val alignment = bit_and (sub64 (u64 (val + alignment)) 1) (complement (sub64 alignment 1))

abbrev pub cache_line : ℕ
cache_line = 64

-- Clearing the six low digits.
pub bit_and_line : (x : ℕ) → x < 2 ^ 64 → bit_and x (complement 63) ≡ x / 64 * 64
bit_and_line x h = omega (
  arith,
  bit_and_step x (complement 63),
  bit_and_step (x / 2) (2 ^ 63 - 32),
  bit_and_step (x / 2 / 2) (2 ^ 62 - 16),
  bit_and_step (x / 2 / 2 / 2) (2 ^ 61 - 8),
  bit_and_step (x / 2 / 2 / 2 / 2) (2 ^ 60 - 4),
  bit_and_step (x / 2 / 2 / 2 / 2 / 2) (2 ^ 59 - 2),
  bit_and-ones 58 (x / 2 / 2 / 2 / 2 / 2 / 2) (omega arith),
)

pub align_up_lem : (v : ℕ) → v + 63 < 2 ^ 64 → align_up v cache_line ≡ (v + 63) / 64 * 64
unfolding align_up
align_up_lem v h =
    omega (arith, bit_and_line (v + 63) h, ap (λ (t : ℕ). bit_and t (complement 63)) same)
  where
    same : sub64 (u64 (v + 64)) 1 ≡ v + 63
    same = omega arith

-- Past the last multiple of the line the sum wraps, and the result is 0.
pub align_up_wraps : (v : ℕ) → v < 2 ^ 64 → 2 ^ 64 ≤ v + 63 → align_up v cache_line ≡ 0
unfolding align_up
align_up_wraps v small h = omega (
  arith,
  bit_and_line (v + 63 - 2 ^ 64) (omega arith),
  ap (λ (t : ℕ). bit_and t (complement 63)) same,
)
  where
    same : sub64 (u64 (v + 64)) 1 ≡ v + 63 - 2 ^ 64
    same = omega arith
