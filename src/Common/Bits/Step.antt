-- ===== src/Common/Bits/Step.antt =====
-- One step of the native bit operations, which stand for `bitwise`, a recursion on binary digits with
-- fuel.
use Prim.Native.Nat.{max, digits, bitwise, bit_and-bitwise, bit_or-bitwise, bit_and, bit_or}
use Prim.Native.Nat.{ℕ, zero, suc, ◌+◌, ◌-◌, ◌*◌, ◌/◌, ◌%◌, ◌≤◌, ◌<◌, min}
use mathlib.Core.Path.{◌≡◌, refl, ap}
use native.Mathlib.Omega.{arith}

-- Fuel beyond the size of the first number does not matter.
module _ (rest : ℕ → ℕ) (op : ℕ → ℕ → ℕ) where
  no_digits : (k y : ℕ) → digits rest op k 0 y ≡ rest y
  no_digits zero y = refl
  no_digits (suc k) y = refl

  spare_fuel : (k more x y : ℕ) → x ≤ k → digits rest op (k + more) x y ≡ digits rest op k x y
  spare_fuel k more zero y h = cc (no_digits (k + more) y, no_digits k y)
  spare_fuel zero more (suc x) y h = absurd (omega arith)
  spare_fuel (suc k) more (suc x) y h =
      let shift : suc k + more ≡ suc (k + more) = omega arith in
      rw shift (
        ap (λ (t : ℕ). t * 2 + op (suc x % 2) (y % 2))
          (spare_fuel k more (suc x / 2) (y / 2) (omega arith)))

  lowest_digit :
      (x y : ℕ)
      → bitwise rest op (suc x) y ≡ bitwise rest op (suc x / 2) (y / 2) * 2 + op (suc x % 2) (y % 2)
  lowest_digit x y =
      let whole : suc x / 2 + (x - suc x / 2) ≡ x = omega arith in
      let enough = spare_fuel (suc x / 2) (x - suc x / 2) (suc x / 2) (y / 2) (omega arith) in
      ap (λ (t : ℕ). t * 2 + op (suc x % 2) (y % 2)) (rw whole at enough)

pub bit_and_step : (x y : ℕ) → bit_and x y ≡ min (x % 2) (y % 2) + 2 * bit_and (x / 2) (y / 2)
bit_and_step zero y = simp bit_and-bitwise (omega arith)
bit_and_step (suc x) y = simp bit_and-bitwise (omega (arith, lowest_digit (λ t. 0) min x y))

pub bit_or_step : (x y : ℕ) → bit_or x y ≡ max (x % 2) (y % 2) + 2 * bit_or (x / 2) (y / 2)
bit_or_step zero y = simp bit_or-bitwise (omega arith)
bit_or_step (suc x) y = simp bit_or-bitwise (omega (arith, lowest_digit (λ t. t) max x y))

below_or-zero : (bound x : ℕ) → x < bound → bit_or x 0 ≡ x
below_or-zero zero x h = absurd (omega arith)
below_or-zero (suc bound) zero h = refl
below_or-zero (suc bound) (suc x) h =
    omega (arith, bit_or_step (suc x) 0, below_or-zero bound (suc x / 2) (omega arith))

pub bit_or-zero : (x : ℕ) → bit_or x 0 ≡ x
bit_or-zero x = below_or-zero (suc x) x (omega arith)
