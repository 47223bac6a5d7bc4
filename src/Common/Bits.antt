-- ===== src/Common/Bits.antt =====
-- The bits of a word: what `|` by a one-bit mask and `&` by its complement do to each bit.
mod Step
pub use Step.{bit_and_step}
use Step.{bit_or_step, bit_or-zero}
use Prim.Native.Nat.{max, digits, bitwise, bit_and-bitwise, bit_or-bitwise, bit_and, bit_or}
use Prim.Native.Nat.{ℕ, zero, suc, ◌+◌, ◌-◌, ◌*◌, ◌/◌, ◌%◌, ◌^◌, ◌≤◌, ◌<◌, min}
use mathlib.Core.Path.{◌≡◌, refl, ap}
use mathlib.Core.Logic.{◌≢◌, inl, inr}
use mathlib.Core.Bool.{Bool, true, false}
use native.Mathlib.Omega.{arith}
use native.Mathlib.Nat.{pow-suc, one-le-pow, pow-le-pow_right}
use pool_memalloc.Common.Tests.{◌==◌, if◌then◌else◌, Bool-cases}

-- Bit `i` of `w`, by recursion on the digits.
unfoldable pub test_bit : ℕ → ℕ → Bool
test_bit w zero = w % 2 == 1
test_bit w (suc i) = test_bit (w / 2) i

unfoldable pub set_bit : ℕ → ℕ → ℕ
set_bit w zero = w / 2 * 2 + 1
set_bit w (suc i) = set_bit (w / 2) i * 2 + w % 2

unfoldable pub clear_bit : ℕ → ℕ → ℕ
clear_bit w zero = w / 2 * 2
clear_bit w (suc i) = clear_bit (w / 2) i * 2 + w % 2

-- The number of zeros below the lowest one of the `n`-bit word `x`; `n` where `x` is 0.
unfoldable pub count_trailing_zeros : ℕ → ℕ → ℕ
count_trailing_zeros zero x = 0
count_trailing_zeros (suc n) x =
    let rest = suc (count_trailing_zeros n (x / 2)) in if x % 2 == 1 then 0 else rest

double : (i : ℕ) → 2 ^ suc i ≡ 2 * 2 ^ i
double i = omega (arith, pow-suc 2 i)

pub bit_or-set_bit : (w i : ℕ) → bit_or w (2 ^ i) ≡ set_bit w i
unfolding set_bit
bit_or-set_bit w zero = omega (arith, bit_or_step w 1, bit_or-zero (w / 2))
bit_or-set_bit w (suc i) =
    rw (double i)
      (ground (arith, bit_or_step w (2 * 2 ^ i), bit_or-set_bit (w / 2) i, half (2 ^ i)))
  where
    half : (t : ℕ) → 2 * t / 2 ≡ t
    half t = omega arith

halved-ones : (n : ℕ) → (2 ^ suc n - 1) / 2 ≡ 2 ^ n - 1
halved-ones n = omega (arith, double n)

two-pow-lt : (i n : ℕ) → i < n → 2 ^ i < 2 ^ n
two-pow-lt i n h =
    omega (
      arith,
      double i,
      one-le-pow i 2,
      pow-le-pow_right {n = 2} (omega arith) {i = suc i} {j = n} h,
    )

-- A number below `2 ^ n` has no digit that the mask of `n` ones would take away.
pub bit_and-ones : (n w : ℕ) → w < 2 ^ n → bit_and w (2 ^ n - 1) ≡ w
bit_and-ones zero w small = let e : w ≡ 0 = omega arith in rw e refl
bit_and-ones (suc n) w small = omega (
  arith,
  bit_and_step w (2 ^ suc n - 1),
  bit_and-ones n (w / 2) (omega (arith, double n)),
  ap (bit_and (w / 2)) (halved-ones n),
  double n,
  one-le-pow n 2,
)

-- `& ~mask` in an `n`-bit word.
pub bit_and-clear_bit :
    (n w i : ℕ) → w < 2 ^ n → i < n → bit_and w (2 ^ n - 1 - 2 ^ i) ≡ clear_bit w i
unfolding clear_bit
bit_and-clear_bit zero w i small h = elim h [ ]
bit_and-clear_bit (suc n) w zero small h = omega (
  arith,
  bit_and_step w (2 ^ suc n - 1 - 1),
  bit_and-ones n (w / 2) (omega (arith, double n)),
  ap (bit_and (w / 2)) halved,
  double n,
)
  where
    halved : (2 ^ suc n - 1 - 1) / 2 ≡ 2 ^ n - 1
    halved = omega (arith, double n)
bit_and-clear_bit (suc n) w (suc i) small h = omega (
  arith,
  bit_and_step w (2 ^ suc n - 1 - 2 ^ suc i),
  bit_and-clear_bit n (w / 2) i (omega (arith, double n)) (omega arith),
  ap (bit_and (w / 2)) halved,
  odd,
)
  where
    halved : (2 ^ suc n - 1 - 2 ^ suc i) / 2 ≡ 2 ^ n - 1 - 2 ^ i
    halved = omega (arith, double n, double i)

    odd : (2 ^ suc n - 1 - 2 ^ suc i) % 2 ≡ 1
    odd = omega (arith, double n, double i, two-pow-lt i n (omega arith))

-- The digits of `q * 2 + r` for a digit `r`.
digits-snoc : (q r : ℕ) → ((q * 2 + r % 2) / 2 ≡ q) × ((q * 2 + r % 2) % 2 ≡ r % 2)
digits-snoc q r = omega arith

pub test_bit-set_bit :
    (w i j : ℕ) → test_bit (set_bit w i) j ≡ (if i == j then true else test_bit w j)
unfolding test_bit set_bit
test_bit-set_bit w zero zero = ground arith
test_bit-set_bit w zero (suc j) = rw ((digits-snoc (w / 2) 1).0) (ground arith)
test_bit-set_bit w (suc i) zero = ground (arith, digits-snoc (set_bit (w / 2) i) w)
test_bit-set_bit w (suc i) (suc j) =
    rw ((digits-snoc (set_bit (w / 2) i) w).0) (ground (arith, test_bit-set_bit (w / 2) i j))

pub test_bit-clear_bit :
    (w i j : ℕ) → test_bit (clear_bit w i) j ≡ (if i == j then false else test_bit w j)
unfolding test_bit clear_bit
test_bit-clear_bit w zero zero = ground arith
test_bit-clear_bit w zero (suc j) =
    let e : w / 2 * 2 / 2 ≡ w / 2 = omega arith in rw e (ground arith)
test_bit-clear_bit w (suc i) zero = ground (arith, digits-snoc (clear_bit (w / 2) i) w)
test_bit-clear_bit w (suc i) (suc j) =
    rw ((digits-snoc (clear_bit (w / 2) i) w).0) (ground (arith, test_bit-clear_bit (w / 2) i j))

pub set_bit-lt : (n w i : ℕ) → w < 2 ^ n → i < n → set_bit w i < 2 ^ n
unfolding set_bit
set_bit-lt zero w i small h = elim h [ ]
set_bit-lt (suc n) w zero small h = omega (arith, double n)
set_bit-lt (suc n) w (suc i) small h =
    omega (arith, double n, set_bit-lt n (w / 2) i (omega (arith, double n)) (omega arith))

pub clear_bit-le : (w i : ℕ) → clear_bit w i ≤ w
unfolding clear_bit
clear_bit-le w zero = omega arith
clear_bit-le w (suc i) = omega (arith, clear_bit-le (w / 2) i)

-- The lowest zero of an `n`-bit word that has one.
pub record LowestZero (n w i : ℕ) : Type 0 where
  pub within : i < n
  pub zero_bit : test_bit w i ≡ false
  pub below : (j : ℕ) → j < i → test_bit w j ≡ true

LowestZero-odd : (n w i : ℕ) → w % 2 ≡ 1 → LowestZero n (w / 2) i → LowestZero (suc n) w (suc i)
unfolding test_bit
LowestZero-odd n w i one z = record {
  within = omega (arith, z.within);
  zero_bit = z.zero_bit;
  below = go;
}
  where
    go : (j : ℕ) → j < suc i → test_bit w j ≡ true
    go zero h = ground arith
    go (suc j) h = z.below j (omega arith)

LowestZero-even : (n w : ℕ) → w % 2 ≡ 0 → LowestZero (suc n) w 0
unfolding test_bit
LowestZero-even n w even = record {
  within = omega arith;
  zero_bit = ground arith;
  below = λ j h. absurd (omega arith);
}

-- The trailing zeros of the complement are the trailing ones of the word.
pub count_trailing_zeros-LowestZero :
    (n w : ℕ) → w < 2 ^ n - 1 → LowestZero n w (count_trailing_zeros n (2 ^ n - 1 - w))
unfolding count_trailing_zeros
count_trailing_zeros-LowestZero zero w h = absurd (omega arith)
count_trailing_zeros-LowestZero (suc n) w h = elim (Bool-cases (w % 2 == 1)) [
  | inl one ↦
      let odd : ((2 ^ suc n - 1 - w) % 2 == 1) ≡ false = ground (arith, double n) in
      rw (odd, halved)
        (LowestZero-odd n w _ (ground arith)
          (count_trailing_zeros-LowestZero n (w / 2) (ground (arith, double n))))
  | inr nil ↦
      let even : ((2 ^ suc n - 1 - w) % 2 == 1) ≡ true = ground (arith, double n) in
      rw even (LowestZero-even n w (ground arith))
]
  where
    halved : (2 ^ suc n - 1 - w) / 2 ≡ 2 ^ n - 1 - w / 2
    halved = omega (arith, double n)

-- Every bit of the full word is set.
pub test_bit-ones : (n i : ℕ) → i < n → test_bit (2 ^ n - 1) i ≡ true
unfolding test_bit
test_bit-ones zero i h = elim h [ ]
test_bit-ones (suc n) zero h = ground (arith, double n, one-le-pow n 2)
test_bit-ones (suc n) (suc i) h =
    let e : (2 ^ suc n - 1) / 2 ≡ 2 ^ n - 1 = omega (arith, double n) in
    rw e (test_bit-ones n i (omega arith))

pub test_bit-zero : (i : ℕ) → test_bit 0 i ≡ false
unfolding test_bit
test_bit-zero zero = refl
test_bit-zero (suc i) = test_bit-zero i

pub clear_bit-set_bit : (w i : ℕ) → test_bit w i ≡ false → clear_bit (set_bit w i) i ≡ w
unfolding test_bit set_bit clear_bit
clear_bit-set_bit w zero h = ground arith
clear_bit-set_bit w (suc i) h = omega (
  arith,
  digits-snoc (set_bit (w / 2) i) w,
  clear_bit-set_bit (w / 2) i h,
  ap (λ (t : ℕ). clear_bit t i) ((digits-snoc (set_bit (w / 2) i) w).0),
)

pub set_bit-clear_bit : (w i : ℕ) → test_bit w i ≡ true → set_bit (clear_bit w i) i ≡ w
unfolding test_bit set_bit clear_bit
set_bit-clear_bit w zero h = ground arith
set_bit-clear_bit w (suc i) h = omega (
  arith,
  digits-snoc (clear_bit (w / 2) i) w,
  set_bit-clear_bit (w / 2) i h,
  ap (λ (t : ℕ). set_bit t i) ((digits-snoc (clear_bit (w / 2) i) w).0),
)

-- A word that has a zero among its `n` bits is not the full one.
pub test_bit-ne-full : (n w i : ℕ) → i < n → test_bit w i ≡ false → w ≢ 2 ^ n - 1
test_bit-ne-full n w i h out e = cc (test_bit-ones n i h)

pub clear_bit_idem : (w i : ℕ) → clear_bit (clear_bit w i) i ≡ clear_bit w i
unfolding clear_bit
clear_bit_idem w zero = omega arith
clear_bit_idem w (suc i) = omega (
  arith,
  digits-snoc (clear_bit (w / 2) i) w,
  clear_bit_idem (w / 2) i,
  ap (λ (t : ℕ). clear_bit t i) ((digits-snoc (clear_bit (w / 2) i) w).0),
)
