-- ===== src/Bench/Decimal.antt =====
-- Decimal numbers, for the tests of `parse_args`: how a number is written, and what `std::strtoull`
-- makes of a text in base 10. It reads the digits in front, and gives `ULLONG_MAX` for a number that
-- is too large.
use Prim.Native.Char.{Char, code}
use Prim.Native.String.{String, [], ◌∷◌}
use native.Mathlib.Nat.{pow-suc}
use pool_memalloc.Common.{
  ℕ, zero, suc, ◌+◌, ◌-◌, ◌*◌, ◌/◌, ◌%◌, ◌^◌, ◌<◌, ◌≡◌, refl, ap, ◌∙◌, true, inl, inr, ltb, leb,
  ◌&&◌, if◌then◌else◌, arith, Bool-cases,
}

abbrev digit : ℕ → Char
digit zero = "0"
digit (suc zero) = "1"
digit (suc (suc zero)) = "2"
digit (suc (suc (suc zero))) = "3"
digit (suc (suc (suc (suc zero)))) = "4"
digit (suc (suc (suc (suc (suc zero))))) = "5"
digit (suc (suc (suc (suc (suc (suc zero)))))) = "6"
digit (suc (suc (suc (suc (suc (suc (suc zero))))))) = "7"
digit (suc (suc (suc (suc (suc (suc (suc (suc zero)))))))) = "8"
digit (suc (suc (suc (suc (suc (suc (suc (suc (suc k))))))))) = "9"

code-digit : (k : ℕ) → k < 10 → code (digit k) ≡ 48 + k
code-digit zero h = refl
code-digit (suc zero) h = refl
code-digit (suc (suc zero)) h = refl
code-digit (suc (suc (suc zero))) h = refl
code-digit (suc (suc (suc (suc zero)))) h = refl
code-digit (suc (suc (suc (suc (suc zero))))) h = refl
code-digit (suc (suc (suc (suc (suc (suc zero)))))) h = refl
code-digit (suc (suc (suc (suc (suc (suc (suc zero))))))) h = refl
code-digit (suc (suc (suc (suc (suc (suc (suc (suc zero)))))))) h = refl
code-digit (suc (suc (suc (suc (suc (suc (suc (suc (suc k))))))))) h =
    let e : k ≡ 0 = omega arith in rw e refl

-- The digits of `n` in front of `rest`, `places` at most.
print : (places n : ℕ) → String → String
print zero n rest = rest
print (suc places) n rest =
    let more = print places (n / 10) (digit (n % 10) ∷ rest) in
    if ltb n 10 then digit n ∷ rest else more

-- The number that the digits in front of a text make behind those of `n`.
scan : (n : ℕ) → String → ℕ
scan n [] = n
scan n (c ∷ s) =
    let rest = scan (n * 10 + (code c - 48)) s in
    if leb 48 (code c) && leb (code c) 57 then rest else n

scan-digit : (n k : ℕ) (s : String) → k < 10 → scan n (digit k ∷ s) ≡ scan (n * 10 + k) s
unfolding scan
scan-digit n k s h =
    let low : leb 48 (48 + k) ≡ true = ground arith in
    let high : leb (48 + k) 57 ≡ true = ground arith in
    let value : 48 + k - 48 ≡ k = omega arith in rw (code-digit k h, low, high, value) refl

scan-one :
    (places n : ℕ) (rest : String)
    → ltb n 10 ≡ true
    → scan 0 (print (suc places) n rest) ≡ scan n rest
unfolding print
scan-one places n rest small =
    let z : 0 * 10 + n ≡ n = omega arith in
    rw small (scan-digit 0 n rest (ground (arith, small)) ∙ ap (λ (t : ℕ). scan t rest) z)

scan-print :
    (places n : ℕ) (rest : String)
    → n < 10 ^ suc places
    → scan 0 (print (suc places) n rest) ≡ scan n rest
unfolding print
scan-print zero n rest h = scan-one zero n rest (ground (arith, h))
scan-print (suc places) n rest h = elim (Bool-cases (ltb n 10)) [
  | inl small ↦ scan-one (suc places) n rest small
  | inr large ↦
      let whole : n / 10 * 10 + n % 10 ≡ n = omega arith in
      rw large (
        scan-print places (n / 10) (digit (n % 10) ∷ rest)
          (omega (arith, h, pow-suc 10 (suc places)))
        ∙ scan-digit (n / 10) (n % 10) rest (omega arith)
        ∙ ap (λ (t : ℕ). scan t rest) whole)
]

-- A number below `2 ^ 64` has twenty digits at most.
unfoldable pub digits : ℕ → String
unfolding print
digits n = print 20 n []

unfoldable pub strtoull : String → ℕ
unfolding scan
strtoull s = if ltb (scan 0 s) (2 ^ 64) then scan 0 s else 2 ^ 64 - 1

pub strtoull-digits : (n : ℕ) → n < 2 ^ 64 → strtoull (digits n) ≡ n
unfolding strtoull digits scan
strtoull-digits n h =
    let e : scan 0 (print 20 n []) ≡ n = scan-print 19 n [] (omega arith) in
    let small : ltb n (2 ^ 64) ≡ true = ground arith in rw (e, small) refl
