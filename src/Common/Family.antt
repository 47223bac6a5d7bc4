-- ===== src/Common/Family.antt =====
-- Families indexed by thread: a change at one index, and sums over the first `n`.
use Prim.Native.Nat.{ℕ, zero, suc, ◌+◌, ◌≤◌, ◌<◌}
use mathlib.Core.Path.{◌≡◌, refl, sym, ap}
use mathlib.Core.Logic.{◌≢◌}
use native.Mathlib.Decide.{ℕ_discrete}
use native.Mathlib.Omega.{arith}
use pool_memalloc.Common.Tests.{◌==◌, if◌then◌else◌}

abbrev pub update {ℓ} : {A : Type ℓ} → (ℕ → A) → ℕ → A → ℕ → A
update f p v q = if q == p then v else f q

pub update_self {ℓ} : {A : Type ℓ} (f : ℕ → A) (p : ℕ) (v : A) → update f p v p ≡ v
update_self f p v = ground arith

pub update_ne {ℓ} : {A : Type ℓ} (f : ℕ → A) (p q : ℕ) (v : A) → q ≢ p → update f p v q ≡ f q
update_ne f p q v ne = ground arith

module _ {ℓ} {A : Type ℓ} (weight : A → ℕ) where
  -- The sum over the indices below `k`.
  unfoldable pub total : (k : ℕ) → (ℕ → A) → ℕ
  total zero family = 0
  total (suc k) family = weight (family k) + total k family

  total-agree : (k : ℕ) (f g : ℕ → A) → ((j : ℕ) → j < k → f j ≡ g j) → total k f ≡ total k g
  unfolding total
  total-agree zero f g same = refl
  total-agree (suc k) f g same =
      omega
        (arith, total-agree k f g (λ j h. same j (omega arith)), ap weight (same k (omega arith)))

  pub total-update :
      (k : ℕ) (f : ℕ → A) (j : ℕ) (new : A)
      → j < k
      → total k (update f j new) + weight (f j) ≡ weight new + total k f
  unfolding total
  total-update zero f j new h = elim h [ ]
  total-update (suc k) f j new h = elim (ℕ_discrete j k) [
    | yes top ↦ rw top (
        omega (
          arith,
          total-agree k (update f k new) f (λ i l. update_ne f k i new (omega arith)),
          ap weight (update_self f k new),
        ))
    | no lower ↦ omega (
      arith,
      total-update k f j new (omega arith),
      ap weight (update_ne f j k new (λ e. lower (sym e))),
    )
  ]

  pub le-total : (k : ℕ) (f : ℕ → A) (j : ℕ) → j < k → weight (f j) ≤ total k f
  unfolding total
  le-total zero f j h = elim h [ ]
  le-total (suc k) f j h = elim (ℕ_discrete j k) [
    | yes top ↦ rw top (omega arith)
    | no lower ↦ omega (arith, le-total k f j (omega arith))
  ]

  -- Two indices count apart.
  pub le-total_two :
      (k : ℕ) (f : ℕ → A) (i j : ℕ)
      → i < k
      → j < k
      → i ≢ j
      → weight (f i) + weight (f j) ≤ total k f
  unfolding total
  le-total_two zero f i j hi hj ne = elim hi [ ]
  le-total_two (suc k) f i j hi hj ne = elim (ℕ_discrete i k) [
    | yes top ↦ rw top (omega (arith, le-total k f j (omega arith)))
    | no lower ↦ elim (ℕ_discrete j k) [
      | yes top ↦ rw top (omega (arith, le-total k f i (omega arith)))
      | no lower' ↦ omega (arith, le-total_two k f i j (omega arith) (omega arith) ne)
    ]
  ]

  pub total-zero : (k : ℕ) (f : ℕ → A) → ((j : ℕ) → j < k → weight (f j) ≡ 0) → total k f ≡ 0
  unfolding total
  total-zero zero f none_ = refl
  total-zero (suc k) f none_ =
      omega (arith, none_ k (omega arith), total-zero k f (λ j h. none_ j (omega arith)))

  -- Where no index weighs more than 1, and no two weigh anything, neither do all.
  pub total-once :
      (k : ℕ) (f : ℕ → A)
      → ((j : ℕ) → j < k → weight (f j) ≤ 1)
      → ((i j : ℕ) → i < k → j < k → i ≢ j → 1 ≤ weight (f i) → weight (f j) ≡ 0)
      → total k f ≤ 1
  unfolding total
  total-once zero f one apart = omega arith
  total-once (suc k) f one apart = elim (ℕ_discrete (weight (f k)) 0) [
    | yes e ↦ omega (
      arith,
      total-once k f (λ j h. one j (omega arith))
          (λ i j h l. apart i j (omega arith) (omega arith)),
    )
    | no ne ↦ omega (
      arith,
      one k (omega arith),
      total-zero k f (λ j h. apart k j (omega arith) (omega arith) (omega arith) (omega arith)),
    )
  ]
