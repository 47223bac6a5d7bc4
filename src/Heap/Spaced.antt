-- ===== src/Heap/Spaced.antt =====
-- Blocks that do not overlap.
use pool_memalloc.Common.{
  ℕ, ◌+◌, ◌≤◌, ◌≡◌, ◌⊎◌, inl, inr, true, false, List, [], ◌∷◌, ◌++◌, arith, Bool-cases,
}
use pool_memalloc.Heap.{Ptr}
use pool_memalloc.Heap.Chain.{has, Distinct, has-append}

-- `sizeof` the member `next` of `struct FreeBlock`.
abbrev pub size_of_next : ℕ
size_of_next = 8

-- Any two blocks of the list are at least `gap` bytes apart.
abbrev pub Spaced : (gap : ℕ) → List Ptr → Type 0
Spaced gap [] = Unit
Spaced gap (p ∷ xs) = ((a : Ptr) → has a xs ≡ true → (p + gap ≤ a) ⊎ (a + gap ≤ p)) × Spaced gap xs

module _ (gap : ℕ) (wide : 1 ≤ gap) where
  pub Spaced-out :
      (p : Ptr) (xs : List Ptr)
      → ((a : Ptr) → has a xs ≡ true → (p + gap ≤ a) ⊎ (a + gap ≤ p))
      → has p xs ≡ false
  Spaced-out p xs apart = elim (Bool-cases (has p xs)) [
    | inl there ↦ elim (apart p there) [
      | inl low ↦ absurd (omega arith)
      | inr high ↦ absurd (omega arith)
    ]
    | inr gone ↦ gone
  ]

  pub Spaced-Distinct : (xs : List Ptr) → Spaced gap xs → Distinct xs
  Spaced-Distinct [] s = tt
  Spaced-Distinct (p ∷ xs) (apart, s) = (Spaced-out p xs apart, Spaced-Distinct xs s)

  pub Spaced-append :
      (xs ys : List Ptr)
      → Spaced gap (xs ++ ys)
      → Spaced gap xs × Spaced gap ys × ((a : Ptr) → has a xs ≡ true → has a ys ≡ false)
  Spaced-append [] ys s = (tt, s, λ a h. absurd (ground (arith, h)))
  Spaced-append (p ∷ xs) ys (apart, s) =
      let (left, right, none_) = Spaced-append xs ys s in
      (
        (λ a h. apart a (ground (arith, h, has-append a xs ys)), left),
        right,
        λ a h. ground (
          arith,
          h,
          none_ a,
          Spaced-out p (xs ++ ys) apart,
          has-append p xs ys,
          has-append a xs ys,
        ),
      )
