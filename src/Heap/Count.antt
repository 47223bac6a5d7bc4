-- ===== src/Heap/Count.antt =====
-- How often a block stands in a list: the view of a list that forgets its order.
use mathlib.Core.List.{reverse_aux}
use pool_memalloc.Common.{
  ℕ, zero, suc, ◌+◌, ◌≤◌, ◌≡◌, refl, true, false, List, [], ◌∷◌, ◌++◌, ◌==◌, if◌then◌else◌, arith,
  take, drop, length, ℕ_discrete,
}
use pool_memalloc.Heap.{Ptr}
use pool_memalloc.Heap.Chain.{has, Distinct}

abbrev pub count : Ptr → List Ptr → ℕ
count a [] = 0
count a (x ∷ xs) = (if a == x then 1 else 0) + count a xs

pub count-append : (a : Ptr) (xs ys : List Ptr) → count a (xs ++ ys) ≡ count a xs + count a ys
count-append a [] ys = omega arith
count-append a (x ∷ xs) ys = omega (arith, count-append a xs ys)

pub count-take-drop :
    (a n : ℕ) (xs : List Ptr) → count a (take n xs) + count a (drop n xs) ≡ count a xs
count-take-drop a zero xs = omega arith
count-take-drop a (suc n) [] = omega arith
count-take-drop a (suc n) (x ∷ xs) = omega (arith, count-take-drop a n xs)

pub count-reverse_aux :
    (a : Ptr) (xs ys : List Ptr) → count a (reverse_aux xs ys) ≡ count a xs + count a ys
count-reverse_aux a [] ys = omega arith
count-reverse_aux a (x ∷ xs) ys = omega (arith, count-reverse_aux a xs (x ∷ ys))

pub has_of_count : (a : Ptr) (xs : List Ptr) → count a xs ≡ 0 → has a xs ≡ false
has_of_count a [] h = refl
has_of_count a (x ∷ xs) h = ground (arith, has_of_count a xs)

pub count_of_has : (a : Ptr) (xs : List Ptr) → has a xs ≡ true → 1 ≤ count a xs
count_of_has a [] h = cc
count_of_has a (x ∷ xs) h = ground (arith, count_of_has a xs)

pub count_of_not_has : (a : Ptr) (xs : List Ptr) → has a xs ≡ false → count a xs ≡ 0
count_of_not_has a [] h = refl
count_of_not_has a (x ∷ xs) h = ground (arith, count_of_not_has a xs)

pub Distinct-of_count : (xs : List Ptr) → ((a : Ptr) → count a xs ≤ 1) → Distinct xs
Distinct-of_count [] once = tt
Distinct-of_count (x ∷ xs) once =
    (has_of_count x xs (ground (arith, once x)), Distinct-of_count xs (λ a. omega (arith, once a)))

pub length-reverse_aux : (xs ys : List Ptr) → length (reverse_aux xs ys) ≡ length xs + length ys
length-reverse_aux [] ys = omega arith
length-reverse_aux (x ∷ xs) ys = omega (arith, length-reverse_aux xs (x ∷ ys))

-- A list with one occurrence of `a` taken out.
without :
    (a : Ptr) (ys : List Ptr)
    → 1 ≤ count a ys
    → (zs : List Ptr) × (length ys ≡ suc (length zs))
      × ((x : Ptr) → count x ys ≡ (if x == a then 1 else 0) + count x zs)
without a [] h = absurd (omega arith)
without a (y ∷ ys) h = elim (ℕ_discrete a y) [
  | yes e ↦ (ys, refl, λ x. rw e refl)
  | no ne ↦
      let (zs, l, c) = without a ys (ground (arith, h, ne)) in
      (y ∷ zs, omega (arith, l), λ x. omega (arith, c x))
]

-- What counts less is shorter.
pub length-le_of_count :
    (xs ys : List Ptr) → ((x : Ptr) → count x xs ≤ count x ys) → length xs ≤ length ys
length-le_of_count [] ys h = omega arith
length-le_of_count (x ∷ xs) ys h =
    let (zs, l, c) = without x ys (ground (arith, h x)) in
    omega (arith, l, length-le_of_count xs zs (λ a. omega (arith, h a, c a)))
