-- ===== src/Heap/Chain.antt =====
-- Chains of blocks: from an address the `next` pointers lead through the blocks of a list to
-- `nullptr`.
use mathlib.Core.Bool.{or_assoc}
use pool_memalloc.Common.{
  ℕ, zero, suc, ◌≡◌, ◌≢◌, refl, Bool, true, false, ◌||◌, List, [], ◌∷◌, ◌++◌, ◌==◌, arith, take,
  drop,
}
pub use pool_memalloc.Common.Family.{update_self, update_ne}
use pool_memalloc.Heap.{Ptr, null, update}

abbrev pub has : Ptr → List Ptr → Bool
has a [] = false
has a (p ∷ xs) = (a == p) || has a xs

-- No block stands twice in the list.
abbrev pub Distinct : List Ptr → Type 0
Distinct [] = Unit
Distinct (p ∷ xs) = (has p xs ≡ false) × Distinct xs

abbrev pub Chain : (Ptr → Ptr) → Ptr → List Ptr → Type 0
Chain next p [] = p ≡ null
Chain next p (a ∷ xs) = (p ≡ a) × (a ≢ null) × Chain next (next a) xs

-- `g` differs from `f` at most at the blocks of `xs`.
abbrev pub SameOutside : List Ptr → (Ptr → Ptr) → (Ptr → Ptr) → Type 0
SameOutside xs f g = (a : Ptr) → has a xs ≡ false → g a ≡ f a

pub has-append : (a : Ptr) (xs ys : List Ptr) → has a (xs ++ ys) ≡ (has a xs || has a ys)
has-append a [] ys = refl
has-append a (x ∷ xs) ys = rw (has-append a xs ys, or_assoc)

-- A chain survives a change that spares its blocks.
pub Chain-frame :
    (f g : Ptr → Ptr) (p : Ptr) (xs : List Ptr)
    → ((a : Ptr) → has a xs ≡ true → g a ≡ f a)
    → Chain f p xs
    → Chain g p xs
Chain-frame f g p [] same c = c
Chain-frame f g p (x ∷ xs) same (e, ne, c) =
    let s : g x ≡ f x = same x (ground arith) in
    (e, ne, rw s (Chain-frame f g (f x) xs (λ a h. same a (ground arith)) c))

pub Chain-outside :
    (f g : Ptr → Ptr) (p : Ptr) (xs ys : List Ptr)
    → SameOutside ys f g
    → ((a : Ptr) → has a xs ≡ true → has a ys ≡ false)
    → Chain f p xs
    → Chain g p xs
Chain-outside f g p xs ys same apart = Chain-frame f g p xs (λ a h. same a (apart a h))

pub Chain-update :
    (f : Ptr → Ptr) (p a v : Ptr) (xs : List Ptr)
    → has a xs ≡ false
    → Chain f p xs
    → Chain (update f a v) p xs
Chain-update f p a v xs out = Chain-frame f (update f a v) p xs (λ b h. ground arith)

pub has-take : (a n : ℕ) (xs : List Ptr) → has a xs ≡ false → has a (take n xs) ≡ false
has-take a zero xs h = refl
has-take a (suc n) [] h = refl
has-take a (suc n) (x ∷ xs) h = ground (arith, has-take a n xs)

pub has-drop : (a n : ℕ) (xs : List Ptr) → has a xs ≡ false → has a (drop n xs) ≡ false
has-drop a zero xs h = h
has-drop a (suc n) [] h = refl
has-drop a (suc n) (x ∷ xs) h = ground (arith, has-drop a n xs)
