-- ===== src/Heap/Last.antt =====
-- The last block of a chain: joining two chains there, and cutting one in two.
use pool_memalloc.Common.{
  ℕ, zero, suc, ◌≡◌, ◌≢◌, refl, ap, ◌∙◌, true, false, List, [], ◌∷◌, ◌++◌, arith, take, drop,
}
use pool_memalloc.Heap.{Ptr, null, update}
use pool_memalloc.Heap.Chain.{has, Distinct, Chain, Chain-update, update_self, update_ne, has-take}

-- The last block of `x ∷ xs`.
abbrev pub last : Ptr → List Ptr → Ptr
last x [] = x
last x (y ∷ ys) = last y ys

pub has-last : (x : Ptr) (xs : List Ptr) → has (last x xs) (x ∷ xs) ≡ true
has-last x [] = ground arith
has-last x (y ∷ ys) = ground (arith, has-last y ys)

pub last-ne-null : (f : Ptr → Ptr) (x : Ptr) (xs : List Ptr) → Chain f x (x ∷ xs) → last x xs ≢ null
last-ne-null f x [] (e, ne, c) = ne
last-ne-null f x (y ∷ ys) (e, ne, (e', ne', c)) = last-ne-null f y ys (refl, ne', c)

-- Linking the last block of one chain to the first of another joins the two.
pub Chain-append :
    (f : Ptr → Ptr) (q x : Ptr) (xs ys : List Ptr)
    → Chain f x (x ∷ xs)
    → Distinct (x ∷ xs)
    → Chain f q ys
    → ((a : Ptr) → has a (x ∷ xs) ≡ true → has a ys ≡ false)
    → Chain (update f (last x xs) q) x ((x ∷ xs) ++ ys)
Chain-append f q x [] ys (e, ne, c) d t apart =
    (refl, ne, rw (update_self f x q) (Chain-update f q x q ys (apart x (ground arith)) t))
Chain-append f q x (y ∷ ys') ys (e, ne, (e', ne', c)) (out, d) t apart = (
  refl,
  ne,
  rw next (Chain-append f q y ys' ys (refl, ne', c) d t (λ a i. apart a (ground (arith, i)))),
)
  where
    ne-last : x ≢ last y ys'
    ne-last h = ground (arith, has-last y ys', out, ap (λ (t : Ptr). has t (y ∷ ys')) h)

    next : update f (last y ys') q x ≡ y
    next = update_ne f (last y ys') x q ne-last ∙ e'

-- The `next` of the last block leads to the rest.
pub Chain-rest :
    (f : Ptr → Ptr) (n x : ℕ) (xs : List Ptr)
    → Chain f x (x ∷ xs)
    → Chain f (f (last x (take n xs))) (drop n xs)
Chain-rest f zero x xs (e, ne, c) = c
Chain-rest f (suc n) x [] (e, ne, c) = c
Chain-rest f (suc n) x (y ∷ ys) (e, ne, (e', ne', c)) = Chain-rest f n y ys (refl, ne', c)

-- Writing `nullptr` there cuts the chain.
pub Chain-cut :
    (f : Ptr → Ptr) (n x : ℕ) (xs : List Ptr)
    → Chain f x (x ∷ xs)
    → Distinct (x ∷ xs)
    → Chain (update f (last x (take n xs)) null) x (x ∷ take n xs)
Chain-cut f zero x xs (e, ne, c) d = (refl, ne, update_self f x null)
Chain-cut f (suc n) x [] (e, ne, c) d = (refl, ne, update_self f x null)
Chain-cut f (suc n) x (y ∷ ys) (e, ne, (e', ne', c)) (out, d) =
    (refl, ne, rw next (Chain-cut f n y ys (refl, ne', c) d))
  where
    ne-last : x ≢ last y (take n ys)
    ne-last h = ground (
      arith,
      has-last y (take n ys),
      out,
      has-take x n ys,
      ap (λ (t : Ptr). has t (y ∷ take n ys)) h,
    )

    next : update f (last y (take n ys)) null x ≡ y
    next = update_ne f (last y (take n ys)) x null ne-last ∙ e'
