-- ===== src/Freelist/Batch.antt =====
-- `push_bulk` and `pop_bulk` of src/freelist_allocator.cpp over blocks that do not overlap.
use mathlib.Core.List.{reverse_aux}
use pool_memalloc.Common.{ℕ, ◌<◌, ◌≡◌, ◌≢◌, true, List, [], ◌∷◌, ◌++◌, arith, length, ℕ_discrete}
use pool_memalloc.Heap.{Ptr, null, World, update}
use pool_memalloc.Heap.Returns.{Returns}
use pool_memalloc.Heap.Chain.{has, Chain, SameOutside}
use pool_memalloc.Heap.Spaced.{Spaced, size_of_next, Spaced-Distinct, Spaced-append}
use pool_memalloc.Freelist.{push_bulk, pop_bulk}
use pool_memalloc.Freelist.Stack.{Kept, IsStack}
use pool_memalloc.Freelist.Bulk.{asked, Detached, pop_bulk_lem, push_bulk_lem}

-- `pop_bulk`, total, of a stack whose blocks are at least 8 bytes apart, so that their `next` do not
-- overlap: it takes the first `n` blocks off the stack, or as many as there are, and returns them as a
-- chain in the same order; `pop_bulk 0` takes one. Only the links of these blocks change.
pub pop_bulk-Detached :
    (fuel f n : ℕ) (xs : List Ptr) (w : World)
    → length w.weak < fuel
    → Chain w.next (w.heads f).ptr xs
    → Spaced size_of_next xs
    → Returns (Detached f (asked n) xs w) (pop_bulk fuel f n w)
pop_bulk-Detached fuel f n xs w l c s =
    pop_bulk_lem fuel f n xs w l
      (record { chain = c; distinct = Spaced-Distinct 8 (omega arith) xs s })

-- No block of a chain is `nullptr`.
has-Chain :
    {a : Ptr} (next : Ptr → Ptr) (p : Ptr) (xs : List Ptr)
    → has a xs ≡ true
    → Chain next p xs
    → a ≢ null
has-Chain {a} next p [] h c = absurd (ground (arith, h))
has-Chain {a} next p (x ∷ xs) h (e, ne, c) = elim (ℕ_discrete a x) [
  | yes at ↦ rw at ne
  | no off ↦ has-Chain next (next x) xs (ground (arith, h, off)) c
]

-- `push_bulk`, total, of a chain that ends at `batch_tail` once that points nowhere, where the blocks of
-- the chain and of the stack are all at least 8 bytes apart, so that their `next` do not overlap: it
-- puts the blocks of the chain on the stack one after the other, so that they lie there in reverse.
pub push_bulk-reverse :
    (rounds fuel f : ℕ) (batch_head batch_tail : Ptr) (bs xs : List Ptr) (w : World)
    → length bs < rounds
    → length w.weak < fuel
    → has batch_tail bs ≡ true
    → Chain (update w.next batch_tail null) batch_head bs
    → Chain w.next (w.heads f).ptr xs
    → Spaced size_of_next (bs ++ xs)
    → Returns
        (λ _ w'. IsStack w' f (reverse_aux bs xs) × Kept f w w' × SameOutside bs w.next w'.next)
        (push_bulk rounds fuel f batch_head batch_tail w)
push_bulk-reverse rounds fuel f head tail bs xs w r l last c stack s =
    let (left, right, apart) = Spaced-append 8 (omega arith) bs xs s in
    push_bulk_lem rounds fuel f head tail bs xs w r l last
      (has-Chain (update w.next tail null) head bs last c) c
      (Spaced-Distinct 8 (omega arith) bs left)
      (record { chain = stack; distinct = Spaced-Distinct 8 (omega arith) xs right }) apart
