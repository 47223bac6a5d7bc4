-- ===== src/Freelist/Tests.antt =====
-- Runs of one freelist, and its theorems at a stack of three blocks.
use pool_memalloc.Common.{◌≡◌, refl, true, [], ◌∷◌, ◌==◌, if◌then◌else◌, arith}
use pool_memalloc.Heap.{Ptr, tagged, World}
use pool_memalloc.Heap.Returns.{Returns}
use pool_memalloc.Heap.Chain.{SameOutside}
use pool_memalloc.Stats.{fresh_thread}
use pool_memalloc.Freelist.{push, pop, push_bulk, pop_bulk}
use pool_memalloc.Freelist.Stack.{Kept, IsStack, push-cons, pop-cons}
use pool_memalloc.Freelist.Bulk.{Detached}
use pool_memalloc.Freelist.Batch.{pop_bulk-Detached, push_bulk-reverse}
use pool_memalloc.Heap.Spaced.{Spaced, size_of_next}

-- Blocks 64, 128 and 192 are on freelist 0; the chain from 256 to 320 is not. The next
-- compare-exchange fails.
abbrev links : Ptr → Ptr
links a = if a == 64 then 128 else if a == 128 then 192 else if a == 256 then 320 else 0

abbrev three : World
three = record {
  next = links;
  heads = λ f. tagged (if f == 0 then 64 else 0) 7;
  weak = true ∷ [];
  local = fresh_thread;
}

three-IsStack : IsStack three 0 (64 ∷ 128 ∷ 192 ∷ [])
three-IsStack = record {
  chain = (refl, omega arith, (refl, omega arith, (refl, omega arith, refl)));
  distinct = (refl, (refl, (refl, tt)));
}

pushes_block :
    Returns
      (λ _ w'.
        IsStack w' 0 (256 ∷ 64 ∷ 128 ∷ 192 ∷ [])
        × Kept 0 three w'
        × SameOutside (256 ∷ []) three.next w'.next)
      (push 2 0 256 three)
pushes_block = push-cons 2 0 (omega arith) 256 three-IsStack (omega arith) refl

pops_block :
    Returns
      (λ r w'. (r ≡ 64) × IsStack w' 0 (128 ∷ 192 ∷ []) × Kept 0 three w' × (w'.next ≡ three.next))
      (pop 2 0 three)
pops_block = pop-cons 2 0 (omega arith) 64 three-IsStack

stack-Spaced : Spaced size_of_next (64 ∷ 128 ∷ 192 ∷ [])
stack-Spaced =
    (λ a h. ground (arith, h), (λ a h. ground (arith, h), (λ a h. ground (arith, h), tt)))

pop_bulk-Detached_example :
    Returns (Detached 0 2 (64 ∷ 128 ∷ 192 ∷ []) three) (pop_bulk 2 0 2 three)
pop_bulk-Detached_example =
    pop_bulk-Detached 2 0 2 (64 ∷ 128 ∷ 192 ∷ []) three (omega arith) three-IsStack.chain
      (stack-Spaced)

all-Spaced : Spaced size_of_next (256 ∷ 320 ∷ 64 ∷ 128 ∷ 192 ∷ [])
all-Spaced = (λ a h. ground (arith, h), (λ a h. ground (arith, h), stack-Spaced))

push_bulk-reverse_example :
    Returns
      (λ _ w'.
        IsStack w' 0 (320 ∷ 256 ∷ 64 ∷ 128 ∷ 192 ∷ [])
        × Kept 0 three w'
        × SameOutside (256 ∷ 320 ∷ []) three.next w'.next)
      (push_bulk 3 2 0 256 320 three)
push_bulk-reverse_example =
    push_bulk-reverse 3 2 0 256 320 (256 ∷ 320 ∷ []) (64 ∷ 128 ∷ 192 ∷ []) three (omega arith)
      (omega arith) refl (refl, omega arith, (refl, omega arith, refl)) three-IsStack.chain
      all-Spaced
