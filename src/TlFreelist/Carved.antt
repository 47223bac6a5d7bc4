-- ===== src/TlFreelist/Carved.antt =====
-- A region cut into blocks, as the constructors of src/tl_freelist_allocator.cpp and
-- src/numa_allocator.cpp do it: the list of its blocks, and the loop that pushes them.
use mathlib.Core.Path.{subst}
use native.Mathlib.Nat.{mul_comm}
use pool_memalloc.Common.Words.{u64}
use pool_memalloc.Heap.{TaggedPtr, Ptr, World}
use pool_memalloc.Heap.Returns
use pool_memalloc.Heap.Returns.{Returns, returns}
use pool_memalloc.Heap.Chain.{Chain, Chain-frame, has}
use pool_memalloc.Freelist.Stack.{Kept, Kept-refl, Kept-trans, IsStack, push-cons}
use pool_memalloc.TlFreelist.{push_blocks}
use pool_memalloc.Common.{
  sym, true, ℕ, zero, suc, ◌+◌, ◌*◌, ◌^◌, ◌≤◌, ◌<◌, ◌≡◌, refl, ◌∙◌, false, List, [], ◌∷◌, arith,
  length, ℕ_discrete,
}
use pool_memalloc.Heap.Count.{count, count_of_not_has}

-- The first `n` blocks of a region, the last of them first.
unfoldable pub carved : (region : Ptr) → (block_size n : ℕ) → List Ptr
carved region size zero = []
carved region size (suc n) = (region + n * size) ∷ carved region size n

pub carved-below :
    (region size n a : ℕ) → 0 < size → region + n * size ≤ a → has a (carved region size n) ≡ false
unfolding carved
carved-below region size zero a h l = refl
carved-below region size (suc n) a h l =
    ground (arith, carved-below region size n a h (omega arith))

pub carved-above : (region size n a : ℕ) → a < region → has a (carved region size n) ≡ false
unfolding carved
carved-above region size zero a h = refl
carved-above region size (suc n) a h = ground (arith, carved-above region size n a h)

pub length-carved : (region size n : ℕ) → length (carved region size n) ≡ n
unfolding carved
length-carved region size zero = refl
length-carved region size (suc n) = omega (arith, length-carved region size n)

pub carved-once : (region size n a : ℕ) → 0 < size → count a (carved region size n) ≤ 1
unfolding carved
carved-once region size zero a h = omega arith
carved-once region size (suc n) a h = elim (ℕ_discrete a (region + n * size)) [
  | yes e ↦ rw e (
      ground (
        arith,
        count_of_not_has (region + n * size) (carved region size n)
            (carved-below region size n (region + n * size) h (omega arith)),
      ))
  | no ne ↦ ground (arith, carved-once region size n a h, ne)
]

scaled : (i n s : ℕ) → i < n → i * s + s ≤ n * s
scaled i n s h = grind arith

pub push_blocks-carved :
    (fuel f region size rounds i : ℕ) (w : World)
    → length w.weak < fuel
    → 0 < region
    → 0 < size
    → region + (i + rounds) * size < 2 ^ 64
    → IsStack w f (carved region size i)
    → Returns
        (λ _ w'.
          IsStack w' f (carved region size (i + rounds))
          × Kept f w w'
          × ((a : Ptr) → (region ≤ a → region + (i + rounds) * size ≤ a) → w'.next a ≡ w.next a))
        (push_blocks fuel f region size rounds i w)
unfolding push_blocks carved
push_blocks-carved fuel f region size zero i w h r s fits is =
    let e : i + 0 ≡ i = omega arith in rw e (returns (is, Kept-refl f w, λ a o. refl))
push_blocks-carved fuel f region size (suc rounds) i w h r s fits is = rw at (
    Returns.bind
      (push-cons fuel f h (region + i * size) is (omega arith)
        (carved-below region size i (region + i * size) s (omega arith)))
      λ _ w1 (is1, kept1, same1).
        Returns.mono
          (push_blocks-carved fuel f region size rounds (i + 1) w1 (omega (arith, kept1.fewer)) r s
            (rw shift at fits) (next w1 is1))
          λ _ w2 (is2, kept2, same2). (
            rw shift is2,
            Kept-trans kept1 kept2,
            λ a o.
                same2 a (rw shift at o)
                ∙ same1 a (ground (arith, o, scaled i (i + suc rounds) size (omega arith))),
          ))
  where
    shift : i + suc rounds ≡ i + 1 + rounds
    shift = omega arith

    at : u64 (region + u64 (i * size)) ≡ region + i * size
    at = omega (arith, scaled i (i + suc rounds) size (omega arith))

    next :
        (w1 : World)
        → IsStack w1 f ((region + i * size) ∷ carved region size i)
        → IsStack w1 f (carved region size (i + 1))
    next w1 is1 = let e : i + 1 ≡ suc i = omega arith in rw e is1

-- As many blocks as a `size_t` can give bytes are fewer than `2 ^ 63`.
pub fewer_blocks : (size n : ℕ) → 64 ≤ size → size * n < 2 ^ 64 → n < 2 ^ 63
fewer_blocks size n wide fits = omega (arith, fits, scaled_by size n wide)
  where
    scaled_by : (s m : ℕ) → 64 ≤ s → 64 * m ≤ s * m
    scaled_by s m h = grind arith

-- A stack beside what leaves its head and its blocks alone.
pub IsStack-frame :
    {w w' : World} {f : ℕ} {xs : List Ptr}
    → IsStack w f xs
    → w'.heads f ≡ w.heads f
    → ((a : Ptr) → has a xs ≡ true → w'.next a ≡ w.next a)
    → IsStack w' f xs
IsStack-frame {w} {w'} {f} {xs} is head same = record {
  chain =
      subst (λ (h : TaggedPtr). Chain w'.next h.ptr xs) (sym head)
        (Chain-frame w.next w'.next (w.heads f).ptr xs same is.chain);
  distinct = is.distinct;
}

pub carved-range :
    (region size n a : ℕ)
    → has a (carved region size n) ≡ true
    → 0 < size
    → (region ≤ a) × (a < region + size * n)
carved-range region size n a h pos = (
  ground (arith, h, carved-above region size n a),
  ground (arith, h, carved-below region size n a pos, mul_comm n size),
)
