-- ===== src/MultiSize/Life.antt =====
-- The loop of the constructor of `MultiSizeAllocator`.
use pool_memalloc.Common.{
  ℕ, zero, suc, ◌+◌, ◌*◌, ◌^◌, ◌≤◌, ◌<◌, ◌≡◌, ◌≢◌, refl, ap, ◌∙◌, Option, some, List, [], ◌∷◌,
  arith, length, get_or, get_elem?, dec_lt,
}
use pool_memalloc.Heap.{Ptr, null, World}
use pool_memalloc.Heap.Returns
use pool_memalloc.Heap.Returns.{Returns, returns}
use pool_memalloc.Freelist.Stack.{IsStack}
use pool_memalloc.TlFreelist.{ThreadLocalFreelistAllocator, block_size_for}
use pool_memalloc.TlFreelist.Carved.{carved, carved-range, IsStack-frame}
use pool_memalloc.TlFreelist.Life.{Built, allocator_of, construct-Built, block_size_for_bounds}
use pool_memalloc.MultiSize.{new_pools}

-- Pool `k` is for blocks of `class k` bytes, and has `n` of them.
module _ (aligned_alloc : ℕ → ℕ → ℕ → Ptr) (class : ℕ → ℕ) (n : ℕ) where
  abbrev pub region_of : ℕ → Ptr
  region_of k = aligned_alloc k 64 (block_size_for (class k) * n)

  abbrev pub In : ℕ → Ptr → Type 0
  In k a = (region_of k ≤ a) × (a < region_of k + block_size_for (class k) * n)

  abbrev pub blocks_of : ℕ → List Ptr
  blocks_of k = carved (region_of k) (block_size_for (class k)) n

  -- `std::aligned_alloc` serves the first `pools` requests, with regions that end in the address space
  -- and do not overlap.
  pub record IsGiven (pools : ℕ) : Type 0 where
    pub non_null : (k : ℕ) → k < pools → region_of k ≢ null
    pub ends : (k : ℕ) → k < pools → region_of k + block_size_for (class k) * n < 2 ^ 64
    pub apart : (j k : ℕ) (a : Ptr) → j < pools → k < pools → In j a → In k a → j ≡ k

  module _ (first batch total : ℕ) where
    -- The pools from number `i` on, made for the sizes `ss`.
    pub record Opened (ss : List ℕ) (i : ℕ) (w : World)
        (out : Option (List ThreadLocalFreelistAllocator)) (w' : World) : Type 0 where
      pub pools : List ThreadLocalFreelistAllocator
      pub made : out ≡ some pools
      pub sized : length pools ≡ length ss
      pub pool :
          (k : ℕ)
          → k < length ss
          → get_elem? pools k
            ≡ some (allocator_of (first + (i + k)) (class (i + k)) n batch (region_of (i + k)))
      pub stack : (k : ℕ) → k < length ss → IsStack w' (first + (i + k)) (blocks_of (i + k))
      pub others : (g : ℕ) → g < first + i → w'.heads g ≡ w.heads g
      pub same : (a : Ptr) → ((k : ℕ) → i ≤ k → k < total → ¬ In k a) → w'.next a ≡ w.next a

    module _ (fuel : ℕ) (given : IsGiven total) (few : batch < 2 ^ 62)
        (small : (k : ℕ) → k < total → class k + 63 < 2 ^ 64)
        (fits : (k : ℕ) → k < total → block_size_for (class k) * n + 63 < 2 ^ 64) where
      -- The pool in front of the others.
      Opened-cons :
          (ss : List ℕ) (i : ℕ) (w w1 w2 : World) (a : Option ThreadLocalFreelistAllocator)
          (out : Option (List ThreadLocalFreelistAllocator))
          → i + suc (length ss) ≡ total
          → Built (first + i) (class i) n batch (region_of i) w a w1
          → (rest : Opened ss (i + 1) w1 out w2)
          → Opened
              (class i ∷ ss)
              i
              w
              (some (allocator_of (first + i) (class i) n batch (region_of i) ∷ rest.pools))
              w2
      Opened-cons ss i w w1 w2 a out e b rest = record {
        pools = allocator_of (first + i) (class i) n batch (region_of i) ∷ rest.pools;
        made = refl;
        sized = omega (arith, rest.sized);
        pool = pool;
        stack = stack;
        others = λ g l. rest.others g (omega arith) ∙ b.kept.others g (omega arith);
        same = λ p out_.
            rest.same p (λ k l h. out_ k (omega arith) h)
            ∙ b.same p (λ low. outside p low (out_ i (omega arith) (omega arith)));
      }
        where
          outside :
              (p : Ptr)
              → region_of i ≤ p
              → ¬ In i p
              → region_of i + block_size_for (class i) * n ≤ p
          outside p low no_ = elim (dec_lt p (region_of i + block_size_for (class i) * n)) [
            | yes lt ↦ absurd (no_ (low, lt))
            | no ge ↦ omega arith
          ]

          pool :
              (k : ℕ)
              → k < suc (length ss)
              → get_elem? (allocator_of (first + i) (class i) n batch (region_of i) ∷ rest.pools) k
                ≡ some (allocator_of (first + (i + k)) (class (i + k)) n batch (region_of (i + k)))
          pool zero l = let z : i + 0 ≡ i = omega arith in rw z refl
          pool (suc k) l =
              let z : i + suc k ≡ i + 1 + k = omega arith in rw z (rest.pool k (omega arith))

          stack : (k : ℕ) → k < suc (length ss) → IsStack w2 (first + (i + k)) (blocks_of (i + k))
          stack zero l =
              let z : i + 0 ≡ i = omega arith in
              rw z (
                IsStack-frame b.stack (rest.others (first + i) (omega arith)) (λ p inside.
                  rest.same p (λ k ge lt there. absurd (
                    omega (
                      arith,
                      given.apart i k p (omega arith) lt
                          (carved-range (region_of i) (block_size_for (class i)) n p inside (
                            omega (arith, block_size_for_bounds (class i) (small i (omega arith)))))
                          there,
                    )))))
          stack (suc k) l =
              let z : i + suc k ≡ i + 1 + k = omega arith in rw z (rest.stack k (omega arith))

      pub new_pools-Opened :
          (ss : List ℕ) (i : ℕ) (w : World)
          → ((k : ℕ) → k < length ss → get_or ss k 0 ≡ class (i + k))
          → i + length ss ≡ total
          → length w.weak < fuel
          → Returns (Opened ss i w) (new_pools aligned_alloc fuel first n batch i ss w)
      unfolding new_pools
      new_pools-Opened [] i w sizes e l = returns (record {
        pools = [];
        made = refl;
        sized = refl;
        pool = λ k h. absurd (omega arith);
        stack = λ k h. absurd (omega arith);
        others = λ g h. refl;
        same = λ a out. refl;
      })
      new_pools-Opened (s ∷ ss) i w sizes e l =
          let z : i + 0 ≡ i = omega arith in
          let at : s ≡ class i = sizes 0 (omega arith) ∙ ap class z in
          rw at (
            Returns.bind
              (construct-Built (aligned_alloc i) fuel (first + i) (class i) n batch w
                (small i (omega arith)) (fits i (omega arith)) l (given.non_null i (omega arith))
                (given.ends i (omega arith)) few)
              λ a w1 b. rw b.made (
                Returns.bind
                  (new_pools-Opened ss (i + 1) w1 (λ k h. later k h) (omega arith)
                    (omega (arith, b.kept.fewer)))
                  λ out w2 rest.
                    rw rest.made (returns (Opened-cons ss i w w1 w2 a out (omega arith) b rest))))
        where
          later : (k : ℕ) → k < length ss → get_or ss k 0 ≡ class (i + 1 + k)
          later k h =
              let y : i + suc k ≡ i + 1 + k = omega arith in
              sizes (suc k) (omega arith) ∙ ap class y
