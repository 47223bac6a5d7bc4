-- ===== src/Numa/Life.antt =====
-- The loop of the constructor of `NumaAllocator` that makes the pools.
use mathlib.Core.Path.{subst}
use native.Mathlib.Nat.{mul_comm}
use pool_memalloc.Common.{
  ℕ, zero, suc, ◌+◌, ◌*◌, ◌^◌, ◌≤◌, ◌<◌, ◌≡◌, ◌≢◌, refl, ◌∙◌, true, false, List, [], Bool,
  Bool-cases, inl, inr, ltb, ◌==◌, if◌then◌else◌, arith, length, ℕ_discrete, dec_lt,
}
use pool_memalloc.Common.Words.{u64, cache_line}
use pool_memalloc.Common.Family.{update_self, update_ne}
use pool_memalloc.Heap.{Ptr, null, World, update}
use pool_memalloc.Heap.Returns
use pool_memalloc.Heap.Returns.{Returns, returns}
use pool_memalloc.Heap.Chain.{has}
use pool_memalloc.Heap.Count.{count, count_of_not_has}
use pool_memalloc.Freelist.Stack.{IsStack, Kept, Kept-refl}
use pool_memalloc.Numa.{NumaPool, new_pool, new_pools, push_blocks}
use pool_memalloc.Numa.Globals.{push_blocks_eq}
use pool_memalloc.TlFreelist.Carved.{
  carved, carved-once, length-carved, push_blocks-carved, IsStack-frame, carved-range,
}

module _ (alloc_on_node : ℕ → ℕ → ℕ → Ptr) (size n : ℕ) where
  -- The region of node `k`, `nullptr` where its memory cannot be had.
  abbrev pub region_of : ℕ → Ptr
  region_of k = alloc_on_node (u64 (size * n)) cache_line k

  -- The blocks of node `k`.
  abbrev pub cut : ℕ → List Ptr
  cut k = if region_of k == null then [] else carved (region_of k) size n

  -- The address is in the region of node `k`.
  abbrev pub In : ℕ → Ptr → Type 0
  In k a = (region_of k ≢ null) × (region_of k ≤ a) × (a < region_of k + size * n)

  -- What the operating system gives `nodes` nodes: regions that end in the address space, and that
  -- do not overlap.
  pub record IsGiven (nodes : ℕ) : Type 0 where
    pub ends : (k : ℕ) → k < nodes → region_of k + size * n < 2 ^ 64
    pub apart : (j k : ℕ) (a : Ptr) → j < nodes → k < nodes → In j a → In k a → j ≡ k

  cut-In : (k : ℕ) (a : Ptr) → has a (cut k) ≡ true → 0 < size → In k a
  cut-In k a h pos = elim (ℕ_discrete (region_of k) null) [
    | yes e ↦ absurd (ground (arith, e, h))
    | no ne ↦
        let (low, high) = carved-range (region_of k) size n a (ground (arith, ne, h)) pos in
        (ne, low, high)
  ]

  pub cut-once : (k : ℕ) (a : Ptr) → 0 < size → count a (cut k) ≤ 1
  cut-once k a pos = ground (arith, carved-once (region_of k) size n a pos)

  pub length-cut : (k : ℕ) → length (cut k) ≤ n
  length-cut k = ground (arith, length-carved (region_of k) size n)

  -- No block is on two nodes.
  pub cut-apart :
      {nodes : ℕ}
      → IsGiven nodes
      → 0 < size
      → (j k : ℕ) (a : Ptr) → j < nodes
      → k < nodes
      → j ≢ k
      → 1 ≤ count a (cut j)
      → count a (cut k) ≡ 0
  cut-apart given pos j k a hj hk ne l = elim (Bool-cases (has a (cut k))) [
    | inl there ↦ absurd (
        ne (
          given.apart j k a hj hk
            (cut-In j a (ground (arith, l, Bool-cases (has a (cut j)), count_of_not_has a (cut j)))
              pos)
            (cut-In k a there pos)))
    | inr gone ↦ count_of_not_has a (cut k) gone
  ]

  module _ (first batch nodes : ℕ) where
    -- The first `m` nodes have their pools, and the freelists of the others are empty.
    pub record Filled (m : ℕ) (w : World) (made : ℕ → NumaPool) : Type 0 where
      pub stack : (k : ℕ) → k < nodes → IsStack w (first + k) (if ltb k m then cut k else [])
      pub pool : (k : ℕ) → k < m → made k ≡ new_pool (first + k) (region_of k) size n batch

    module _ (given : IsGiven nodes) (pos : 0 < size) where
      Filled-suc :
          (m : ℕ) (w w' : World) (made : ℕ → NumaPool)
          → m < nodes
          → Filled m w made
          → IsStack w' (first + m) (cut m)
          → Kept (first + m) w w'
          → ((a : Ptr) → ¬ In m a → w'.next a ≡ w.next a)
          → Filled (m + 1) w' (update made m (new_pool (first + m) (region_of m) size n batch))
      Filled-suc m w w' made h d here kept same = record { stack = stack; pool = pool }
        where
          pool :
              (k : ℕ)
              → k < m + 1
              → update made m (new_pool (first + m) (region_of m) size n batch) k
                ≡ new_pool (first + k) (region_of k) size n batch
          pool k l = elim (ℕ_discrete k m) [
            | yes e ↦ rw e (update_self made m _)
            | no ne ↦ update_ne made m k _ ne ∙ d.pool k (omega arith)
          ]

          stack : (k : ℕ) → k < nodes → IsStack w' (first + k) (if ltb k (m + 1) then cut k else [])
          stack k l = elim (ℕ_discrete k m) [
            | yes e ↦ let t : ltb m (m + 1) ≡ true = ground arith in rw (e, t) here
            | no ne ↦
                let t : ltb k (m + 1) ≡ ltb k m = ground arith in
                rw t (
                  IsStack-frame (d.stack k l) (kept.others (first + k) (omega arith)) (λ a i.
                    same a (λ inside.
                      ne (given.apart k m a l h (cut-In k a (ground (arith, i)) pos) inside))))
          ]

      module _ (fuel : ℕ) (fits : size * n < 2 ^ 64) where
        -- The region of one node, cut into blocks.
        fill :
            (m : ℕ) (w : World)
            → m < nodes
            → length w.weak < fuel
            → IsStack w (first + m) []
            → region_of m ≢ null
            → Returns
                (λ _ w'.
                  IsStack w' (first + m) (carved (region_of m) size n)
                  × Kept (first + m) w w'
                  × ((a : Ptr) → ¬ In m a → w'.next a ≡ w.next a))
                (push_blocks fuel (first + m) (region_of m) size n 0 w)
        unfolding carved
        fill m w h l is ne = rw push_blocks_eq (
            Returns.mono
              (push_blocks-carved fuel (first + m) (region_of m) size n 0 w l (omega arith) pos
                (omega (arith, given.ends m h, mul_comm n size)) is)
              λ _ w' (is', kept, same). (
                subst (λ (t : ℕ). IsStack w' (first + m) (carved (region_of m) size t)) start is',
                kept,
                λ a out. same a (λ low. past a out low),
              ))
          where
            start : 0 + n ≡ n
            start = omega arith

            past : (a : Ptr) → ¬ In m a → region_of m ≤ a → region_of m + (0 + n) * size ≤ a
            past a out low = elim (dec_lt a (region_of m + (0 + n) * size)) [
              | yes lt ↦ absurd (out (ne, low, omega (arith, lt, mul_comm n size)))
              | no ge ↦ omega arith
            ]

        pub new_pools-Filled :
            (rounds m : ℕ) (w : World) (made : ℕ → NumaPool)
            → m + rounds ≡ nodes
            → length w.weak < fuel
            → Filled m w made
            → Returns
                (λ made' w'. Filled nodes w' made')
                (new_pools alloc_on_node fuel first size n batch rounds m made w)
        unfolding new_pools
        new_pools-Filled zero m w made e l d =
            let e' : m ≡ nodes = omega arith in returns (rw e' at d)
        new_pools-Filled (suc rounds) m w made e l d = elim (ℕ_discrete (region_of m) null) [
          | yes nil ↦
              let t : (region_of m == null) ≡ true = ground arith in
              rw t (
                new_pools-Filled rounds (m + 1) w _ (omega arith) l (
                  Filled-suc m w w made (omega arith) d (rw t bare) (Kept-refl (first + m) w)
                    (λ a out. refl)))
          | no ne ↦
              let t : (region_of m == null) ≡ false = ground arith in
              rw t (
                Returns.bind (fill m w (omega arith) l bare ne) λ _ w1 (is, kept, same).
                  new_pools-Filled rounds (m + 1) w1 _ (omega arith) (omega (arith, kept.fewer))
                    (Filled-suc m w w1 made (omega arith) d (rw t is) kept same))
        ]
          where
            bare : IsStack w (first + m) []
            bare =
                let t : ltb m m ≡ false = ground arith in
                subst (λ (b : Bool). IsStack w (first + m) (if b then cut m else [])) t
                  (d.stack m (omega arith))
