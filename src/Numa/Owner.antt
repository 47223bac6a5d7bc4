-- ===== src/Numa/Owner.antt =====
-- Which pool a block goes back to.
use pool_memalloc.Common.{
  ℕ, zero, suc, ◌+◌, ◌^◌, ◌≤◌, ◌<◌, ◌≡◌, refl, sym, Bool, true, false, ◌&&◌, ltb, leb, arith,
  Bool-cases, inl, inr, dec_lt,
}
use pool_memalloc.Common.Words.{u64}
use pool_memalloc.Heap.{Ptr}
use pool_memalloc.Numa.{NumaPool, NumaAllocator, owner_from, owner_node}

-- The address lies in the pool's region.
abbrev pub Within : NumaPool → Ptr → Type 0
Within pool p = (pool.region ≤ p) × (p < pool.region + pool.region_size)

-- The regions of the first `n` pools end in the address space, and that of pool `k` alone has the
-- address. The region of a pool without memory counts from address 0, as `owner_node` reads it.
pub record IsOwn (pools : ℕ → NumaPool) (n k : ℕ) (p : Ptr) : Type 0 where
  pub ends : (j : ℕ) → j < n → (pools j).region + (pools j).region_size < 2 ^ 64
  pub inside : Within (pools k) p
  pub alone : (j : ℕ) → j < n → Within (pools j) p → j ≡ k

abbrev test : NumaPool → Ptr → Bool
test pool p = leb pool.region p && ltb p (u64 (pool.region + pool.region_size))

test-Within :
    (pool : NumaPool) (p : Ptr)
    → pool.region + pool.region_size < 2 ^ 64
    → test pool p ≡ true
    → Within pool p
test-Within pool p h e = (ground arith, ground arith)

Within-test :
    (pool : NumaPool) (p : Ptr)
    → pool.region + pool.region_size < 2 ^ 64
    → Within pool p
    → test pool p ≡ true
Within-test pool p h (a, b) = ground arith

owner_from-found :
    (pools : ℕ → NumaPool) (total rounds n k : ℕ) (p : Ptr)
    → IsOwn pools total k p
    → n + rounds ≡ total
    → n ≤ k
    → k < total
    → owner_from pools rounds n p ≡ k
unfolding owner_from
owner_from-found pools total zero n k p l e h b = absurd (omega arith)
owner_from-found pools total (suc rounds) n k p l e h b = elim (Bool-cases (test (pools n) p)) [
  | inl yes_ ↦
      rw yes_ (l.alone n (omega arith) (test-Within (pools n) p (l.ends n (omega arith)) yes_))
  | inr no_ ↦ rw no_ (owner_from-found pools total rounds (n + 1) k p l (omega arith) (later no_) b)
]
  where
    later : test (pools n) p ≡ false → n + 1 ≤ k
    later no_ = elim (dec_lt n k) [
      | yes lt ↦ omega arith
      | no ge ↦
          let e : k ≡ n = omega arith in
          let seen : test (pools n) p ≡ true =
            rw (sym e) (Within-test (pools k) p (l.ends k b) l.inside) in
          absurd (ground (arith, seen, no_))
    ]

owner_from-none :
    (pools : ℕ → NumaPool) (rounds n : ℕ) (p : Ptr)
    → ((k : ℕ) → n ≤ k → k < n + rounds → (pools k).region + (pools k).region_size < 2 ^ 64)
    → ((k : ℕ) → n ≤ k → k < n + rounds → Within (pools k) p → ⊥)
    → owner_from pools rounds n p ≡ 0
unfolding owner_from
owner_from-none pools zero n p ends out = refl
owner_from-none pools (suc rounds) n p ends out = elim (Bool-cases (test (pools n) p)) [
  | inl yes_ ↦ absurd (
      out n (omega arith) (omega arith)
        (test-Within (pools n) p (ends n (omega arith) (omega arith)) yes_))
  | inr no_ ↦ rw no_ (
      owner_from-none pools rounds (n + 1) p (λ k h l. ends k (omega arith) (omega arith))
        (λ k h l. out k (omega arith) (omega arith)))
]

-- `owner_node` of an address that the region of pool `k` alone has is `k`.
pub owner_node-own :
    (a : NumaAllocator) (k : ℕ) (p : Ptr)
    → k < a.num_nodes
    → IsOwn a.pools a.num_nodes k p
    → owner_node a p ≡ k
unfolding owner_node
owner_node-own a k p h own =
    owner_from-found a.pools a.num_nodes a.num_nodes 0 k p own (omega arith) (omega arith) h

-- `owner_node` of an address that no region has is 0.
owner_node-none :
    (a : NumaAllocator) (p : Ptr)
    → ((k : ℕ) → k < a.num_nodes → (a.pools k).region + (a.pools k).region_size < 2 ^ 64)
    → ((k : ℕ) → k < a.num_nodes → Within (a.pools k) p → ⊥)
    → owner_node a p ≡ 0
unfolding owner_node
owner_node-none a p ends out =
    owner_from-none a.pools a.num_nodes 0 p (λ k h l. ends k (omega arith))
      (λ k h l. out k (omega arith))
