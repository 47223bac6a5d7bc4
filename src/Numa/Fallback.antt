-- ===== src/Numa/Fallback.antt =====
-- `NumaAllocator::alloc`: the thread's own node, and then the others.
use mathlib.Core.Path.{subst}
use pool_memalloc.Common.{
  ℕ, zero, suc, ◌+◌, ◌≤◌, ◌<◌, ◌≡◌, ◌≢◌, refl, ◌↔◌, true, false, leb, ◌==◌, if◌then◌else◌, arith,
  Bool-cases, inl, inr, length, ℕ_discrete,
}
use pool_memalloc.Common.Family.{update, update_ne, total-zero}
use pool_memalloc.Heap.{Ptr, null, World, pure}
use pool_memalloc.Heap.Returns
use pool_memalloc.Heap.Returns.{Returns, returns}
use pool_memalloc.Stats.{Build}
use pool_memalloc.Cache.Spec.{Pools}
use pool_memalloc.Cache.Refill.{owned}
use pool_memalloc.Numa.{NumaAllocator, PerThread, fallback, alloc}
use pool_memalloc.Numa.Nodes.{everywhere, IsEmpty, IsNodes, Served, From, alloc_from-From}

module _ (b : Build) (rounds fuel : ℕ) (a : NumaAllocator) where
  abbrev Walked : ℕ → ℕ → World → (ℕ → Pools) → Ptr × PerThread → World → Type 0
  Walked node n w ps out w' =
      (qs : ℕ → Pools) × Served a w ps out w' qs
      × (out.0 ≡ null → (k : ℕ) → n ≤ k → k < a.num_nodes → k ≢ node → IsEmpty (ps k))

  not_null : (p : Ptr) → p ≢ null → (p == null) ≡ false
  not_null p ne = ground arith

  served-trans :
      {w w1 w2 : World} {ps qs rs : ℕ → Pools} {pt1 : PerThread} {out : Ptr × PerThread}
      → Served a w ps (null, pt1) w1 qs
      → Served a w1 qs out w2 rs
      → Served a w ps out w2 rs
  served-trans s t = record {
    nodes = t.nodes;
    counts = λ x ne. ground (arith, t.counts x ne, s.counts x ne, ne);
    fewer = omega (arith, s.fewer, t.fewer);
  }

  fallback-next :
      (node left n : ℕ) (w : World) (ps : ℕ → Pools) (p : Ptr) (pt' : PerThread) (w1 : World)
      → From a w ps n (p, pt') w1
      → n + suc left ≡ a.num_nodes
      → ((k : ℕ) → n ≤ k → k < a.num_nodes → k ≢ node → length (ps k).global < rounds)
      → ((qs : ℕ → Pools)
          → IsNodes a pt' w1 qs
          → length w1.weak ≤ length w.weak
          → ((k : ℕ) → n + 1 ≤ k → k < a.num_nodes → k ≢ node → length (qs k).global < rounds)
          → Returns (Walked node (n + 1) w1 qs) (fallback b rounds fuel a node left (n + 1) pt' w1))
      → Returns
          (Walked node n w ps)
          ((if p == null then fallback b rounds fuel a node left (n + 1) pt' else pure (p, pt')) w1)
  fallback-next node left n w ps p pt' w1 f e r go = elim (ℕ_discrete p null) [
    | yes nil ↦
        let found : (p == null) ≡ true = ground arith in
        rw found (
          Returns.mono
            (go (update ps n f.left) f.served.nodes f.served.fewer
              (λ k h m ne. rw (update_ne ps n k f.left (omega arith)) (r k (omega arith) m ne)))
            λ out w' (qs, s, empty). (
              qs,
              served-trans
                  (subst (λ (t : Ptr). Served a w ps (t, pt') w1 (update ps n f.left)) nil f.served)
                  s,
              λ gone k h m ne. elim (ℕ_discrete k n) [
                | yes e' ↦ rw e' (f.empty nil)
                | no ne' ↦
                    subst IsEmpty (update_ne ps n k f.left ne') (empty gone k (omega arith) m ne)
              ],
            ))
    | no ne ↦ rw (not_null p ne) (returns (update ps n f.left, f.served, λ nil. absurd (ne nil)))
  ]

  fallback-Walked :
      (node left n : ℕ) (pt : PerThread) (w : World) (ps : ℕ → Pools)
      → IsNodes a pt w ps
      → n + left ≡ a.num_nodes
      → length w.weak < fuel
      → ((k : ℕ) → n ≤ k → k < a.num_nodes → k ≢ node → length (ps k).global < rounds)
      → Returns (Walked node n w ps) (fallback b rounds fuel a node left n pt w)
  unfolding fallback
  fallback-Walked node zero n pt w ps is e l r = returns (
    ps,
    record { nodes = is; counts = λ x ne. ground (arith, ne); fewer = omega arith },
    λ nil k h m ne. absurd (omega arith),
  )
  fallback-Walked node (suc left) n pt w ps is e l r = elim (Bool-cases (n == node)) [
    | inl here ↦ rw here (
        Returns.mono
          (fallback-Walked node left (n + 1) pt w ps is (omega arith) l (λ k h. r k (omega arith)))
          λ out w' (qs, s, empty).
            (qs, s, λ nil k h m ne. empty nil k (ground (arith, here, ne)) m ne))
    | inr other ↦
        let ne_node : n ≢ node = ground (arith, other) in
        rw other (
          Returns.bind
            (alloc_from-From b rounds fuel a pt w ps n is (omega arith) l
              (r n (omega arith) (omega arith) ne_node))
            λ (p, pt') w1 f. fallback-next node left n w ps p pt' w1 f e r (λ qs is' fewer r'.
              fallback-Walked node left (n + 1) pt' w1 qs is' (omega arith) (omega arith) r'))
  ]

  everywhere-empty :
      (ps : ℕ → Pools) (x : Ptr)
      → ((k : ℕ) → k < a.num_nodes → IsEmpty (ps k))
      → everywhere ps a.num_nodes x ≡ 0
  everywhere-empty ps x empty =
      total-zero (λ p. owned p x) a.num_nodes ps λ k h. let (g, l) = empty k h in rw (g, l) refl

  -- `alloc` over all nodes, total, whatever node the thread runs on: a block that it returns leaves
  -- the lists of one node, every other block stays where it is counted, all nodes stay well-formed,
  -- and the result is `nullptr` exactly when no node has a block.
  pub alloc-Served :
      (current_node : ℕ) (pt : PerThread) (w : World) (ps : ℕ → Pools)
      → 0 < a.num_nodes
      → IsNodes a pt w ps
      → length w.weak < fuel
      → ((k : ℕ) → k < a.num_nodes → length (ps k).global < rounds)
      → Returns
          (λ out w'.
            (qs : ℕ → Pools) × Served a w ps out w' qs
            × ((out.0 ≡ null) ↔ ((k : ℕ) → k < a.num_nodes → IsEmpty (ps k))))
          (alloc b rounds fuel a current_node pt w)
  unfolding alloc
  alloc-Served current_node pt w ps pos is l r =
      Returns.bind (alloc_from-From b rounds fuel a pt w ps node is here l (r node here))
        λ (p, pt') w1 f.
          Returns.mono (rest p pt' w1 f)
            λ out w' (qs, s, empty). (qs, s, (empty, λ none_. nothing out w' qs s none_))
    where
      node : ℕ
      node = if leb a.num_nodes current_node then 0 else current_node

      here : node < a.num_nodes
      here = ground arith

      nothing :
          (out : Ptr × PerThread) (w' : World) (qs : ℕ → Pools)
          → Served a w ps out w' qs
          → ((k : ℕ) → k < a.num_nodes → IsEmpty (ps k))
          → out.0 ≡ null
      nothing out w' qs s none_ = elim (ℕ_discrete (out.0) null) [
        | yes nil ↦ nil
        | no ne ↦ absurd (ground (arith, s.counts (out.0) ne, everywhere-empty ps (out.0) none_))
      ]

      rest :
          (p : Ptr) (pt' : PerThread) (w1 : World)
          → From a w ps node (p, pt') w1
          → Returns
              (λ out w'.
                (qs : ℕ → Pools) × Served a w ps out w' qs
                × (out.0 ≡ null → (k : ℕ) → k < a.num_nodes → IsEmpty (ps k)))
              ((if p == null
                  then fallback b rounds fuel a node a.num_nodes 0 pt'
                  else pure (p, pt'))
                w1)
      rest p pt' w1 f = elim (ℕ_discrete p null) [
        | yes nil ↦
            let found : (p == null) ≡ true = ground arith in
            rw found (
              Returns.mono
                (fallback-Walked node a.num_nodes 0 pt' w1 (update ps node f.left) f.served.nodes
                  (omega arith) (omega (arith, f.served.fewer))
                  (λ k h m ne. rw (update_ne ps node k f.left ne) (r k m)))
                λ out w' (qs, s, empty). (
                  qs,
                  served-trans
                      (subst (λ (t : Ptr). Served a w ps (t, pt') w1 (update ps node f.left)) nil
                        f.served)
                      s,
                  λ gone k m. elim (ℕ_discrete k node) [
                    | yes e' ↦ rw e' (f.empty nil)
                    | no ne' ↦
                        subst IsEmpty (update_ne ps node k f.left ne')
                          (empty gone k (omega arith) m ne')
                  ],
                ))
        | no ne ↦
            rw (not_null p ne) (returns (update ps node f.left, f.served, λ nil. absurd (ne nil)))
      ]
