-- ===== src/Bench/Walks.antt =====
-- The walks of locality_walk.cpp over any allocator that keeps the contract.
use mathlib.Core.Path.{subst}
use pool_memalloc.Heap.Chain.{has}
use pool_memalloc.Common.{
  sym, ◌∙◌, ℕ, zero, suc, ◌≤◌, ◌≡◌, refl, true, Option, some, List, [], ◌∷◌, arith,
}
use pool_memalloc.Heap.{Ptr}
use pool_memalloc.Heap.Count.{count_of_has, count}
use pool_memalloc.Bench.{walk, walks, Worker, Access, bump}
use pool_memalloc.Bench.Contract.{Contract}
use pool_memalloc.Bench.Workers.{IsWorking, Own-count}

module _ {S : Type 0} {allocate : S → Option (S × Ptr)} {release : S → Ptr → Option S}
    {touch : S → Access → Option S} (c : Contract allocate release touch) (m0 : Ptr → ℕ)
    (once : (x : Ptr) → m0 x ≤ 1) where
  -- The blocks that a worker touches on a walk are in its vector.
  pub walk-IsWorking :
      (ps : List Ptr) (w : Worker S)
      → ((x : Ptr) → has x ps ≡ true → has x w.ptrs ≡ true)
      → IsWorking c m0 once w
      → (w' : Worker S) × (walk allocate release touch ps w ≡ some w')
        × IsWorking c m0 once w'
        × (w'.ptrs ≡ w.ptrs)
  unfolding walk
  walk-IsWorking [] w kept is = (w, refl, is, refl)
  walk-IsWorking (p ∷ ps) w kept is =
      let held : 1 ≤ count p w.ptrs = count_of_has p w.ptrs (kept p (ground arith)) in
      let (o, ne) = Own-count c m0 once w.ptrs is.own p held in
      let (s1, e1, f1) =
        c.touch_law w.state is.free (bump p) is.state o (omega (arith, is.counts p, once p, held))
          c.roomy in
      let (w2, e2, is2, same) =
        walk-IsWorking ps (record w { state = s1; accesses = bump p ∷ w.accesses })
          (λ x h. kept x (ground (arith, h)))
          (record {
            free = is.free;
            state = f1;
            counts = is.counts;
            own = is.own;
            inside = (omega (arith, is.counts p, once p, held), is.inside);
          }) in
      (w2, rw (walk, e1) e2, is2, same)

  walks_of :
      (rounds : ℕ) (ps : List Ptr) (w : Worker S)
      → ps ≡ w.ptrs
      → IsWorking c m0 once w
      → (w' : Worker S) × (walks allocate release touch rounds ps w ≡ some w')
        × IsWorking c m0 once w'
  unfolding walks
  walks_of zero ps w at is = (w, refl, is)
  walks_of (suc rounds) ps w at is =
      let (w1, e1, is1, same) =
        walk-IsWorking ps w (λ x h. subst (λ (l : List Ptr). has x l ≡ true) at h) is in
      let (w2, e2, is2) = walks_of rounds ps w1 (at ∙ sym same) is1 in (w2, rw (walks, e1) e2, is2)

  pub walks-IsWorking :
      (rounds : ℕ) (w : Worker S)
      → IsWorking c m0 once w
      → (w' : Worker S) × (walks allocate release touch rounds w.ptrs w ≡ some w')
        × IsWorking c m0 once w'
  walks-IsWorking rounds w is = walks_of rounds w.ptrs w refl is
