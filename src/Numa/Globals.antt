-- ===== src/Numa/Globals.antt =====
-- The freelists of the pools while the constructor of `NumaAllocator` runs.
use pool_memalloc.Common.{ℕ, zero, suc, ◌+◌, ◌≤◌, ◌<◌, ◌≡◌, refl, arith, ℕ_discrete}
use pool_memalloc.Heap.{null, World, tagged, update}
use pool_memalloc.Heap.Returns
use pool_memalloc.Heap.Returns.{Returns, returns}
use pool_memalloc.Freelist
use pool_memalloc.TlFreelist
use pool_memalloc.Numa.{push_blocks, construct_globals}

-- The loop is that of `ThreadLocalFreelistAllocator`.
pub push_blocks_eq :
    (fuel f region size rounds i : ℕ)
    → push_blocks fuel f region size rounds i ≡ TlFreelist.push_blocks fuel f region size rounds i
unfolding push_blocks TlFreelist.push_blocks
push_blocks_eq fuel f region size zero i = refl
push_blocks_eq fuel f region size (suc rounds) i =
    rw (push_blocks_eq fuel f region size rounds (i + 1)) refl

-- The constructor of all freelists from `f` on leaves them empty.
pub record Emptied (f n : ℕ) (w w' : World) : Type 0 where
  pub empty : (k : ℕ) → f ≤ k → k < f + n → (w'.heads k).ptr ≡ null
  pub others : (k : ℕ) → k < f → w'.heads k ≡ w.heads k
  pub weak : w'.weak ≡ w.weak

pub construct_globals-Emptied :
    (n f : ℕ) (w : World) → Returns (λ _ w'. Emptied f n w w') (construct_globals n f w)
unfolding construct_globals Freelist.construct
construct_globals-Emptied zero f w =
    returns (record { empty = λ k h l. absurd (omega arith); others = λ k h. refl; weak = refl })
construct_globals-Emptied (suc n) f w =
    Returns.mono
      (construct_globals-Emptied n (f + 1) (record w { heads = update w.heads f (tagged null 0) }))
      λ _ w' d. record {
        empty = λ k h l. elim (ℕ_discrete k f) [
          | yes e ↦ ground (arith, e, d.others f (omega arith))
          | no ne ↦ d.empty k (omega arith) (omega arith)
        ];
        others = λ k h. ground (arith, d.others k (omega arith));
        weak = d.weak;
      }
