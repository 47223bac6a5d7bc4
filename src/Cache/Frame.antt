-- ===== src/Cache/Frame.antt =====
-- A thread cache beside the calls of another one.
use mathlib.Core.Path.{subst}
use pool_memalloc.Common.{ℕ, ◌+◌, ◌≤◌, ◌≡◌, ◌≢◌, sym, arith}
use pool_memalloc.Heap.{Ptr, TaggedPtr, World}
use pool_memalloc.Heap.Chain.{Chain, Chain-frame}
use pool_memalloc.Heap.Count.{count_of_has}
use pool_memalloc.Cache.{ThreadCache}
use pool_memalloc.Cache.Spec.{Pools}
use pool_memalloc.Cache.Valid.{IsCache}
use pool_memalloc.Cache.Refill.{Step, owned}

pub IsCache-frame :
    {c : ThreadCache} {p : Pools} (f : ℕ) (blocks : Ptr → ℕ) {w w' : World}
    → IsCache w c p
    → Step f blocks w w'
    → c.global ≢ f
    → ((a : Ptr) → owned p a + blocks a ≤ 1)
    → IsCache w' c p
IsCache-frame {c} {p} f blocks {w} {w'} is s ne apart = record {
  stack = record {
    chain =
        subst (λ (h : TaggedPtr). Chain w'.next h.ptr p.global) (sym (s.others c.global ne))
          (Chain-frame w.next w'.next (w.heads c.global).ptr p.global
            (λ a i. s.same a (omega (arith, apart a, count_of_has a p.global i))) is.stack.chain);
    distinct = is.stack.distinct;
  };
  chain =
      Chain-frame w.next w'.next c.local_head p.local
        (λ a i. s.same a (omega (arith, apart a, count_of_has a p.local i))) is.chain;
  size = is.size;
  once = is.once;
  bounded = is.bounded;
  batch = is.batch;
  low = is.low;
  high = is.high;
}

-- A thread cache after a write to blocks that it does not have.
pub IsCache-next :
    {c : ThreadCache} {p : Pools} {w : World} (g : Ptr → Ptr)
    → IsCache w c p
    → ((a : Ptr) → 1 ≤ owned p a → g a ≡ w.next a)
    → IsCache (record w { next = g }) c p
IsCache-next {c} {p} {w} g is same = record {
  stack = record {
    chain =
        Chain-frame w.next g (w.heads c.global).ptr p.global
          (λ a i. same a (omega (arith, count_of_has a p.global i))) is.stack.chain;
    distinct = is.stack.distinct;
  };
  chain =
      Chain-frame w.next g c.local_head p.local
        (λ a i. same a (omega (arith, count_of_has a p.local i))) is.chain;
  size = is.size;
  once = is.once;
  bounded = is.bounded;
  batch = is.batch;
  low = is.low;
  high = is.high;
}
