-- ===== src/Freelist/Quiet.antt =====
-- The operations of the freelist do not touch the running thread's counters.
use pool_memalloc.Common.{ℕ, zero, suc, ◌+◌, ◌-◌, ◌==◌}
use pool_memalloc.Common.Words.{u64}
use pool_memalloc.Heap.{Ptr, null, tagged}
use pool_memalloc.Heap.Ends.{
  IsQuiet, pure-IsQuiet, stop-IsQuiet, bind-IsQuiet, if-IsQuiet, load_next-IsQuiet,
  set_next-IsQuiet, load_head-IsQuiet, compare_exchange_weak-IsQuiet,
}
use pool_memalloc.Freelist.{push_loop, push, pop_loop, pop, push_all, push_bulk, pop_more, pop_bulk}

module _ (f : ℕ) where
  push_loop-IsQuiet : (fuel : ℕ) (node : Ptr) → IsQuiet (push_loop fuel f node)
  unfolding push_loop
  push_loop-IsQuiet zero node = stop-IsQuiet
  push_loop-IsQuiet (suc fuel) node = bind-IsQuiet (load_head-IsQuiet f) λ old.
      bind-IsQuiet (set_next-IsQuiet node old.ptr) λ _.
        bind-IsQuiet (compare_exchange_weak-IsQuiet f old (tagged node (u64 (old.tag + 1))))
          λ done. if-IsQuiet done (pure-IsQuiet tt) (push_loop-IsQuiet fuel node)

  pop_loop-IsQuiet : (fuel : ℕ) → IsQuiet (pop_loop fuel f)
  unfolding pop_loop
  pop_loop-IsQuiet zero = stop-IsQuiet
  pop_loop-IsQuiet (suc fuel) = bind-IsQuiet (load_head-IsQuiet f) λ old.
      if-IsQuiet (old.ptr == null) (pure-IsQuiet null) (
        bind-IsQuiet (load_next-IsQuiet old.ptr) λ _.
          bind-IsQuiet (load_next-IsQuiet old.ptr) λ next.
            bind-IsQuiet (compare_exchange_weak-IsQuiet f old (tagged next (u64 (old.tag + 1))))
              λ done. if-IsQuiet done (pure-IsQuiet old.ptr) (pop_loop-IsQuiet fuel))

  push_all-IsQuiet : (rounds fuel : ℕ) (node : Ptr) → IsQuiet (push_all rounds fuel f node)
  unfolding push_all push
  push_all-IsQuiet zero fuel node = stop-IsQuiet
  push_all-IsQuiet (suc rounds) fuel node = if-IsQuiet (node == null) (pure-IsQuiet tt) (
      bind-IsQuiet (load_next-IsQuiet node)
        λ next. bind-IsQuiet (push_loop-IsQuiet fuel node) λ _. push_all-IsQuiet rounds fuel next)

  pub push_bulk-IsQuiet :
      (rounds fuel : ℕ) (batch_head batch_tail : Ptr)
      → IsQuiet (push_bulk rounds fuel f batch_head batch_tail)
  unfolding push_bulk
  push_bulk-IsQuiet rounds fuel batch_head batch_tail =
      bind-IsQuiet (set_next-IsQuiet batch_tail null) λ _. push_all-IsQuiet rounds fuel batch_head

  pop_more-IsQuiet : (n fuel : ℕ) (tail : Ptr) → IsQuiet (pop_more n fuel f tail)
  unfolding pop_more pop
  pop_more-IsQuiet zero fuel tail = set_next-IsQuiet tail null
  pop_more-IsQuiet (suc n) fuel tail = bind-IsQuiet (pop_loop-IsQuiet fuel) λ next.
      if-IsQuiet (next == null) (set_next-IsQuiet tail null)
        (bind-IsQuiet (set_next-IsQuiet tail next) λ _. pop_more-IsQuiet n fuel next)

  pub pop_bulk-IsQuiet : (fuel n : ℕ) → IsQuiet (pop_bulk fuel f n)
  unfolding pop_bulk pop
  pop_bulk-IsQuiet fuel n = bind-IsQuiet (pop_loop-IsQuiet fuel) λ start.
      if-IsQuiet (start == null) (pure-IsQuiet null)
        (bind-IsQuiet (pop_more-IsQuiet (n - 1) fuel start) λ _. pure-IsQuiet start)
