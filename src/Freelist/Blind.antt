-- ===== src/Freelist/Blind.antt =====
-- No operation of the freelist reads or writes the running thread's counters, and more fuel does not
-- change what it does.
use pool_memalloc.Common.{ℕ, zero, suc, ◌+◌, ◌-◌, ◌≤◌, ◌==◌, arith}
use pool_memalloc.Common.Words.{u64}
use pool_memalloc.Heap.{Ptr, null, tagged}
use pool_memalloc.Heap.Alike.{
  Blind, pure-Blind, stop-Blind, bind-Blind, if-Blind, load_next-Blind, set_next-Blind,
  load_head-Blind, compare_exchange_weak-Blind,
}
use pool_memalloc.Freelist.{push_loop, push, pop_loop, pop, push_all, push_bulk, pop_more, pop_bulk}

push_loop-Blind :
    (fuel more f : ℕ) (node : Ptr)
    → fuel ≤ more
    → Blind (push_loop fuel f node) (push_loop more f node)
unfolding push_loop
push_loop-Blind zero more f node h = stop-Blind
push_loop-Blind (suc fuel) zero f node h = absurd (omega arith)
push_loop-Blind (suc fuel) (suc more) f node h = bind-Blind (load_head-Blind f) λ old_head.
    bind-Blind (set_next-Blind node old_head.ptr) λ _.
      bind-Blind (compare_exchange_weak-Blind f old_head (tagged node (u64 (old_head.tag + 1))))
        λ done. if-Blind done (pure-Blind tt) (push_loop-Blind fuel more f node (omega arith))

pop_loop-Blind : (fuel more f : ℕ) → fuel ≤ more → Blind (pop_loop fuel f) (pop_loop more f)
unfolding pop_loop
pop_loop-Blind zero more f h = stop-Blind
pop_loop-Blind (suc fuel) zero f h = absurd (omega arith)
pop_loop-Blind (suc fuel) (suc more) f h = bind-Blind (load_head-Blind f) λ old_head.
    if-Blind (old_head.ptr == null) (pure-Blind null) (
      bind-Blind (load_next-Blind old_head.ptr) λ _.
        bind-Blind (load_next-Blind old_head.ptr) λ next.
          bind-Blind (compare_exchange_weak-Blind f old_head (tagged next (u64 (old_head.tag + 1))))
            λ done.
              if-Blind done (pure-Blind old_head.ptr) (pop_loop-Blind fuel more f (omega arith)))

-- Fuel for the compare-exchange loops, and at least as much.
module _ {fuel more : ℕ} (h : fuel ≤ more) (f : ℕ) where
  push-Blind : (node : Ptr) → Blind (push fuel f node) (push more f node)
  unfolding push
  push-Blind node = push_loop-Blind fuel more f node h

  pop-Blind : Blind (pop fuel f) (pop more f)
  unfolding pop
  pop-Blind = pop_loop-Blind fuel more f h

  push_all-Blind :
      (rounds rounds' : ℕ) (node : Ptr)
      → rounds ≤ rounds'
      → Blind (push_all rounds fuel f node) (push_all rounds' more f node)
  unfolding push_all
  push_all-Blind zero rounds' node l = stop-Blind
  push_all-Blind (suc rounds) zero node l = absurd (omega arith)
  push_all-Blind (suc rounds) (suc rounds') node l = if-Blind (node == null) (pure-Blind tt) (
      bind-Blind (load_next-Blind node)
        λ next. bind-Blind (push-Blind node) λ _. push_all-Blind rounds rounds' next (omega arith))

  pub push_bulk-Blind :
      {rounds rounds' : ℕ} (batch_head batch_tail : Ptr)
      → rounds ≤ rounds'
      → Blind
          (push_bulk rounds fuel f batch_head batch_tail)
          (push_bulk rounds' more f batch_head batch_tail)
  unfolding push_bulk
  push_bulk-Blind {rounds} {rounds'} batch_head batch_tail l =
      bind-Blind (set_next-Blind batch_tail null) λ _. push_all-Blind rounds rounds' batch_head l

  pop_more-Blind : (n : ℕ) (tail : Ptr) → Blind (pop_more n fuel f tail) (pop_more n more f tail)
  unfolding pop_more
  pop_more-Blind zero tail = set_next-Blind tail null
  pop_more-Blind (suc n) tail = bind-Blind pop-Blind λ next.
      if-Blind (next == null) (set_next-Blind tail null)
        (bind-Blind (set_next-Blind tail next) λ _. pop_more-Blind n next)

  pub pop_bulk-Blind : (n : ℕ) → Blind (pop_bulk fuel f n) (pop_bulk more f n)
  unfolding pop_bulk
  pop_bulk-Blind n = bind-Blind pop-Blind λ start.
      if-Blind (start == null) (pure-Blind null)
        (bind-Blind (pop_more-Blind (n - 1) start) λ _. pure-Blind start)
