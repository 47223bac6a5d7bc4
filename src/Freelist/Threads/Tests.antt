-- ===== src/Freelist/Threads/Tests.antt =====
-- Two threads: one pushes a block, and the other is about to pop it.
use pool_memalloc.Common.{ℕ, ◌<◌, ◌≡◌, ◌≢◌, refl, Bool, true, List, ◌==◌, arith}
use pool_memalloc.Common.Family.{update}
use pool_memalloc.Heap.{Ptr, null, tagged}
use pool_memalloc.Heap.Chain.{Chain}
use pool_memalloc.Freelist.Threads.{
  idle, System, begin_push, load_push, link, swap_push, begin_pop, load_pop, peek, swap_pop, Step,
  pick, start, Reach, here, later,
}
use pool_memalloc.Freelist.Threads.Invariant.{bit, places}
use pool_memalloc.Freelist.Threads.Change.{Change}
use pool_memalloc.Freelist.Threads.Safety.{Reach-once, Step-Change, peeked-next}

-- The program has block 64.
abbrev one : Ptr → Bool
one x = x == 64

abbrev links : Ptr → Ptr
links x = 7

abbrev Trace : Type 0
Trace = (s : System) × Reach 2 links one s

abbrev step : (t : Trace) {s : System} → Step 2 (t.0) s → Trace
step t {s} move = (s, later (t.1) move)

abbrev pushed : Trace
pushed =
    step
      (step
        (step (step (start links one, here) (pick 0 (omega arith) (begin_push 64 refl)))
          (pick 0 (omega arith) load_push))
        (pick 0 (omega arith) link))
      (pick 0 (omega arith) (swap_push refl))

abbrev about_to_pop : Trace
about_to_pop =
    step
      (step (step pushed (pick 1 (omega arith) begin_pop))
        (pick 1 (omega arith) (load_pop (omega arith))))
      (pick 1 (omega arith) peek)

Reach-once_example :
    (xs : List Ptr) × Chain (about_to_pop.0).mem.next (about_to_pop.0).mem.head.ptr xs
    × ((x : Ptr) → places 2 (about_to_pop.0) xs x ≡ bit (one x))
Reach-once_example = Reach-once refl (about_to_pop.1) (omega arith)

-- The access by which thread 1 takes the block off.
abbrev popped : System
popped = record {
  mem = record {
    next = (about_to_pop.0).mem.next;
    head = tagged 0 2;
    held = update (about_to_pop.0).mem.held 64 true;
    swaps = 2;
  };
  pc = update (about_to_pop.0).pc 1 idle;
}

pop_step : Step 2 (about_to_pop.0) popped
pop_step = pick 1 (omega arith) (swap_pop refl)

Step-Change_example :
    (i : ℕ) × (i < 2)
    × ((j : ℕ) → j ≢ i → popped.pc j ≡ (about_to_pop.0).pc j)
    × ((xs : List Ptr) × (ys : List Ptr) × Chain (about_to_pop.0).mem.next 64 xs
        × Chain popped.mem.next 0 ys
        × Change ((about_to_pop.0).pc i) (popped.pc i) xs ys)
Step-Change_example = Step-Change refl (about_to_pop.1) pop_step (omega arith)

peeked-next_example : (64 ≢ null) × ((about_to_pop.0).mem.next 64 ≡ 0)
peeked-next_example =
    peeked-next refl 1 (tagged 64 1) 0 (about_to_pop.1) (omega arith) (omega arith) refl refl
