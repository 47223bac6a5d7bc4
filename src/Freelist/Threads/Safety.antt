-- ===== src/Freelist/Threads/Safety.antt =====
-- The reachable states of `push` and `pop` of src/freelist_allocator.cpp in several threads.
use mathlib.Core.Path.{subst}
use pool_memalloc.Common.{
  ℕ, ◌^◌, ◌≤◌, ◌<◌, ◌≡◌, ◌≢◌, refl, sym, ap, ◌∙◌, Bool, false, List, [], arith,
}
use pool_memalloc.Common.Family.{total-zero, update_self, update_ne}
use pool_memalloc.Heap.{Ptr, null, TaggedPtr}
use pool_memalloc.Heap.Chain.{Chain}
use pool_memalloc.Freelist.Threads.{
  Shared, Pc, idle, peeked, System, Move, begin_push, load_push, link, swap_push, fail_push,
  begin_pop, load_pop, empty, peek, swap_pop, fail_pop, scribble, Step, pick, start, Reach, here,
  later,
}
use pool_memalloc.Freelist.Threads.Invariant.{bit, owns, places, Knows, IsSound}
use pool_memalloc.Freelist.Threads.Moves.{Move-Sound}
use pool_memalloc.Freelist.Threads.Change.{Change}

Move-swaps : {m m' : Shared} {p p' : Pc} → Move m p m' p' → m.swaps ≤ m'.swaps
Move-swaps (begin_push node have) = omega arith
Move-swaps load_push = omega arith
Move-swaps link = omega arith
Move-swaps (swap_push now) = omega arith
Move-swaps fail_push = omega arith
Move-swaps begin_pop = omega arith
Move-swaps (load_pop real) = omega arith
Move-swaps (empty nil) = omega arith
Move-swaps peek = omega arith
Move-swaps (swap_pop now) = omega arith
Move-swaps fail_pop = omega arith
Move-swaps (scribble block value have) = omega arith

module _ {n : ℕ} {next : Ptr → Ptr} {blocks : Ptr → Bool} (no_null : blocks null ≡ false) where
  start-IsSound : IsSound n blocks (start next blocks) []
  start-IsSound = record {
    chain = refl;
    once = λ x. omega (arith, total-zero (owns x) n (λ i. idle) (λ j h. refl));
    tag = refl;
    knows = λ i h. tt;
  }

  Reach-IsSound :
      {s : System}
      → Reach n next blocks s
      → s.mem.swaps < 2 ^ 64
      → (xs : List Ptr) × IsSound n blocks s xs
  Reach-IsSound here small = ([], start-IsSound)
  Reach-IsSound (later r (pick i h move)) small =
      let (xs, is) = Reach-IsSound r (omega (arith, Move-swaps move)) in
      let (ys, is', change) = Move-Sound is no_null i h refl move small in (ys, is')

  -- However the accesses of the threads in `push` and `pop` interleave, as long as fewer than 2 ^ 64
  -- compare-exchanges have succeeded: the `next` pointers lead from the head through the blocks of a
  -- stack, and every block of the program is in exactly one place, on that stack, with the program,
  -- or with the one thread that pushes it.
  pub Reach-once :
      {s : System}
      → Reach n next blocks s
      → s.mem.swaps < 2 ^ 64
      → (xs : List Ptr) × Chain s.mem.next s.mem.head.ptr xs
        × ((x : Ptr) → places n s xs x ≡ bit (blocks x))
  Reach-once r small = let (xs, is) = Reach-IsSound r small in (xs, is.chain, is.once)

  -- As long as fewer than 2 ^ 64 compare-exchanges have succeeded, one access of a thread leaves every
  -- other thread at its place in the code, and `push` and `pop` take effect at their
  -- compare-exchange: the one that succeeds in `push` puts the thread's block on top of the stack, the
  -- one that succeeds in `pop` takes off the block that the thread has read as the head, and every
  -- other access leaves the stack as it is.
  pub Step-Change :
      {s t : System}
      → Reach n next blocks s
      → Step n s t
      → t.mem.swaps < 2 ^ 64
      → (i : ℕ) × (i < n)
        × ((j : ℕ) → j ≢ i → t.pc j ≡ s.pc j)
        × ((xs : List Ptr) × (ys : List Ptr) × Chain s.mem.next s.mem.head.ptr xs
            × Chain t.mem.next t.mem.head.ptr ys
            × Change (s.pc i) (t.pc i) xs ys)
  Step-Change {s} r (pick i {m} {p} h move) small =
      let (xs, is) = Reach-IsSound r (omega (arith, Move-swaps move)) in
      let (ys, is', change) = Move-Sound is no_null i h refl move small in
      (
        i,
        h,
        λ j ne. update_ne s.pc i j p ne,
        (
          xs,
          ys,
          is.chain,
          is'.chain,
          subst (λ (q : Pc). Change (s.pc i) q xs ys) (sym (update_self s.pc i p)) change,
        ),
      )

  -- The tag rules out the ABA problem: as long as fewer than 2 ^ 64 compare-exchanges have succeeded,
  -- if a thread in `pop` finds the head that it has read, the pointer that it has read behind it is
  -- still the one that is there, whatever has happened between.
  pub peeked-next :
      {s : System} (i : ℕ) (old : TaggedPtr) (p : Ptr)
      → Reach n next blocks s
      → s.mem.swaps < 2 ^ 64
      → i < n
      → s.pc i ≡ peeked old p
      → s.mem.head ≡ old
      → (old.ptr ≢ null) × (s.mem.next old.ptr ≡ p)
  peeked-next {s} i old p r small h at now =
      let (xs, is) = Reach-IsSound r small in
      let (k, real, same) = subst (Knows s.mem) at (is.knows i h) in
      (real, same (ap (λ (t : TaggedPtr). t.tag) (sym now) ∙ is.tag))
