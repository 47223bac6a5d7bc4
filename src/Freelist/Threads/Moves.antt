-- ===== src/Freelist/Threads/Moves.antt =====
-- The invariant of the freelist under one move of one thread, and what the move does to the stack.
use mathlib.Core.Path.{subst}
use pool_memalloc.Common.{
  ℕ, suc, ◌+◌, ◌^◌, ◌<◌, ◌≡◌, ◌≢◌, refl, sym, ap, ◌∙◌, Bool, true, false, List, ◌∷◌, arith,
  ℕ_discrete,
}
use pool_memalloc.Common.Words.{u64}
use pool_memalloc.Common.Family.{update, update_self, update_ne, le-total}
use pool_memalloc.Heap.{Ptr, null, TaggedPtr, tagged}
use pool_memalloc.Heap.Chain.{Chain}
use pool_memalloc.Heap.Count.{count}
use pool_memalloc.Freelist.Threads.{
  Shared, Pc, idle, pushing, loaded, linked, popping, seen, peeked, System, Move, begin_push,
  load_push, link, swap_push, fail_push, begin_pop, load_pop, empty, peek, swap_pop, fail_pop,
  scribble,
}
use pool_memalloc.Freelist.Threads.Invariant.{
  owns, Knows, IsSound, Knows-frame, Knows-swap, held-apart, owned-apart, Chain-top,
}
use pool_memalloc.Freelist.Threads.Change.{
  Change, Change-self, after, Sound, Quiet, assemble, quiet, write, not_null,
}

module _ {n : ℕ} {blocks : Ptr → Bool} {s : System} {xs : List Ptr} (is : IsSound n blocks s xs)
    (no_null : blocks null ≡ false) (i : ℕ) (h : i < n) where
  -- What the thread knows, and which block it owns, where its place in the code is known.
  known : {p : Pc} → s.pc i ≡ p → Knows s.mem p
  known at = subst (Knows s.mem) at (is.knows i h)

  mine : {p : Pc} → s.pc i ≡ p → (x : Ptr) → owns x (s.pc i) ≡ owns x p
  mine at x = ap (owns x) at

  begin_push-Sound :
      (node : Ptr)
      → s.pc i ≡ idle
      → s.mem.held node ≡ true
      → Quiet is no_null i h (record (s.mem) { held = update s.mem.held node false }) (pushing node)
  begin_push-Sound node at have = (
    xs,
    assemble is no_null i h (record (s.mem) { held = update s.mem.held node false }) (pushing node)
        xs is.chain (λ x. ground (arith, mine at x, have)) is.tag tt
        (λ j k ne.
          Knows-frame s.mem s.mem.next (update s.mem.held node false) (s.pc j) (λ r. refl)
            (λ x o. refl) (is.knows j k)),
    refl,
  )

  -- The compare-exchange of `push` finds the head that the thread has read.
  swap_push-Sound :
      (node : Ptr) (old : TaggedPtr)
      → s.pc i ≡ linked node old
      → s.mem.head ≡ old
      → suc s.mem.swaps < 2 ^ 64
      → Sound is no_null i h
          (λ (ys : List Ptr). ys ≡ node ∷ xs)
          (record (s.mem) { head = tagged node (u64 (old.tag + 1)); swaps = suc s.mem.swaps })
          idle
  swap_push-Sound node old at now small = (
    node ∷ xs,
    assemble is no_null i h
        (record (s.mem) { head = tagged node (u64 (old.tag + 1)); swaps = suc s.mem.swaps }) idle
        (node ∷ xs)
        (
          refl,
          not_null is no_null i h node (ground (arith, mine at node)),
          subst (λ (t : Ptr). Chain s.mem.next t xs) behind is.chain,
        )
        (λ x. ground (arith, mine at x)) (omega (arith, is.tag, ap (λ (t : TaggedPtr). t.tag) now))
        tt
        (λ j k ne.
          Knows-swap s.mem (tagged node (u64 (old.tag + 1))) s.mem.held (s.pc j) (is.knows j k)),
    refl,
  )
    where
      behind : s.mem.head.ptr ≡ s.mem.next node
      behind = ap (λ (t : TaggedPtr). t.ptr) now ∙ sym ((known at).1)

  -- The compare-exchange of `pop` finds the head that the thread has read: the block that it read as
  -- the next one is still the next one.
  swap_pop-Sound :
      (old : TaggedPtr) (next : Ptr)
      → s.pc i ≡ peeked old next
      → s.mem.head ≡ old
      → suc s.mem.swaps < 2 ^ 64
      → Sound is no_null i h
          (λ (ys : List Ptr). xs ≡ old.ptr ∷ ys)
          (record (s.mem) {
            head = tagged next (u64 (old.tag + 1));
            held = update s.mem.held old.ptr true;
            swaps = suc s.mem.swaps;
          })
          idle
  swap_pop-Sound old next at now small =
      let (k, real, same) = known at in
      let ptr_eq : s.mem.head.ptr ≡ old.ptr = ap (λ (t : TaggedPtr). t.ptr) now in
      let tag_eq : s.mem.head.tag ≡ old.tag = ap (λ (t : TaggedPtr). t.tag) now in
      let (ys, e, c) =
        Chain-top s.mem.next s.mem.head.ptr xs is.chain (λ z. real (sym ptr_eq ∙ z)) in
      let follows : s.mem.next s.mem.head.ptr ≡ next =
        ap s.mem.next ptr_eq ∙ same (sym tag_eq ∙ is.tag) in
      let e' : xs ≡ old.ptr ∷ ys = e ∙ ap (λ (t : Ptr). t ∷ ys) ptr_eq in
      (
        ys,
        assemble is no_null i h
            (record (s.mem) {
              head = tagged next (u64 (old.tag + 1));
              held = update s.mem.held old.ptr true;
              swaps = suc s.mem.swaps;
            })
            idle ys (subst (λ (t : Ptr). Chain s.mem.next t ys) follows c)
            (λ x. elim (ℕ_discrete x old.ptr) [
              | yes q ↦ ground (arith, mine at x, ap (count x) e', is.once x, q)
              | no q ↦ ground (arith, mine at x, ap (count x) e', q)
            ])
            (omega (arith, is.tag, tag_eq)) tt
            (λ j k ne.
              Knows-swap s.mem (tagged next (u64 (old.tag + 1))) (update s.mem.held old.ptr true)
                (s.pc j) (is.knows j k)),
        e',
      )

  scribble-Sound :
      {p : Pc} (block value : Ptr)
      → s.pc i ≡ p
      → s.mem.held block ≡ true
      → Quiet is no_null i h (record (s.mem) { next = update s.mem.next block value }) p
  scribble-Sound {p} block value at have =
      let (off, none_) = held-apart is block have in
      write is no_null i h block value p off
        (λ j k ne. omega (arith, none_, le-total (owns block) n s.pc j k)) (λ x. sym (mine at x))
        (Knows-frame s.mem (update s.mem.next block value) s.mem.held p top
          (λ x o.
            update_ne s.mem.next block x value
              (λ e. ground (arith, o, e, none_, le-total (owns block) n s.pc i h, mine at block)))
          (known at))
    where
      top :
          s.mem.head.ptr ≢ null
          → update s.mem.next block value s.mem.head.ptr ≡ s.mem.next s.mem.head.ptr
      top real =
          let (ys, e, c) = Chain-top s.mem.next s.mem.head.ptr xs is.chain real in
          let (off, none_) = held-apart is block have in
          update_ne s.mem.next block s.mem.head.ptr value
            (λ same. ground (arith, off, ap (count block) e, same))

  link-Sound :
      (node : Ptr) (old : TaggedPtr)
      → s.pc i ≡ loaded node old
      → Quiet is no_null i h
          (record (s.mem) { next = update s.mem.next node old.ptr })
          (linked node old)
  link-Sound node old at =
      let (off, free, others) = owned-apart is i node h (ground (arith, mine at node)) in
      write is no_null i h node old.ptr (linked node old) off others (λ x. sym (mine at x))
        (
          record { earlier = (known at).earlier; present = (known at).present },
          update_self s.mem.next node old.ptr,
        )

  -- Every move keeps the invariant, as long as the tag has not wrapped.
  pub Move-Sound :
      {p p' : Pc} {m : Shared}
      → s.pc i ≡ p
      → Move s.mem p m p'
      → m.swaps < 2 ^ 64
      → (ys : List Ptr) × IsSound n blocks (after is no_null i h m p') ys × Change p p' xs ys
  Move-Sound at (begin_push node have) small = begin_push-Sound node at have
  Move-Sound at (load_push {node}) small =
      quiet is no_null i h (loaded node s.mem.head) (λ x. sym (mine at x))
        (record { earlier = omega (arith, is.tag); present = λ e. refl })
  Move-Sound at (link {node} {old}) small = link-Sound node old at
  Move-Sound at (swap_push {node} {old} now) small = swap_push-Sound node old at now small
  Move-Sound at (fail_push {node} {old}) small =
      quiet is no_null i h (pushing node) (λ x. sym (mine at x)) tt
  Move-Sound at begin_pop small = quiet is no_null i h popping (λ x. sym (mine at x)) tt
  Move-Sound at (load_pop real) small =
      quiet is no_null i h (seen s.mem.head) (λ x. sym (mine at x))
        (record { earlier = omega (arith, is.tag); present = λ e. refl }, real)
  Move-Sound at (empty nil) small = quiet is no_null i h idle (λ x. sym (mine at x)) tt
  Move-Sound at (peek {old}) small =
      let (k, real) = known at in
      quiet is no_null i h (peeked old (s.mem.next old.ptr)) (λ x. sym (mine at x))
        (k, real, λ e. refl)
  Move-Sound at (swap_pop {old} {next} now) small = swap_pop-Sound old next at now small
  Move-Sound at (fail_pop {old} {next}) small =
      quiet is no_null i h popping (λ x. sym (mine at x)) tt
  Move-Sound {p} at (scribble block value have) small =
      let (ys, is', same) = scribble-Sound block value at have in
      (ys, is', subst (Change p p xs) (sym same) (Change-self p xs))
