-- ===== src/Freelist/Threads/Change.antt =====
-- What one thread does to the shared memory and to its place in the code, and when that keeps the
-- invariant of the freelist.
use pool_memalloc.Common.{
  ℕ, ◌+◌, ◌≤◌, ◌<◌, ◌≡◌, ◌≢◌, refl, ap, Bool, false, List, ◌∷◌, arith, ℕ_discrete,
}
use pool_memalloc.Common.Family.{update, update_self, update_ne, total-update, le-total}
use pool_memalloc.Heap.{Ptr, null}
use pool_memalloc.Heap.Chain.{Chain, Chain-update}
use pool_memalloc.Heap.Count.{count, has_of_count}
use pool_memalloc.Freelist.Threads.{
  Shared, Pc, idle, pushing, loaded, linked, popping, seen, peeked, System,
}
use pool_memalloc.Freelist.Threads.Invariant.{bit, owns, Knows, IsSound, Knows-frame, Chain-top}

-- What becomes of the stack `xs` when a thread goes from one place in the code to the next: the
-- compare-exchange that ends `push` puts the thread's block on top, the one that ends `pop` takes
-- off the block that the thread has read as the head, and nothing else changes the stack.
abbrev pub Change : Pc → Pc → List Ptr → List Ptr → Type 0
Change (linked node old) idle xs ys = ys ≡ node ∷ xs
Change (peeked old next) idle xs ys = xs ≡ old.ptr ∷ ys
Change _ _ xs ys = ys ≡ xs

pub Change-self : (p : Pc) (xs : List Ptr) → Change p p xs xs
Change-self idle xs = refl
Change-self (pushing node) xs = refl
Change-self (loaded node old) xs = refl
Change-self (linked node old) xs = refl
Change-self popping xs = refl
Change-self (seen old) xs = refl
Change-self (peeked old next) xs = refl

module _ {n : ℕ} {blocks : Ptr → Bool} {s : System} {xs : List Ptr} (is : IsSound n blocks s xs)
    (no_null : blocks null ≡ false) (i : ℕ) (h : i < n) where
  abbrev pub after : Shared → Pc → System
  after m p = record { mem = m; pc = update s.pc i p }

  abbrev pub Sound : (List Ptr → Type 0) → Shared → Pc → Type 0
  Sound becomes m p = (ys : List Ptr) × IsSound n blocks (after m p) ys × becomes ys

  -- The stack stays.
  abbrev pub Quiet : Shared → Pc → Type 0
  Quiet = Sound (λ (ys : List Ptr). ys ≡ xs)

  pub assemble :
      (m : Shared) (p : Pc) (ys : List Ptr)
      → Chain m.next m.head.ptr ys
      → ((x : Ptr)
          → count x ys + bit (m.held x) + owns x p
            ≡ count x xs + bit (s.mem.held x) + owns x (s.pc i))
      → m.head.tag ≡ m.swaps
      → Knows m p
      → ((j : ℕ) → j < n → j ≢ i → Knows m (s.pc j))
      → IsSound n blocks (after m p) ys
  assemble m p ys chain same tag mine others = record {
    chain = chain;
    once = λ x. omega (arith, total-update (owns x) n s.pc i p h, same x, is.once x);
    tag = tag;
    knows = λ j k. elim (ℕ_discrete j i) [
      | yes e ↦ rw (e, update_self s.pc i p) mine
      | no ne ↦ rw (update_ne s.pc i j p ne) (others j k ne)
    ];
  }

  -- Only the thread's place in the code changes.
  pub quiet : (p : Pc) → ((x : Ptr) → owns x p ≡ owns x (s.pc i)) → Knows s.mem p → Quiet s.mem p
  quiet p same mine = (
    xs,
    assemble s.mem p xs is.chain (λ x. omega (arith, same x)) is.tag mine (λ j k ne. is.knows j k),
    refl,
  )

  -- A write into a block that is neither on the stack nor another thread's.
  pub write :
      (block value : Ptr) (p : Pc)
      → count block xs ≡ 0
      → ((j : ℕ) → j < n → j ≢ i → owns block (s.pc j) ≡ 0)
      → ((x : Ptr) → owns x p ≡ owns x (s.pc i))
      → Knows (record (s.mem) { next = update s.mem.next block value }) p
      → Quiet (record (s.mem) { next = update s.mem.next block value }) p
  write block value p off apart same mine = (
    xs,
    assemble (record (s.mem) { next = update s.mem.next block value }) p xs
        (Chain-update s.mem.next s.mem.head.ptr block value xs (has_of_count block xs off) is.chain)
        (λ x. omega (arith, same x)) is.tag mine
        (λ j k ne.
          Knows-frame s.mem (update s.mem.next block value) s.mem.held (s.pc j) top
            (λ x o. update_ne s.mem.next block x value (λ e. ground (arith, o, e, apart j k ne)))
            (is.knows j k)),
    refl,
  )
    where
      top :
          s.mem.head.ptr ≢ null
          → update s.mem.next block value s.mem.head.ptr ≡ s.mem.next s.mem.head.ptr
      top real =
          let (ys, e, c) = Chain-top s.mem.next s.mem.head.ptr xs is.chain real in
          update_ne s.mem.next block s.mem.head.ptr value
            (λ same. ground (arith, off, ap (count block) e, same))

  pub not_null : (x : Ptr) → 1 ≤ count x xs + bit (s.mem.held x) + owns x (s.pc i) → x ≢ null
  not_null x o e =
      let gone = rw e at o in
      ground (arith, gone, is.once null, le-total (owns null) n s.pc i h, no_null)
