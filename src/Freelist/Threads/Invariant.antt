-- ===== src/Freelist/Threads/Invariant.antt =====
-- What holds of the freelist between any two accesses of its threads.
use pool_memalloc.Common.{
  ℕ, suc, ◌+◌, ◌≤◌, ◌<◌, ◌≡◌, ◌≢◌, sym, ap, ◌∙◌, Bool, true, false, List, [], ◌∷◌, ◌==◌,
  if◌then◌else◌, arith,
}
use pool_memalloc.Common.Family.{total, le-total, le-total_two}
use pool_memalloc.Heap.{Ptr, null, TaggedPtr}
use pool_memalloc.Heap.Chain.{Chain}
use pool_memalloc.Heap.Count.{count}
use pool_memalloc.Freelist.Threads.{
  Shared, Pc, idle, pushing, loaded, linked, popping, seen, peeked, System,
}

abbrev pub bit : Bool → ℕ
bit b = if b then 1 else 0

-- The block that a thread is about to push.
abbrev pub owns : Ptr → Pc → ℕ
owns x idle = 0
owns x (pushing node) = bit (x == node)
owns x (loaded node old) = bit (x == node)
owns x (linked node old) = bit (x == node)
owns x popping = 0
owns x (seen old) = 0
owns x (peeked old next) = 0

-- How many places a block is in: the stack, the program, a thread.
abbrev pub places : ℕ → System → List Ptr → Ptr → ℕ
places n s xs x = count x xs + bit (s.mem.held x) + total (owns x) n s.pc

-- A head that a thread has read is an earlier one, or else the present one.
pub record IsSeen (m : Shared) (old : TaggedPtr) : Type 0 where
  pub earlier : old.tag ≤ m.swaps
  pub present : old.tag ≡ m.swaps → m.head ≡ old

-- What a thread may rely on between its accesses.
abbrev pub Knows : Shared → Pc → Type 0
Knows m idle = Unit
Knows m (pushing node) = Unit
Knows m (loaded node old) = IsSeen m old
Knows m (linked node old) = IsSeen m old × (m.next node ≡ old.ptr)
Knows m popping = Unit
Knows m (seen old) = IsSeen m old × (old.ptr ≢ null)
Knows m (peeked old next) =
    IsSeen m old × (old.ptr ≢ null) × (old.tag ≡ m.swaps → m.next old.ptr ≡ next)

-- The freelist stands for the stack `xs`; every one of the `blocks` is in one place; the tag counts
-- the successful compare-exchanges.
pub record IsSound (n : ℕ) (blocks : Ptr → Bool) (s : System) (xs : List Ptr) : Type 0 where
  pub chain : Chain s.mem.next s.mem.head.ptr xs
  pub once : (x : Ptr) → places n s xs x ≡ bit (blocks x)
  pub tag : s.mem.head.tag ≡ s.mem.swaps
  pub knows : (i : ℕ) → i < n → Knows s.mem (s.pc i)

-- Writes that spare the head and the thread's own block leave it what it knows.
pub Knows-frame :
    (m : Shared) (next : Ptr → Ptr) (held : Ptr → Bool) (p : Pc)
    → (m.head.ptr ≢ null → next m.head.ptr ≡ m.next m.head.ptr)
    → ((x : Ptr) → 1 ≤ owns x p → next x ≡ m.next x)
    → Knows m p
    → Knows (record m { next = next; held = held }) p
Knows-frame m next held idle top own k = tt
Knows-frame m next held (pushing node) top own k = tt
Knows-frame m next held (loaded node old) top own k = record {
  earlier = k.earlier;
  present = k.present;
}
Knows-frame m next held (linked node old) top own (k, e) =
    (record { earlier = k.earlier; present = k.present }, own node (ground arith) ∙ e)
Knows-frame m next held popping top own k = tt
Knows-frame m next held (seen old) top own (k, ne) =
    (record { earlier = k.earlier; present = k.present }, ne)
Knows-frame m next held (peeked old nx) top own (k, ne, same) = (
  record { earlier = k.earlier; present = k.present },
  ne,
  λ now.
      let at : m.head.ptr ≡ old.ptr = ap (λ (h : TaggedPtr). h.ptr) (k.present now) in
      ap next (sym at) ∙ top (λ e. ne (sym at ∙ e)) ∙ ap m.next at ∙ same now,
)

-- After a successful compare-exchange every head that was read before is an earlier one.
pub Knows-swap :
    (m : Shared) (head : TaggedPtr) (held : Ptr → Bool) (p : Pc)
    → Knows m p
    → Knows (record m { head = head; held = held; swaps = suc m.swaps }) p
Knows-swap m head held idle k = tt
Knows-swap m head held (pushing node) k = tt
Knows-swap m head held (loaded node old) k = past k
  where
    past : IsSeen m old → IsSeen (record m { head = head; held = held; swaps = suc m.swaps }) old
    past k = record {
      earlier = omega (arith, k.earlier);
      present = λ e. absurd (omega (arith, k.earlier));
    }
Knows-swap m head held (linked node old) (k, e) = (
  record { earlier = omega (arith, k.earlier); present = λ e. absurd (omega (arith, k.earlier)) },
  e,
)
Knows-swap m head held popping k = tt
Knows-swap m head held (seen old) (k, ne) = (
  record { earlier = omega (arith, k.earlier); present = λ e. absurd (omega (arith, k.earlier)) },
  ne,
)
Knows-swap m head held (peeked old nx) (k, ne, same) = (
  record { earlier = omega (arith, k.earlier); present = λ e. absurd (omega (arith, k.earlier)) },
  ne,
  λ now. absurd (omega (arith, k.earlier)),
)

module _ {n : ℕ} {blocks : Ptr → Bool} {s : System} {xs : List Ptr}
    (is : IsSound n blocks s xs) where
  -- A block that the program holds, or a thread is about to push, is not on the stack.
  pub held-apart : (x : Ptr) → s.mem.held x ≡ true → (count x xs ≡ 0) × (total (owns x) n s.pc ≡ 0)
  held-apart x h = (ground (arith, is.once x, h), ground (arith, is.once x, h))

  pub owned-apart :
      (i : ℕ) (x : Ptr)
      → i < n
      → 1 ≤ owns x (s.pc i)
      → (count x xs ≡ 0) × (s.mem.held x ≡ false) × ((j : ℕ) → j < n → j ≢ i → owns x (s.pc j) ≡ 0)
  owned-apart i x h o = (
    ground (arith, is.once x, le-total (owns x) n s.pc i h),
    ground (arith, is.once x, le-total (owns x) n s.pc i h),
    λ j k ne. ground (arith, is.once x, le-total_two (owns x) n s.pc i j h k (λ e. ne (sym e))),
  )

-- The top of a stack that is not empty.
pub Chain-top :
    (f : Ptr → Ptr) (p : Ptr) (xs : List Ptr)
    → Chain f p xs
    → p ≢ null
    → (ys : List Ptr) × (xs ≡ p ∷ ys) × Chain f (f p) ys
Chain-top f p [] c ne = absurd (ne c)
Chain-top f p (x ∷ ys) (e, ne', c) ne = (ys, ap (λ (t : Ptr). t ∷ ys) (sym e), rw e c)
