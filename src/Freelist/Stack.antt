-- ===== src/Freelist/Stack.antt =====
-- `push` and `pop` of src/freelist_allocator.cpp, read on the stack that a freelist stands for.
use mathlib.Core.Path.{fun_ext}
use pool_memalloc.Common.{
  ℕ, zero, suc, ◌+◌, ◌≤◌, ◌<◌, ◌≡◌, ◌≢◌, refl, ◌∙◌, Bool, false, List, [], ◌∷◌, if◌then◌else◌,
  arith, length,
}
use pool_memalloc.Common.Words.{u64}
use pool_memalloc.Heap.{Ptr, null, tagged, World, Run, ok, pure, and_then, update}
use pool_memalloc.Heap.Access.{not_null, load_next-ok, set_next-ok}
use pool_memalloc.Heap.Returns
use pool_memalloc.Heap.Returns.{Returns, returns}
use pool_memalloc.Heap.Chain.{
  has, Distinct, Chain, SameOutside, Chain-outside, update_self, update_ne,
}
use pool_memalloc.Freelist.{push_loop, push, pop_loop, pop}
use pool_memalloc.Freelist.Cas.{CasOutcome, stored, failed, compare_exchange_weak-CasOutcome}

-- What an operation on freelist `f` leaves alone. Compare-exchanges only use up failures.
pub record Kept (f : ℕ) (w w' : World) : Type 0 where
  pub others : (g : ℕ) → g ≢ f → w'.heads g ≡ w.heads g
  pub local : w'.local ≡ w.local
  pub fewer : length w'.weak ≤ length w.weak

pub Kept-refl : (f : ℕ) (w : World) → Kept f w w
Kept-refl f w = record { others = λ g ne. refl; local = refl; fewer = omega arith }

pub Kept-trans : {f : ℕ} {u v w : World} → Kept f u v → Kept f v w → Kept f u w
Kept-trans k l = record {
  others = λ g ne. ground (arith, k.others g ne, l.others g ne);
  local = cc (k.local, l.local);
  fewer = omega (arith, k.fewer, l.fewer);
}

-- Freelist `f` stands for the stack `xs`.
pub record IsStack (w : World) (f : ℕ) (xs : List Ptr) : Type 0 where
  pub chain : Chain w.next (w.heads f).ptr xs
  pub distinct : Distinct xs

-- After `push`: the block is linked in front, and the head points at it, with the next tag.
pub record Pushed (f : ℕ) (p : Ptr) (w w' : World) : Type 0 where
  pub kept : Kept f w w'
  pub next_eq : w'.next ≡ update w.next p (w.heads f).ptr
  pub head_eq : w'.heads f ≡ tagged p (u64 ((w.heads f).tag + 1))

-- After `pop` of the block at the head.
pub record Popped (f : ℕ) (w : World) (r : Ptr) (w' : World) : Type 0 where
  pub kept : Kept f w w'
  pub next_eq : w'.next ≡ w.next
  pub result : r ≡ (w.heads f).ptr
  pub head_eq : w'.heads f ≡ tagged (w.next r) (u64 ((w.heads f).tag + 1))

update-update : (n : Ptr → Ptr) (p v : Ptr) → update (update n p v) p v ≡ update n p v
update-update n p v = fun_ext λ q. ground arith

-- The world after `node->next = old_head.ptr`.
abbrev linked : ℕ → Ptr → World → World
linked f p w = record w { next = update w.next p (w.heads f).ptr }

push_step :
    (fuel f : ℕ) (p : Ptr) (w : World) {r : Run Bool}
    → ((u : World)
        → length u.weak < fuel
        → Returns (λ _ w'. Pushed f p u w') (push_loop fuel f p u))
    → length w.weak < suc fuel
    → CasOutcome f (tagged p (u64 ((w.heads f).tag + 1))) (linked f p w) r
    → Returns
        (λ _ w'. Pushed f p w w')
        (and_then r (λ done. if done then pure tt else push_loop fuel f p))
push_step fuel f p w ih h (stored rest le) = returns (record {
  kept = record { others = λ g ne. ground arith; local = refl; fewer = le };
  next_eq = refl;
  head_eq = ground arith;
})
push_step fuel f p w ih h (failed rest lt) =
    Returns.mono (ih (record (linked f p w) { weak = rest }) (omega arith)) λ _ w' d. record {
      kept = record {
        others = d.kept.others;
        local = d.kept.local;
        fewer = omega (arith, d.kept.fewer);
      };
      next_eq = d.next_eq ∙ update-update w.next p (w.heads f).ptr;
      head_eq = d.head_eq;
    }

push_loop-Pushed :
    (fuel f : ℕ) (p : Ptr) (w : World)
    → p ≢ null
    → length w.weak < fuel
    → Returns (λ _ w'. Pushed f p w w') (push_loop fuel f p w)
unfolding push_loop
push_loop-Pushed zero f p w ne h = absurd (omega arith)
push_loop-Pushed (suc fuel) f p w ne h = rw (set_next-ok p (w.heads f).ptr w ne) (
    push_step fuel f p w (λ u. push_loop-Pushed fuel f p u ne) h
      (compare_exchange_weak-CasOutcome f (tagged p (u64 ((w.heads f).tag + 1))) (linked f p w)))

pop_step :
    (fuel f : ℕ) (w : World) {r : Run Bool}
    → ((u : World)
        → (u.heads f).ptr ≢ null
        → length u.weak < fuel
        → Returns (Popped f u) (pop_loop fuel f u))
    → (w.heads f).ptr ≢ null
    → length w.weak < suc fuel
    → CasOutcome f (tagged (w.next (w.heads f).ptr) (u64 ((w.heads f).tag + 1))) w r
    → Returns
        (Popped f w)
        (and_then r (λ done. if done then pure (w.heads f).ptr else pop_loop fuel f))
pop_step fuel f w ih ne h (stored rest le) = returns (record {
  kept = record { others = λ g ne. ground arith; local = refl; fewer = le };
  next_eq = refl;
  result = refl;
  head_eq = ground arith;
})
pop_step fuel f w ih ne h (failed rest lt) =
    Returns.mono (ih (record w { weak = rest }) ne (omega arith)) λ r w' d. record {
      kept = record {
        others = d.kept.others;
        local = d.kept.local;
        fewer = omega (arith, d.kept.fewer);
      };
      next_eq = d.next_eq;
      result = d.result;
      head_eq = d.head_eq;
    }

pop_loop-Popped :
    (fuel f : ℕ) (w : World)
    → (w.heads f).ptr ≢ null
    → length w.weak < fuel
    → Returns (Popped f w) (pop_loop fuel f w)
unfolding pop_loop
pop_loop-Popped zero f w ne h = absurd (omega arith)
pop_loop-Popped (suc fuel) f w ne h =
    rw (not_null (w.heads f).ptr ne, load_next-ok (w.heads f).ptr w ne)
      (rw (load_next-ok (w.heads f).ptr w ne) (
        pop_step fuel f w (pop_loop-Popped fuel f) ne h (
          compare_exchange_weak-CasOutcome f
            (tagged (w.next (w.heads f).ptr) (u64 ((w.heads f).tag + 1))) w)))

pop-null : (fuel f : ℕ) (w : World) → (w.heads f).ptr ≡ null → 0 < fuel → pop fuel f w ≡ ok null w
unfolding pop
pop-null zero f w e h = elim h [ ]
pop-null (suc fuel) f w e h = rw e

module _ (fuel f : ℕ) {w : World} (enough : length w.weak < fuel) where
  -- `push` on a stack, total: it puts the block on top, whatever failures are to come.
  pub push-cons :
      {xs : List Ptr} (p : Ptr)
      → IsStack w f xs
      → p ≢ null
      → has p xs ≡ false
      → Returns
          (λ _ w'. IsStack w' f (p ∷ xs) × Kept f w w' × SameOutside (p ∷ []) w.next w'.next)
          (push fuel f p w)
  unfolding push
  push-cons {xs} p is ne out = Returns.mono (push_loop-Pushed fuel f p w ne enough) λ _ w' d.
      let front : w'.next p ≡ (w.heads f).ptr =
        rw d.next_eq (update_self w.next p (w.heads f).ptr) in
      let same : SameOutside (p ∷ []) w.next w'.next =
        λ a o. rw d.next_eq (update_ne w.next p a (w.heads f).ptr (λ e. ground (arith, o))) in
      (
        record {
          chain = rw d.head_eq (
            refl,
            ne,
            rw front (
                Chain-outside w.next w'.next (w.heads f).ptr xs (p ∷ []) same
                  (λ a h. ground (arith, h, out)) is.chain),
          );
          distinct = (out, is.distinct);
        },
        d.kept,
        same,
      )

  pub pop-cons :
      {xs : List Ptr} (p : Ptr)
      → IsStack w f (p ∷ xs)
      → Returns
          (λ r w'. (r ≡ p) × IsStack w' f xs × Kept f w w' × (w'.next ≡ w.next))
          (pop fuel f w)
  unfolding pop
  pop-cons {xs} p is = Returns.mono (pop_loop-Popped fuel f w ne enough) λ r w' d.
      let at_p : r ≡ p = d.result ∙ is.chain.0 in
      (
        at_p,
        record { chain = rw (d.head_eq, d.next_eq, at_p) is.chain.2; distinct = is.distinct.1 },
        d.kept,
        d.next_eq,
      )
    where
      ne : (w.heads f).ptr ≢ null
      ne = rw (is.chain.0) (is.chain.1)

  pub pop-nil : IsStack w f [] → pop fuel f w ≡ ok null w
  pop-nil is = pop-null fuel f w is.chain (omega arith)
