-- ===== src/Freelist/Bulk.antt =====
-- `push_bulk` and `pop_bulk` move a whole batch.
use mathlib.Core.List.{reverse_aux}
use pool_memalloc.Common.{
  ℕ, zero, suc, ◌-◌, ◌<◌, ◌≡◌, ◌≢◌, refl, ap, ◌∙◌, true, false, List, [], ◌∷◌, arith, length, take,
  drop,
}
use pool_memalloc.Heap.{Ptr, null, World, update}
use pool_memalloc.Heap.Access.{not_null, load_next-ok, set_next-ok}
use pool_memalloc.Heap.Returns
use pool_memalloc.Heap.Returns.{Returns, returns}
use pool_memalloc.Heap.Chain.{
  has, Distinct, Chain, SameOutside, Chain-outside, Chain-update, update_self, update_ne, has-take,
}
use pool_memalloc.Freelist.{push_all, push_bulk, pop_more, pop_bulk}
use pool_memalloc.Freelist.Stack.{
  Kept, Kept-refl, Kept-trans, IsStack, push-cons, pop-cons, pop-nil,
}

-- No block is in both lists.
abbrev pub Apart : List Ptr → List Ptr → Type 0
Apart xs ys = (a : Ptr) → has a xs ≡ true → has a ys ≡ false

-- The first `more` blocks of the stack hang behind `tail`, and end there.
record Gathered (f : ℕ) (tail : Ptr) (more : ℕ) (xs : List Ptr) (w w' : World) : Type 0 where
  batch : Chain w'.next tail (tail ∷ take more xs)
  rest : IsStack w' f (drop more xs)
  kept : Kept f w w'
  same : SameOutside (tail ∷ take more xs) w.next w'.next

cut :
    (f : ℕ) (tail : Ptr) (xs : List Ptr) (w : World)
    → IsStack w f xs
    → tail ≢ null
    → has tail xs ≡ false
    → Gathered f tail 0 xs w (record w { next = update w.next tail null })
cut f tail xs w is ne out = record {
  batch = (refl, ne, update_self w.next tail null);
  rest = record {
    chain = Chain-update w.next (w.heads f).ptr tail null xs out is.chain;
    distinct = is.distinct;
  };
  kept = record { others = λ g e. refl; local = refl; fewer = omega arith };
  same = λ a o. update_ne w.next tail a null (λ e. ground (arith, o));
}

-- The world after `tail->next = next`.
abbrev behind : Ptr → Ptr → World → World
behind tail x w = record w { next = update w.next tail x }

behind-IsStack :
    {f : ℕ} (tail x : Ptr) (xs : List Ptr) (w : World)
    → IsStack w f xs
    → has tail xs ≡ false
    → IsStack (behind tail x w) f xs
behind-IsStack {f} tail x xs w is out = record {
  chain = Chain-update w.next (w.heads f).ptr tail x xs out is.chain;
  distinct = is.distinct;
}

gathered-cons :
    {f : ℕ} {tail x : Ptr} {more : ℕ} {xs : List Ptr} {w w1 w3 : World}
    → has tail (x ∷ xs) ≡ false
    → has x xs ≡ false
    → tail ≢ null
    → Kept f w w1
    → w1.next ≡ w.next
    → Gathered f x more xs (behind tail x w1) w3
    → Gathered f tail (suc more) (x ∷ xs) w w3
gathered-cons {f} {tail} {x} {more} {xs} {w} {w1} {w3} out fresh ne kept1 same1 g = record {
  batch = (refl, ne, rw hangs g.batch);
  rest = g.rest;
  kept = record {
    others = λ h e. g.kept.others h e ∙ kept1.others h e;
    local = g.kept.local ∙ kept1.local;
    fewer = omega (arith, g.kept.fewer, kept1.fewer);
  };
  same = λ a o.
      g.same a (ground (arith, o))
      ∙ update_ne w1.next tail a x (λ e. ground (arith, o))
      ∙ ap (λ n. n a) same1;
}
  where
    hangs : w3.next tail ≡ x
    hangs = g.same tail (ground (arith, has-take tail more xs, out)) ∙ update_self w1.next tail x

pop_more-Gathered :
    (more fuel f : ℕ) (tail : Ptr) (xs : List Ptr) (w : World)
    → length w.weak < fuel
    → IsStack w f xs
    → tail ≢ null
    → has tail xs ≡ false
    → Returns (λ _ w'. Gathered f tail more xs w w') (pop_more more fuel f tail w)
unfolding pop_more
pop_more-Gathered zero fuel f tail xs w h is ne out =
    rw (set_next-ok tail null w ne) (returns (cut f tail xs w is ne out))
pop_more-Gathered (suc more) fuel f tail [] w h is ne out =
    rw (pop-nil fuel f h is, set_next-ok tail null w ne)
      (returns (record {
        batch = (refl, ne, update_self w.next tail null);
        rest = (cut f tail [] w is ne out).rest;
        kept = (cut f tail [] w is ne out).kept;
        same = (cut f tail [] w is ne out).same;
      }))
pop_more-Gathered (suc more) fuel f tail (x ∷ xs) w h is ne out =
    Returns.bind (pop-cons fuel f h x is) λ r w1 (at, is1, kept1, same1).
      rw (at, not_null x (is.chain.1), set_next-ok tail x w1 ne)
        (Returns.mono
          (pop_more-Gathered more fuel f x xs (behind tail x w1) (omega (arith, kept1.fewer))
            (behind-IsStack tail x xs w1 is1 (ground (arith, out))) (is.chain.1) (is.distinct.0))
          λ _ w3 g. gathered-cons out (is.distinct.0) ne kept1 same1 g)

-- The batch that `pop_bulk` detaches, and the stack that stays.
pub record Detached (f n : ℕ) (xs : List Ptr) (w : World) (start : Ptr) (w' : World) : Type 0 where
  pub batch : Chain w'.next start (take n xs)
  pub rest : IsStack w' f (drop n xs)
  pub kept : Kept f w w'
  pub same : SameOutside (take n xs) w.next w'.next

-- How many blocks `pop_bulk n` asks for: one, if `n` is 0.
abbrev pub asked : ℕ → ℕ
asked n = suc (n - 1)

pub pop_bulk_lem :
    (fuel f n : ℕ) (xs : List Ptr) (w : World)
    → length w.weak < fuel
    → IsStack w f xs
    → Returns (Detached f (asked n) xs w) (pop_bulk fuel f n w)
unfolding pop_bulk
pop_bulk_lem fuel f n [] w h is =
    rw (pop-nil fuel f h is)
      (returns (record { batch = refl; rest = is; kept = Kept-refl f w; same = λ a o. refl }))
pop_bulk_lem fuel f n (x ∷ xs) w h is =
    Returns.bind (pop-cons fuel f h x is) λ r w1 (at, is1, kept1, same1).
      rw (at, not_null x (is.chain.1))
        (Returns.bind
          (pop_more-Gathered (n - 1) fuel f x xs w1 (omega (arith, kept1.fewer)) is1 (is.chain.1)
            (is.distinct.0))
          λ _ w2 g. returns (record {
            batch = g.batch;
            rest = g.rest;
            kept = Kept-trans kept1 g.kept;
            same = λ a o. g.same a o ∙ ap (λ n. n a) same1;
          }))

-- The blocks of `bs`, one after the other, on top of `xs`.
push_all-IsStack :
    (rounds fuel f : ℕ) (p : Ptr) (bs xs : List Ptr) (w : World)
    → length bs < rounds
    → length w.weak < fuel
    → Chain w.next p bs
    → Distinct bs
    → IsStack w f xs
    → Apart bs xs
    → Returns
        (λ _ w'. IsStack w' f (reverse_aux bs xs) × Kept f w w' × SameOutside bs w.next w'.next)
        (push_all rounds fuel f p w)
unfolding push_all
push_all-IsStack zero fuel f p bs xs w r h c d is apart = absurd (omega arith)
push_all-IsStack (suc rounds) fuel f p [] xs w r h c d is apart =
    rw c (returns (is, Kept-refl f w, λ a o. refl))
push_all-IsStack (suc rounds) fuel f p (b ∷ bs) xs w r h (e, ne, c) (out, d) is apart =
    rw (e, not_null b ne, load_next-ok b w ne)
      (Returns.bind (push-cons fuel f h b is ne (apart b (ground arith)))
        λ _ w1 (is1, kept1, same1).
          let left : Chain w1.next (w.next b) bs =
            Chain-outside w.next w1.next (w.next b) bs (b ∷ []) same1
              (λ a i. ground (arith, i, out)) c in
          Returns.mono
            (push_all-IsStack rounds fuel f (w.next b) bs (b ∷ xs) w1 (omega arith)
              (omega (arith, kept1.fewer)) left d is1 (λ a i. ground (arith, i, out, apart a)))
            λ _ w2 (is2, kept2, same2). (
              is2,
              Kept-trans kept1 kept2,
              λ a o. same2 a (ground (arith, o)) ∙ same1 a (ground (arith, o)),
            ))

pub push_bulk_lem :
    (rounds fuel f : ℕ) (batch_head batch_tail : Ptr) (bs xs : List Ptr) (w : World)
    → length bs < rounds
    → length w.weak < fuel
    → has batch_tail bs ≡ true
    → batch_tail ≢ null
    → Chain (update w.next batch_tail null) batch_head bs
    → Distinct bs
    → IsStack w f xs
    → Apart bs xs
    → Returns
        (λ _ w'. IsStack w' f (reverse_aux bs xs) × Kept f w w' × SameOutside bs w.next w'.next)
        (push_bulk rounds fuel f batch_head batch_tail w)
unfolding push_bulk
push_bulk_lem rounds fuel f head tail bs xs w r h last ne c d is apart =
    rw (set_next-ok tail null w ne) (
      Returns.mono
        (push_all-IsStack rounds fuel f head bs xs (behind tail null w) r h c d
          (behind-IsStack tail null xs w is (apart tail last)) apart)
        λ _ w' (is', kept, same). (
          is',
          record { others = kept.others; local = kept.local; fewer = kept.fewer },
          λ a o. same a o ∙ update_ne w.next tail a null (λ e. ground (arith, o, last)),
        ))
