-- ===== src/Cache/Valid.antt =====
-- A thread cache and its freelist stand for two lists of blocks.
use pool_memalloc.Common.{
  ℕ, zero, suc, ◌+◌, ◌*◌, ◌/◌, ◌%◌, ◌^◌, ◌≤◌, ◌<◌, ◌≡◌, refl, ap, ◌∙◌, true, false, List, [], ◌∷◌,
  ltb, arith, length, take,
}
use pool_memalloc.Heap.{Ptr, World, ok}
use pool_memalloc.Heap.Access.{not_null, load_next-ok}
use pool_memalloc.Heap.Chain.{Chain}
use pool_memalloc.Heap.Count.{count}
use pool_memalloc.Heap.Last.{last}
use pool_memalloc.Freelist.Stack.{IsStack}
use pool_memalloc.Cache.{ThreadCache, new_cache, last_block, batch_end}
use pool_memalloc.Cache.Spec.{Pools, pools}

-- The blocks of one allocator: no block is held twice, and a `size_t` counts them all.
pub record IsCache (w : World) (c : ThreadCache) (p : Pools) : Type 0 where
  pub stack : IsStack w c.global p.global
  pub chain : Chain w.next c.local_head p.local
  pub size : c.local_size ≡ length p.local
  pub once : (a : Ptr) → count a p.global + count a p.local ≤ 1
  pub bounded : length p.global + length p.local < 2 ^ 63
  pub batch : c.batch_size < 2 ^ 62
  pub low : c.low_watermark ≡ c.batch_size / 2
  pub high : c.high_watermark ≡ c.batch_size * 2

-- A new cache before a stack.
pub new_cache-IsCache :
    {w : World} {f : ℕ} {xs : List Ptr} (batch : ℕ)
    → IsStack w f xs
    → ((a : Ptr) → count a xs ≤ 1)
    → length xs < 2 ^ 63
    → batch < 2 ^ 62
    → IsCache w (new_cache f batch) (pools xs [])
unfolding new_cache
new_cache-IsCache batch is once short small = record {
  stack = is;
  chain = refl;
  size = refl;
  once = λ a. omega (arith, once a);
  bounded = omega (arith, short);
  batch = small;
  low = refl;
  high = omega arith;
}

-- The walk of `refill` ends at the last block, and counts the chain.
pub last_block-last :
    (rounds x : ℕ) (xs : List Ptr) (n : ℕ) (w : World)
    → length xs < rounds
    → n + length xs < 2 ^ 64
    → Chain w.next x (x ∷ xs)
    → last_block rounds x n w ≡ ok (last x xs, n + length xs) w
unfolding last_block
last_block-last zero x xs n w h k c = absurd (omega arith)
last_block-last (suc rounds) x [] n w h k (e, ne, c) =
    rw (load_next-ok x w ne, c) (ap (λ (t : ℕ). ok (x, t) w) (omega arith))
last_block-last (suc rounds) x (y ∷ ys) n w h k (e, ne, (e', ne', c)) =
    rw (load_next-ok x w ne, e', not_null y ne')
      (last_block-last rounds y ys ((n + 1) % 2 ^ 64) w (omega arith) (omega arith) (refl, ne', c)
        ∙ ap (λ (t : ℕ). ok (last y ys, t) w) (omega arith))

-- The walk of `flush` takes `d` more blocks, or ends with the chain.
pub batch_end-last :
    (rounds d x : ℕ) (xs : List Ptr) (n excess : ℕ) (w : World)
    → n + d ≡ excess
    → length xs < rounds
    → n + length xs < 2 ^ 64
    → Chain w.next x (x ∷ xs)
    → batch_end rounds excess x n w ≡ ok (last x (take d xs), n + length (take d xs)) w
unfolding batch_end
batch_end-last zero d x xs n excess w s h k c = absurd (omega arith)
batch_end-last (suc rounds) zero x xs n excess w s h k c =
    let done : ltb n excess ≡ false = ground arith in
    rw done (ap (λ (t : ℕ). ok (x, t) w) (omega arith))
batch_end-last (suc rounds) (suc d) x [] n excess w s h k (e, ne, c) =
    let more : ltb n excess ≡ true = ground arith in
    rw (more, load_next-ok x w ne, c) (ap (λ (t : ℕ). ok (x, t) w) (omega arith))
batch_end-last (suc rounds) (suc d) x (y ∷ ys) n excess w s h k (e, ne, (e', ne', c)) =
    let more : ltb n excess ≡ true = ground arith in
    rw (more, load_next-ok x w ne, e', not_null y ne')
      (batch_end-last rounds d y ys ((n + 1) % 2 ^ 64) excess w (omega arith) (omega arith)
          (omega arith) (refl, ne', c)
        ∙ ap (λ (t : ℕ). ok (last y (take d ys), t) w) (omega arith))
