-- ===== src/TlBitmap/Threads.antt =====
-- How threads come by their regions.
use pool_memalloc.Common.{
  ℕ, zero, suc, ◌+◌, ◌%◌, ◌^◌, ◌<◌, ◌≡◌, ◌≢◌, refl, ap, ◌∙◌, false, Option, none, some, List, [],
  ◌∷◌, ◌==◌, arith, get_elem?,
}
use pool_memalloc.Common.Words.{u64}
use pool_memalloc.TlBitmap.{ThreadLocalBitmapAllocator, assign_region}

-- `n` threads make their first calls, one after the other.
unfoldable pub assign_times :
    (n : ℕ) → ThreadLocalBitmapAllocator → Option (ThreadLocalBitmapAllocator × List ℕ)
assign_times zero a = some (a, [])
assign_times (suc n) a = elim (assign_region a) [
  | none ↦ none
  | some (b, i) ↦ elim (assign_times n b) [ none ↦ none | some (c, rest) ↦ some (c, i ∷ rest) ]
]

-- The indices that are drawn from the count `c` on.
unfoldable pub drawn : (max_threads c n : ℕ) → List ℕ
drawn max_threads c zero = []
drawn max_threads c (suc n) = (c % max_threads) ∷ drawn max_threads (c + 1) n

assign_region_lem :
    (a : ThreadLocalBitmapAllocator)
    → 0 < a.max_threads
    → a.thread_counter + 1 < 2 ^ 64
    → assign_region a
      ≡ some (record a { thread_counter = a.thread_counter + 1 }, a.thread_counter % a.max_threads)
unfolding assign_region
assign_region_lem a h l =
    let live : (a.max_threads == 0) ≡ false = ground arith in
    let plain : u64 (a.thread_counter + 1) ≡ a.thread_counter + 1 = omega arith in
    rw (live, plain) refl

assign_times-drawn :
    (n : ℕ) (a : ThreadLocalBitmapAllocator)
    → 0 < a.max_threads
    → a.thread_counter + n < 2 ^ 64
    → assign_times n a
      ≡ some (
        record a { thread_counter = a.thread_counter + n },
        drawn a.max_threads a.thread_counter n,
      )
unfolding assign_times drawn
assign_times-drawn zero a h l =
    ap (λ (t : ℕ). some (record a { thread_counter = t }, [])) (omega arith)
assign_times-drawn (suc n) a h l =
    let tail : a.thread_counter + 1 + n ≡ a.thread_counter + suc n = omega arith in
    rw
      (
        assign_times,
        assign_region_lem a h (omega arith),
        assign_times-drawn n (record a { thread_counter = a.thread_counter + 1 }) h (omega arith),
      )
      (ap
        (λ (t : ℕ). some (
          record a { thread_counter = t },
          (a.thread_counter % a.max_threads) ∷ drawn a.max_threads (a.thread_counter + 1) n,
        ))
        tail)

drawn-at : (m c n k : ℕ) → k < n → get_elem? (drawn m c n) k ≡ some ((c + k) % m)
unfolding drawn
drawn-at m c zero k h = absurd (omega arith)
drawn-at m c (suc n) zero h = ap (λ (t : ℕ). some (t % m)) (omega arith)
drawn-at m c (suc n) (suc k) h =
    drawn-at m (c + 1) n k (omega arith) ∙ ap (λ (t : ℕ). some (t % m)) (omega arith)

apart : (m j k : ℕ) → j < k → k < m → (j % m) ≢ (k % m)
apart m j k h l = omega (arith, mod_small m j (omega arith), mod_small m k l)
  where
    mod_small : (m x : ℕ) → x < m → x % m ≡ x
    mod_small m x h = grind arith

again : (m k : ℕ) → 0 < m → (m + k) % m ≡ k % m
again m k h = grind arith

-- Of a new allocator, thread `k` to make its first call has region `k % max_threads`: the first
-- `max_threads` threads have a region each, and the next ones share them in the same order.
pub assign_times-region :
    (n : ℕ) (a : ThreadLocalBitmapAllocator)
    → 0 < a.max_threads
    → a.thread_counter ≡ 0
    → n < 2 ^ 64
    → (drawn_all : List ℕ) × (assign_times n a ≡ some (record a { thread_counter = n }, drawn_all))
      × ((k : ℕ) → k < n → get_elem? drawn_all k ≡ some (k % a.max_threads))
      × ((j k : ℕ) → j < k → k < a.max_threads → (j % a.max_threads) ≢ (k % a.max_threads))
      × ((k : ℕ) → (a.max_threads + k) % a.max_threads ≡ k % a.max_threads)
assign_times-region n a h fresh l = (
  drawn a.max_threads 0 n,
  assign_times-drawn n a h (omega arith)
      ∙ ap (λ (t : ℕ). some (record a { thread_counter = t + n }, drawn a.max_threads t n)) fresh
      ∙ ap (λ (t : ℕ). some (record a { thread_counter = t }, drawn a.max_threads 0 n))
          (omega arith),
  λ k lt. drawn-at a.max_threads 0 n k lt ∙ ap (λ (t : ℕ). some (t % a.max_threads)) (omega arith),
  apart a.max_threads,
  λ k. again a.max_threads k h,
)
