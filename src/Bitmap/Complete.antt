-- ===== src/Bitmap/Complete.antt =====
-- When `BitmapAllocator::alloc` returns `nullptr`.
use pool_memalloc.Common.{
  ℕ, zero, suc, ◌+◌, ◌-◌, ◌*◌, ◌/◌, ◌%◌, ◌≤◌, ◌<◌, ◌≡◌, ◌≢◌, refl, true, false, leb, if◌then◌else◌,
  arith, Bool-cases, inl, inr, ◌↔◌,
}
use native.Mathlib.Nat.{mod-eq_of_lt}
use pool_memalloc.Common.Bits.{test_bit, test_bit-ones, test_bit-ne-full}
use pool_memalloc.Common.Words.{u64, full}
use pool_memalloc.Bitmap.{BitmapAllocator, Ptr, null, load_word, find_free_bit, alloc}
use pool_memalloc.Bitmap.Valid.{allocated, IsValid}
use pool_memalloc.Bitmap.Word.{find_free_bit-LowestZero, count-lt}
use pool_memalloc.Bitmap.Alloc.{
  Effect, handed, refused, alloc-Effect, Outcome, took, spilled, exhausted, alloc-Outcome, slot,
  slot-lt, FullTo, offered,
}

wrap_once : (x n : ℕ) → x < n → (x + n) % n ≡ x
wrap_once x n h = grind arith

module _ {a : BitmapAllocator} (v : IsValid a) where
  -- The probe that looks at word `i`.
  probe_of : ℕ → ℕ
  probe_of i = if leb a.hint i then i - a.hint else i + a.word_count - a.hint

  pub probes-cover : (i : ℕ) → i < a.word_count → (q : ℕ) × (q < a.word_count) × (slot a q ≡ i)
  unfolding probe_of
  probes-cover i h = elim (Bool-cases (leb a.hint i)) [
    | inl ge ↦ (
      probe_of i,
      rw ge (omega arith),
      rw ge (
          let e : u64 (a.hint + (i - a.hint)) ≡ i = ground (arith, count-lt v, v.tight) in
          rw e (mod-eq_of_lt h)),
    )
    | inr lt ↦ (
      probe_of i,
      rw lt (ground (arith, v.hinted)),
      rw lt (
          let e : u64 (a.hint + (i + a.word_count - a.hint)) ≡ i + a.word_count =
            omega (arith, count-lt v, v.tight, v.hinted) in
          rw e (wrap_once i a.word_count h)),
    )
  ]

  -- Where every word is full, every block is taken.
  all-allocated : FullTo a a.word_count → (j : ℕ) → j < a.block_count → allocated a j ≡ true
  all-allocated all j h =
      let (q, lt, e) = probes-cover (j / 64) (omega (arith, v.enough)) in
      let f : load_word a (j / 64) ≡ full = rw e at (all q lt) in
      rw f (test_bit-ones 64 (j % 64) (omega arith))

  Outcome-all :
      {r : BitmapAllocator × Ptr}
      → a.block_count % 64 ≡ 0
      → Outcome a r
      → r.1 ≡ null
      → (j : ℕ) → j < a.block_count
      → allocated a j ≡ true
  Outcome-all whole (took q first (h, free, e, p)) z = absurd (omega (arith, v.non_null))
  Outcome-all whole (spilled q first past e) z =
      absurd (omega (arith, slot-lt a q first.probed, v.tight, v.enough, lowest))
    where
      lowest : find_free_bit (load_word a (slot a q)) < 64
      lowest =
          (find_free_bit-LowestZero (load_word a (slot a q))
            (omega (arith, first.stopped, v.words (slot a q)))).within
  Outcome-all whole (exhausted all e) z = all-allocated all

  Effect-null :
      {r : BitmapAllocator × Ptr}
      → Effect a r
      → ((j : ℕ) → j < a.block_count → allocated a j ≡ true)
      → r.1 ≡ null
  Effect-null (handed index h p free marks v' shape) every = cc (every index h)
  Effect-null refused every = refl

  -- The word of the hint is the last one, and all its blocks are taken.
  module _ (part : a.block_count % 64 ≢ 0) (last : a.hint + 1 ≡ a.word_count)
      (taken : (j : ℕ) → a.hint * 64 ≤ j → j < a.block_count → allocated a j ≡ true) where
    first-slot : slot a 0 ≡ a.hint
    first-slot = grind (arith, count-lt v, v.tight)

    spare_bit : test_bit (load_word a a.hint) (a.block_count % 64) ≡ false
    spare_bit =
        let e : a.block_count / 64 ≡ a.hint = omega (arith, v.enough, v.tight, part) in
        rw e at (v.spare a.block_count (omega arith))

    not-full : load_word a (slot a 0) ≢ full
    not-full =
        rw first-slot
          (test_bit-ne-full 64 (load_word a a.hint) (a.block_count % 64) (omega arith) spare_bit)

    Outcome-null : {r : BitmapAllocator × Ptr} → Outcome a r → r ≡ (a, null)
    Outcome-null (took zero first (h, free, e, p)) =
        let busy = taken (offered a 0) (omega (arith, first-slot)) h in
        absurd (ground (arith, busy, free))
    Outcome-null (took (suc q) first t) = absurd (not-full (first.passed 0 (omega arith)))
    Outcome-null (spilled q first past e) = e
    Outcome-null (exhausted all e) = e

-- Where the number of blocks is a multiple of 64, `alloc` returns `nullptr` exactly when every
-- block is taken.
pub alloc-null_iff :
    (s : ℕ) (a : BitmapAllocator)
    → IsValid a
    → a.block_count % 64 ≡ 0
    → ((alloc s a).1 ≡ null) ↔ ((j : ℕ) → j < a.block_count → allocated a j ≡ true)
alloc-null_iff s a v whole =
    (Outcome-all v whole (alloc-Outcome v s), Effect-null v (alloc-Effect s a v))

-- Where the number of blocks is no multiple of 64, `alloc` returns `nullptr` as soon as the hint
-- stands at the last word and the blocks of that word are taken, whatever the other words hold: the
-- spare bits past the last block count as free.
pub alloc-null_last :
    (s : ℕ) (a : BitmapAllocator)
    → IsValid a
    → a.block_count % 64 ≢ 0
    → a.hint + 1 ≡ a.word_count
    → ((j : ℕ) → a.hint * 64 ≤ j → j < a.block_count → allocated a j ≡ true)
    → alloc s a ≡ (a, null)
alloc-null_last s a v part last taken = Outcome-null v part last taken (alloc-Outcome v s)
