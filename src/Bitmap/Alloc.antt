-- ===== src/Bitmap/Alloc.antt =====
-- What `BitmapAllocator::alloc` does, on every branch.
use pool_memalloc.Common.{
  ℕ, zero, suc, ◌+◌, ◌*◌, ◌%◌, ◌≤◌, ◌<◌, ◌≡◌, ◌≢◌, refl, ap, ◌⊎◌, inl, inr, true, false, ltb, ◌==◌,
  if◌then◌else◌, arith, Bool-cases, ==_iff, ◌∙◌,
}
use pool_memalloc.Common.Words.{u64, full}
use pool_memalloc.Bitmap.{
  BitmapAllocator, Ptr, null, load_word, find_free_bit, claim, probe_words, alloc,
}
use pool_memalloc.Bitmap.Valid.{allocated, IsValid, mark, allocated-mark, mark-IsValid}
use pool_memalloc.Bitmap.Word.{lowest, global-div, global-mod, taken-past, taken-block, claim-taken}

-- The word that probe number `q` looks at.
abbrev pub slot : BitmapAllocator → ℕ → ℕ
slot a q = u64 (a.hint + q) % a.word_count

-- The first `n` words from the hint on are full.
abbrev pub FullTo : BitmapAllocator → ℕ → Type 0
FullTo a n = (q : ℕ) → q < n → load_word a (slot a q) ≡ full

-- Probe number `q` is the first that meets a word with a free bit.
pub record FirstOpen (a : BitmapAllocator) (q : ℕ) : Type 0 where
  pub probed : q < a.word_count
  pub passed : FullTo a q
  pub stopped : load_word a (slot a q) ≢ full

FullTo-suc :
    (a : BitmapAllocator) (q : ℕ) → FullTo a q → load_word a (slot a q) ≡ full → FullTo a (suc q)
FullTo-suc a q before here r h = elim (Bool-cases (ltb r q)) [
  | inl lt ↦ before r (ground arith)
  | inr ge ↦ let e : r ≡ q = ground arith in rw e here
]

probe_words-first :
    (rounds probe s : ℕ) (a : BitmapAllocator)
    → probe + rounds ≡ a.word_count
    → FullTo a probe
    → (FullTo a a.word_count × (probe_words rounds probe a.hint s a ≡ (a, null)))
      ⊎ ((q : ℕ) × FirstOpen a q
          × (probe_words rounds probe a.hint s a ≡ claim s a (slot a q) (load_word a (slot a q))))
unfolding probe_words
probe_words-first zero probe s a e before =
    let e' : probe ≡ a.word_count = omega arith in inl (rw e' at before, refl)
probe_words-first (suc rounds) probe s a e before =
    elim (Bool-cases (load_word a (slot a probe) == full)) [
      | inl closed ↦ rw closed (
          probe_words-first rounds (probe + 1) s a (omega arith) (
            let e1 : probe + 1 ≡ suc probe = omega arith in
            rw e1 (FullTo-suc a probe before ((==_iff _ _).0 closed))))
      | inr free ↦ rw free (
          inr (
            probe,
            record {
              probed = omega arith;
              passed = before;
              stopped = λ h. cc ((==_iff (load_word a (slot a probe)) full).1 h);
            },
            refl,
          ))
    ]

-- What a call makes of block `index`, and what it returns.
abbrev pub Took : BitmapAllocator → ℕ → BitmapAllocator × Ptr → Type 0
Took a index (b, p) =
    (index < a.block_count)
    × (allocated a index ≡ false)
    × (b ≡ mark a index)
    × (p ≡ a.memory + index * a.block_size)

-- The block that the first open word offers.
abbrev pub offered : BitmapAllocator → ℕ → ℕ
offered a q = slot a q * 64 + find_free_bit (load_word a (slot a q))

pub slot-lt : (a : BitmapAllocator) (q : ℕ) → q < a.word_count → slot a q < a.word_count
slot-lt a q h = omega arith

-- The three ways in which a call ends.
pub data Outcome (a : BitmapAllocator) : BitmapAllocator × Ptr → Type 0 where
  took : {r : BitmapAllocator × Ptr} (q : ℕ) → FirstOpen a q → Took a (offered a q) r → Outcome a r
  spilled :
      {r : BitmapAllocator × Ptr} (q : ℕ)
      → FirstOpen a q
      → a.block_count ≤ offered a q
      → r ≡ (a, null)
      → Outcome a r
  exhausted : {r : BitmapAllocator × Ptr} → FullTo a a.word_count → r ≡ (a, null) → Outcome a r

module _ {a : BitmapAllocator} (v : IsValid a) (s : ℕ) where
  claim-Outcome :
      (q : ℕ) → FirstOpen a q → Outcome a (claim s a (slot a q) (load_word a (slot a q)))
  claim-Outcome q first = elim (Bool-cases (ltb (offered a q) a.block_count)) [
    | inl inside ↦
        let e = claim-taken s a i ∙ taken-block v i hi first.stopped (ground arith) in
        took q first (ground arith, free, ap (λ r. r.0) e, ap (λ r. r.1) e)
    | inr past ↦
        spilled q first (ground arith)
          (claim-taken s a i ∙ taken-past v i hi first.stopped (ground arith))
  ]
    where
      i : ℕ
      i = slot a q

      hi : i < a.word_count
      hi = slot-lt a q first.probed

      free : allocated a (offered a q) ≡ false
      free =
          rw (global-div v i hi first.stopped, global-mod v i hi first.stopped)
            (lowest v i hi first.stopped).zero_bit

  pub alloc-Outcome : Outcome a (alloc s a)
  unfolding alloc
  alloc-Outcome = elim (probe_words-first a.word_count 0 s a (omega arith) (λ q h. elim h [ ])) [
    | inl (all, e) ↦ exhausted all e
    | inr (q, first, e) ↦ rw e (claim-Outcome q first)
  ]

-- The effect of a call on every block, and on the allocator's shape.
pub data Effect (a : BitmapAllocator) : BitmapAllocator × Ptr → Type 0 where
  handed :
      {b : BitmapAllocator} {p : Ptr} (index : ℕ)
      → index < a.block_count
      → p ≡ a.memory + index * a.block_size
      → allocated a index ≡ false
      → ((j : ℕ) → allocated b j ≡ (if index == j then true else allocated a j))
      → IsValid b
      → b ≡ record a { bitmap = b.bitmap; hint = b.hint }
      → Effect a (b, p)
  refused : Effect a (a, null)

Outcome-Effect :
    {a : BitmapAllocator} {r : BitmapAllocator × Ptr} → IsValid a → Outcome a r → Effect a r
Outcome-Effect {a} v (took q first (h, free, e, p)) =
    handed (offered a q) h p free (λ j. rw e (allocated-mark v (offered a q) h j))
      (rw e (mark-IsValid v (offered a q) h)) (rw e refl)
Outcome-Effect v (spilled q first past e) = rw e refused
Outcome-Effect v (exhausted all e) = rw e refused

-- From a valid state, and however often the compare-exchange fails, `alloc` either hands out one
-- block that was free, whose bit alone it sets and whose address it returns, and leaves a valid
-- state, or returns `nullptr` and leaves the allocator as it was.
pub alloc-Effect : (s : ℕ) (a : BitmapAllocator) → IsValid a → Effect a (alloc s a)
alloc-Effect s a v = Outcome-Effect v (alloc-Outcome v s)
