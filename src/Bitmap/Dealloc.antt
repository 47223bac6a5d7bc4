-- ===== src/Bitmap/Dealloc.antt =====
-- `BitmapAllocator::dealloc`, and what it and `alloc` undo of one another.
use pool_memalloc.Common.{
  ℕ, zero, suc, ◌+◌, ◌*◌, ◌/◌, ◌%◌, ◌≤◌, ◌<◌, ◌≡◌, ◌≢◌, refl, ap, ◌∙◌, false, ◌==◌, if◌then◌else◌,
  length, arith,
}
use pool_memalloc.Common.Bits.{
  set_bit, clear_bit, bit_and-clear_bit, clear_bit-set_bit, test_bit-ne-full, clear_bit_idem,
}
use pool_memalloc.Common.Words.{sub64, full}
use pool_memalloc.Bitmap.{BitmapAllocator, Ptr, null, load_word, ptr_to_index, alloc, dealloc}
use pool_memalloc.Bitmap.Valid.{
  allocated, IsValid, mark, release, set-set, set-get_or, get_or-set_self, mark-IsValid,
  allocated-release, release-IsValid,
}
use pool_memalloc.Bitmap.Word.{find_free_bit-LowestZero, count-lt}
use pool_memalloc.Bitmap.Alloc.{Outcome, took, spilled, exhausted, alloc-Outcome, slot, offered}

-- The address of block `index`.
abbrev pub address : BitmapAllocator → ℕ → Ptr
address a index = a.memory + index * a.block_size

pub address-inj : {a : BitmapAllocator} → IsValid a → (i j : ℕ) → address a i ≡ address a j → i ≡ j
address-inj {a} v i j e = cancel i j a.block_size (omega (arith, v.positive)) (omega arith)
  where
    cancel : (i j s : ℕ) → 0 < s → i * s ≡ j * s → i ≡ j
    cancel i j s h e = grind arith

quotient : (n s : ℕ) → 0 < s → n * s / s ≡ n
quotient n s h = grind arith

module _ {a : BitmapAllocator} (v : IsValid a) (index : ℕ) (h : index < a.block_count) where
  scaled : index * a.block_size ≤ a.block_count * a.block_size
  scaled = grind arith

  -- The way from an index to its address and back.
  pub ptr_to_index-address : ptr_to_index a (address a index) ≡ index
  unfolding ptr_to_index
  ptr_to_index-address =
      let e : sub64 (address a index) a.memory ≡ index * a.block_size =
        omega (arith, v.fits, scaled) in
      rw e (quotient index a.block_size (omega (arith, v.positive)))

  pub dealloc-release : dealloc a (address a index) ≡ release a index
  unfolding dealloc
  dealloc-release = rw (
    ptr_to_index-address,
    bit_and-clear_bit 64 (load_word a (index / 64)) (index % 64) (v.words (index / 64))
        (omega arith),
  )

  -- Giving back block `index` frees that block alone, and keeps the allocator valid.
  pub dealloc-Effect :
      ((j : ℕ)
        → allocated (dealloc a (address a index)) j ≡ (if index == j then false else allocated a j))
      × IsValid (dealloc a (address a index))
  dealloc-Effect = rw dealloc-release (allocated-release v index h, release-IsValid v index h)

  inside : index / 64 < length a.bitmap
  inside = omega (arith, v.enough, v.sized)

  release-release : release (release a index) index ≡ release a index
  release-release = rw (
    set-set,
    get_or-set_self a.bitmap (index / 64) (clear_bit (load_word a (index / 64)) (index % 64))
        inside,
    clear_bit_idem,
  )

  release-mark : allocated a index ≡ false → (release (mark a index) index).bitmap ≡ a.bitmap
  release-mark free =
      rw
        (
          set-set,
          get_or-set_self a.bitmap (index / 64) (set_bit (load_word a (index / 64)) (index % 64))
              inside,
          clear_bit-set_bit (load_word a (index / 64)) (index % 64) free,
        )
        (set-get_or a.bitmap (index / 64))

-- A second `dealloc` of the same address is not detected, and changes nothing.
pub dealloc-dealloc :
    {a : BitmapAllocator} (index : ℕ)
    → IsValid a
    → index < a.block_count
    → dealloc (dealloc a (address a index)) (address a index) ≡ dealloc a (address a index)
dealloc-dealloc index v h =
    rw (dealloc-release v index h)
      (dealloc-release (release-IsValid v index h) index h ∙ release-release v index h)

Outcome-undone :
    {a : BitmapAllocator} {r : BitmapAllocator × Ptr}
    → IsValid a
    → Outcome a r
    → r.1 ≢ null
    → (dealloc r.0 r.1).bitmap ≡ a.bitmap
Outcome-undone {a} v (took q first (h, free, e, p)) ne =
    rw (e, p, dealloc-release (mark-IsValid v (offered a q) h) (offered a q) h)
      (release-mark v (offered a q) h free)
Outcome-undone v (spilled q first past e) ne = absurd (ne (ap (λ r. r.1) e))
Outcome-undone v (exhausted all e) ne = absurd (ne (ap (λ r. r.1) e))

-- A call of `alloc` that returns a block, followed by `dealloc` of that block, leaves every word of
-- the bitmap as it was.
pub dealloc-alloc :
    (s : ℕ) (a : BitmapAllocator)
    → IsValid a
    → (alloc s a).1 ≢ null
    → (dealloc (alloc s a).0 (alloc s a).1).bitmap ≡ a.bitmap
dealloc-alloc s a v ne = Outcome-undone v (alloc-Outcome v s) ne

-- A free block in the word of the hint.
module _ {a : BitmapAllocator} (v : IsValid a) (index : ℕ) (h : index < a.block_count)
    (free : allocated a index ≡ false) (hint : a.hint ≡ index / 64) where
  first-slot : slot a 0 ≡ index / 64
  first-slot = grind (arith, count-lt v, v.enough)

  not-full : load_word a (slot a 0) ≢ full
  not-full =
      rw first-slot (test_bit-ne-full 64 (load_word a (index / 64)) (index % 64) (omega arith) free)

  offered-le : offered a 0 ≤ index
  offered-le =
      let low =
        find_free_bit-LowestZero (load_word a (slot a 0))
          (omega (arith, not-full, v.words (slot a 0))) in
      ground (arith, first-slot, low.below (index % 64))

  Outcome-ne-null : {r : BitmapAllocator × Ptr} → Outcome a r → r.1 ≢ null
  Outcome-ne-null (took q first (h, free, e, p)) = λ z. omega (arith, v.non_null)
  Outcome-ne-null (spilled zero first past e) = absurd (omega (arith, offered-le))
  Outcome-ne-null (spilled (suc q) first past e) = absurd (not-full (first.passed 0 (omega arith)))
  Outcome-ne-null (exhausted all e) = absurd (not-full (all 0 (omega (arith, v.enough))))

-- After `dealloc` of a block the next call of `alloc` returns one, whatever the other words hold.
pub alloc-dealloc :
    (s index : ℕ) (a : BitmapAllocator)
    → IsValid a
    → index < a.block_count
    → (alloc s (dealloc a (address a index))).1 ≢ null
alloc-dealloc s index a v h = rw (dealloc-release v index h) (
    Outcome-ne-null (release-IsValid v index h) index h
      (ground (arith, allocated-release v index h index)) refl
      (alloc-Outcome (release-IsValid v index h) s))
