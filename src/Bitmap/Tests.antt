-- ===== src/Bitmap/Tests.antt =====
-- Runs of the bitmap allocator, and its theorems at concrete states.
use pool_memalloc.Common.{
  ℕ, ◌+◌, ◌*◌, ◌-◌, ◌^◌, ◌/◌, ◌≡◌, ◌≢◌, ◌<◌, ◌≤◌, refl, List, [], ◌∷◌, true, false, ◌==◌,
  if◌then◌else◌, arith, ◌↔◌, inr, zero, suc,
}
use pool_memalloc.Common.Bits.{set_bit}
use pool_memalloc.Bitmap.{
  BitmapAllocator, Ptr, null, built, bad_alloc, construct, alloc, dealloc, rounded_size, words_for,
}
use pool_memalloc.Bitmap.Alloc.{Effect, alloc-Effect}
use pool_memalloc.Bitmap.Dealloc.{dealloc-Effect, dealloc-dealloc, dealloc-alloc, alloc-dealloc}
use pool_memalloc.Bitmap.Complete.{alloc-null_iff, alloc-null_last}
use pool_memalloc.Bitmap.Life.{construct-IsNew, construct-bad_alloc, IsNew, IsPlaced, fresh-IsNew}
use pool_memalloc.Bitmap.Valid.{allocated, IsValid, mark, mark-IsValid, allocated-mark}

-- Every request is served at the address 4096 * (call + 1).
abbrev serve : ℕ → ℕ → ℕ → Ptr
serve call alignment size = 4096 * (call + 1)

abbrev of_words : ℕ → List ℕ → ℕ → BitmapAllocator
of_words count ws hint = record {
  block_size = 64;
  block_count = count;
  word_count = (count + 63) / 64;
  memory = 4096;
  bitmap = ws;
  hint = hint;
}

made : construct serve 64 65 ≡ built (of_words 65 (0 ∷ 0 ∷ []) 0)
unfolding construct rounded_size words_for
made = refl

first_block : alloc 2 (of_words 65 (5 ∷ 0 ∷ []) 0) ≡ (of_words 65 (7 ∷ 0 ∷ []) 0, 4160)
unfolding alloc
first_block = refl

-- The hint stands at the last word, whose only block is taken: block 0 is free, and is not found.
gives_up : alloc 0 (of_words 65 (0 ∷ 1 ∷ []) 1) ≡ (of_words 65 (0 ∷ 1 ∷ []) 1, null)
unfolding alloc
gives_up = refl

-- A history that leads there: a full allocator, two calls of `dealloc`, one of `alloc`.
abbrev full_65 : BitmapAllocator
full_65 = of_words 65 ((2 ^ 64 - 1) ∷ 1 ∷ []) 0

leads_there :
    (alloc 0 (dealloc (dealloc full_65 4096) (4096 + 64 * 64))).0
    ≡ of_words 65 ((2 ^ 64 - 2) ∷ 1 ∷ []) 1
unfolding alloc dealloc
leads_there = refl

serve-IsPlaced : (size : ℕ) → size < 2 ^ 63 → IsPlaced 4096 size
serve-IsPlaced size h = record { given = omega arith; ends = omega arith }

sixty_five-IsNew : IsNew 64 65 (of_words 65 (0 ∷ 0 ∷ []) 0)
unfolding rounded_size words_for
sixty_five-IsNew =
    fresh-IsNew serve 64 65 (omega arith) (omega arith) (serve-IsPlaced _ (omega arith))

sixty_four-IsNew : IsNew 64 64 (of_words 64 (0 ∷ []) 0)
unfolding rounded_size words_for
sixty_four-IsNew =
    fresh-IsNew serve 64 64 (omega arith) (omega arith) (serve-IsPlaced _ (omega arith))

abbrev last_taken : BitmapAllocator
last_taken = mark (of_words 65 (0 ∷ 0 ∷ []) 0) 64

last_taken-IsValid : IsValid last_taken
last_taken-IsValid = mark-IsValid sixty_five-IsNew.valid 64 (omega arith)

last_busy : (j : ℕ) → 64 ≤ j → j < 65 → allocated last_taken j ≡ true
last_busy j h k =
    let e : 64 ≡ j = omega arith in
    ground (arith, allocated-mark sixty_five-IsNew.valid 64 (omega arith) j)

alloc-Effect_example : Effect last_taken (alloc 3 last_taken)
alloc-Effect_example = alloc-Effect 3 last_taken last_taken-IsValid

dealloc-Effect_example :
    ((j : ℕ)
      → allocated (dealloc last_taken 8192) j ≡ (if 64 == j then false else allocated last_taken j))
    × IsValid (dealloc last_taken 8192)
dealloc-Effect_example = dealloc-Effect last_taken-IsValid 64 (omega arith)

freed_again : dealloc (dealloc last_taken 8192) 8192 ≡ dealloc last_taken 8192
freed_again = dealloc-dealloc 64 last_taken-IsValid (omega arith)

first_call-some : (alloc 0 (of_words 65 (0 ∷ 0 ∷ []) 0)).1 ≢ null
unfolding alloc
first_call-some = omega arith

dealloc-alloc_example :
    (dealloc
      (alloc 0 (of_words 65 (0 ∷ 0 ∷ []) 0)).0
      (alloc 0 (of_words 65 (0 ∷ 0 ∷ []) 0)).1).bitmap
    ≡ 0 ∷ 0 ∷ []
dealloc-alloc_example =
    dealloc-alloc 0 (of_words 65 (0 ∷ 0 ∷ []) 0) sixty_five-IsNew.valid first_call-some

alloc-dealloc_example : (alloc 1 (dealloc last_taken 8192)).1 ≢ null
alloc-dealloc_example = alloc-dealloc 1 64 last_taken last_taken-IsValid (omega arith)

alloc-null_iff_example :
    ((alloc 0 (of_words 64 (0 ∷ []) 0)).1 ≡ null)
    ↔ ((j : ℕ) → j < 64 → allocated (of_words 64 (0 ∷ []) 0) j ≡ true)
alloc-null_iff_example = alloc-null_iff 0 (of_words 64 (0 ∷ []) 0) sixty_four-IsNew.valid refl

alloc-null_last_example : alloc 0 last_taken ≡ (last_taken, null)
unfolding set_bit
alloc-null_last_example =
    alloc-null_last 0 last_taken last_taken-IsValid (omega arith) refl last_busy

construct-IsNew_example : (a : BitmapAllocator) × (construct serve 64 65 ≡ built a) × IsNew 64 65 a
unfolding rounded_size words_for
construct-IsNew_example =
    construct-IsNew serve 64 65 (omega arith) (omega arith) (serve-IsPlaced _ (omega arith))
      (omega arith)

-- The second request is refused.
abbrev serve_first : ℕ → ℕ → ℕ → Ptr
serve_first zero alignment size = 4096
serve_first (suc call) alignment size = null

freed_on_failure : construct serve_first 64 65 ≡ bad_alloc (4096 ∷ [])
unfolding rounded_size words_for
freed_on_failure = construct-bad_alloc serve_first 64 65 (omega arith) (omega arith) (inr refl)
