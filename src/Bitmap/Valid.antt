-- ===== src/Bitmap/Valid.antt =====
-- What every operation of the bitmap allocator keeps: the shape of the bitmap, and that no bit
-- past the last block is set.
use pool_memalloc.Common.{
  ℕ, zero, suc, ◌+◌, ◌*◌, ◌/◌, ◌%◌, ◌^◌, ◌≤◌, ◌<◌, ◌≡◌, refl, ap, Bool, true, false, List, [], ◌∷◌,
  ◌==◌, if◌then◌else◌, length, get_or, set, arith, length-set,
}
use pool_memalloc.Common.Bits.{
  test_bit, set_bit, clear_bit, test_bit-set_bit, test_bit-clear_bit, set_bit-lt, clear_bit-le,
}
use pool_memalloc.Bitmap.{BitmapAllocator, load_word}

-- Whether the bit of block `i` is set.
abbrev pub allocated_in : List ℕ → ℕ → Bool
allocated_in bitmap i = test_bit (get_or bitmap (i / 64) 0) (i % 64)

abbrev pub allocated : BitmapAllocator → ℕ → Bool
allocated a i = allocated_in a.bitmap i

pub record IsValid (a : BitmapAllocator) : Type 0 where
  pub sized : length a.bitmap ≡ a.word_count
  pub words : (i : ℕ) → get_or a.bitmap i 0 < 2 ^ 64
  pub enough : a.block_count ≤ a.word_count * 64
  pub tight : a.word_count * 64 < a.block_count + 64
  pub hinted : a.hint ≤ a.word_count
  pub positive : 64 ≤ a.block_size
  pub non_null : 0 < a.memory
  pub fits : a.memory + a.block_count * a.block_size < 2 ^ 64
  pub spare : (i : ℕ) → a.block_count ≤ i → allocated a i ≡ false

pub get_or-set :
    (xs : List ℕ) (i j v : ℕ)
    → i < length xs
    → get_or (set xs i v) j 0 ≡ (if i == j then v else get_or xs j 0)
get_or-set [] i j v h = elim h [ ]
get_or-set (x ∷ xs) zero zero v h = refl
get_or-set (x ∷ xs) zero (suc j) v h = ground arith
get_or-set (x ∷ xs) (suc i) zero v h = ground arith
get_or-set (x ∷ xs) (suc i) (suc j) v h = ground (arith, get_or-set xs i j v (omega arith))

-- Writing the word with bit `b` set marks one block, and no other.
pub allocated-set_bit :
    (bitmap : List ℕ) (w b j : ℕ)
    → w < length bitmap
    → b < 64
    → allocated_in (set bitmap w (set_bit (get_or bitmap w 0) b)) j
      ≡ (if w * 64 + b == j then true else allocated_in bitmap j)
allocated-set_bit bitmap w b j hw hb = ground (
  arith,
  get_or-set bitmap w (j / 64) (set_bit (get_or bitmap w 0) b),
  test_bit-set_bit (get_or bitmap w 0) b (j % 64),
)

pub allocated-clear_bit :
    (bitmap : List ℕ) (w b j : ℕ)
    → w < length bitmap
    → b < 64
    → allocated_in (set bitmap w (clear_bit (get_or bitmap w 0) b)) j
      ≡ (if w * 64 + b == j then false else allocated_in bitmap j)
allocated-clear_bit bitmap w b j hw hb = ground (
  arith,
  get_or-set bitmap w (j / 64) (clear_bit (get_or bitmap w 0) b),
  test_bit-clear_bit (get_or bitmap w 0) b (j % 64),
)

pub set-set : (xs : List ℕ) (i v w : ℕ) → set (set xs i v) i w ≡ set xs i w
set-set [] i v w = refl
set-set (x ∷ xs) zero v w = refl
set-set (x ∷ xs) (suc i) v w = ap (λ (t : List ℕ). x ∷ t) (set-set xs i v w)

pub set-get_or : (xs : List ℕ) (i : ℕ) → set xs i (get_or xs i 0) ≡ xs
set-get_or [] i = refl
set-get_or (x ∷ xs) zero = refl
set-get_or (x ∷ xs) (suc i) = ap (λ (t : List ℕ). x ∷ t) (set-get_or xs i)

pub get_or-set_self : (xs : List ℕ) (i v : ℕ) → i < length xs → get_or (set xs i v) i 0 ≡ v
get_or-set_self xs i v h = ground (arith, get_or-set xs i i v)

-- The allocator with block `index` marked as taken, and with its bit cleared.
abbrev pub mark : BitmapAllocator → ℕ → BitmapAllocator
mark a index = record a {
  bitmap = set a.bitmap (index / 64) (set_bit (load_word a (index / 64)) (index % 64));
  hint = index / 64;
}

abbrev pub release : BitmapAllocator → ℕ → BitmapAllocator
release a index = record a {
  bitmap = set a.bitmap (index / 64) (clear_bit (load_word a (index / 64)) (index % 64));
  hint = index / 64;
}

module _ {a : BitmapAllocator} (v : IsValid a) (index : ℕ) (h : index < a.block_count) where
  inside : index / 64 < length a.bitmap
  inside = omega (arith, v.enough, v.sized)

  pub allocated-mark :
      (j : ℕ) → allocated (mark a index) j ≡ (if index == j then true else allocated a j)
  allocated-mark j = ground (arith, allocated-set_bit a.bitmap (index / 64) (index % 64) j, inside)

  pub allocated-release :
      (j : ℕ) → allocated (release a index) j ≡ (if index == j then false else allocated a j)
  allocated-release j =
      ground (arith, allocated-clear_bit a.bitmap (index / 64) (index % 64) j, inside)

  pub mark-IsValid : IsValid (mark a index)
  mark-IsValid = record {
    sized = omega (arith, v.sized, length-set {0} a.bitmap (index / 64));
    words = λ i. ground (
      arith,
      get_or-set a.bitmap (index / 64) i (set_bit (load_word a (index / 64)) (index % 64)),
      set_bit-lt 64 (load_word a (index / 64)) (index % 64),
      v.words i,
      v.words (index / 64),
      inside,
    );
    enough = v.enough;
    tight = v.tight;
    hinted = omega (arith, inside, v.sized);
    positive = v.positive;
    non_null = v.non_null;
    fits = v.fits;
    spare = λ i p. ground (arith, allocated-mark i, v.spare i);
  }

  pub release-IsValid : IsValid (release a index)
  release-IsValid = record {
    sized = omega (arith, v.sized, length-set {0} a.bitmap (index / 64));
    words = λ i. ground (
      arith,
      get_or-set a.bitmap (index / 64) i (clear_bit (load_word a (index / 64)) (index % 64)),
      clear_bit-le (load_word a (index / 64)) (index % 64),
      v.words i,
      v.words (index / 64),
      inside,
    );
    enough = v.enough;
    tight = v.tight;
    hinted = omega (arith, inside, v.sized);
    positive = v.positive;
    non_null = v.non_null;
    fits = v.fits;
    spare = λ i p. ground (arith, allocated-release i, v.spare i);
  }
