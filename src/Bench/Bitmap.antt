-- ===== src/Bench/Bitmap.antt =====
-- The bitmap allocator under the workers of benchmark/bitmap, as one thread runs them.
use pool_memalloc.Common.{
  ℕ, ◌+◌, ◌*◌, ◌≤◌, ◌<◌, none, ltb, ◌≡◌, ◌≢◌, ◌⊎◌, refl, ap, sym, ◌∙◌, true, false, inl, inr,
  Option, some, List, ◌==◌, if◌then◌else◌, arith, ℕ_discrete,
}
use pool_memalloc.Bitmap.{BitmapAllocator, Ptr, null}
use pool_memalloc.Bitmap
use pool_memalloc.Bitmap.Valid.{IsValid, allocated, release, release-IsValid, allocated-release}
use pool_memalloc.Bitmap.Alloc.{Effect, handed, refused, alloc-Effect}
use pool_memalloc.Bitmap.Dealloc.{address, address-inj, dealloc-release}
use pool_memalloc.Bench.{
  Access, target, extent, BenchmarkConfig, Worker, burst_worker, walk_worker, storm_worker,
  random_free_worker,
}
use pool_memalloc.Bench.Contract.{Contract}

-- `allocator->alloc()` and `allocator->dealloc(x)`.
abbrev pub allocate : (spurious : ℕ) → BitmapAllocator → Option (BitmapAllocator × Ptr)
allocate spurious a = some (Bitmap.alloc spurious a)

abbrev pub give : BitmapAllocator → Ptr → Option BitmapAllocator
give a p = some (Bitmap.dealloc a p)

-- An access to a block: it changes nothing that the allocator reads, and is undefined behaviour
-- where it leaves the allocator's memory.
abbrev pub touch : BitmapAllocator → Access → Option BitmapAllocator
touch a access =
    if ltb (a.memory + a.block_count * a.block_size) (target access + extent access)
    then none
    else some a

-- The workers of the programs in benchmark/bitmap.
abbrev pub same_thread : ℕ → BenchmarkConfig → BitmapAllocator → Option (Worker BitmapAllocator)
same_thread spurious = burst_worker (allocate spurious) give touch

abbrev pub alloc_burst : ℕ → BenchmarkConfig → BitmapAllocator → Option (Worker BitmapAllocator)
alloc_burst spurious = burst_worker (allocate spurious) give touch

abbrev pub locality_walk : ℕ → BenchmarkConfig → BitmapAllocator → Option (Worker BitmapAllocator)
locality_walk spurious = walk_worker (allocate spurious) give touch

abbrev pub alloc_storm :
    ℕ → (ℕ → ℕ) → BenchmarkConfig → BitmapAllocator → Option (Worker BitmapAllocator)
alloc_storm spurious draw = storm_worker (allocate spurious) give touch draw 239

abbrev pub random_free :
    ℕ
    → (ℕ → ℕ)
    → (List Ptr → List Ptr)
    → BenchmarkConfig
    → BitmapAllocator
    → Option (Worker BitmapAllocator)
random_free spurious draw shuffle =
    random_free_worker (allocate spurious) give touch draw shuffle 205

module _ (spurious : ℕ) (a0 : BitmapAllocator) where
  -- The members that never change are those of `a0`, and `m` counts the blocks whose bit is clear.
  pub record IsFree (a : BitmapAllocator) (m : Ptr → ℕ) : Type 0 where
    pub valid : IsValid a
    pub shape : a ≡ record a0 { bitmap = a.bitmap; hint = a.hint }
    pub counts : (i : ℕ) → i < a0.block_count → m (address a0 i) ≡ (if allocated a i then 0 else 1)

  abbrev pub Own : Ptr → Type 0
  Own p = (i : ℕ) × (i < a0.block_count) × (p ≡ address a0 i)

  module _ {a : BitmapAllocator} {m : Ptr → ℕ} (is : IsFree a m) where
    memory_eq : a.memory ≡ a0.memory
    memory_eq = ap (λ (b : BitmapAllocator). b.memory) is.shape

    size_eq : a.block_size ≡ a0.block_size
    size_eq = ap (λ (b : BitmapAllocator). b.block_size) is.shape

    count_eq : a.block_count ≡ a0.block_count
    count_eq = ap (λ (b : BitmapAllocator). b.block_count) is.shape

    address_eq : (i : ℕ) → address a i ≡ address a0 i
    address_eq i = rw (memory_eq, size_eq) refl

    injective : (i j : ℕ) → address a0 i ≡ address a0 j → i ≡ j
    injective i j e = address-inj is.valid i j (address_eq i ∙ e ∙ sym (address_eq j))

    real : (i : ℕ) → address a0 i ≢ null
    real i e = omega (arith, is.valid.non_null, memory_eq, e)

  pub Gives : BitmapAllocator → (Ptr → ℕ) → BitmapAllocator × Ptr → Type 0
  Gives a m out =
      (s' : BitmapAllocator) × (p : Ptr) × (some out ≡ some (s', p))
      × ((p ≡ null) × IsFree s' m
          ⊎ ((p ≢ null)
              × Own p
              × ((m' : Ptr → ℕ) × IsFree s' m'
                  × ((x : Ptr) → m' x + (if x == p then 1 else 0) ≡ m x))))

  pub takes :
      (a : BitmapAllocator) (m : Ptr → ℕ) (out : BitmapAllocator × Ptr)
      → IsFree a m
      → Effect a out
      → Gives a m out
  unfolding Gives
  takes a m (b, p) is refused = (a, null, refl, inl (refl, is))
  takes a m (b, p) is (handed i h at free bits v shape) =
      let at0 : p ≡ address a0 i = at ∙ address_eq is i in
      let h0 : i < a0.block_count = omega (arith, h, count_eq is) in
      (
        b,
        p,
        refl,
        inr (
          (λ e. real is i (sym at0 ∙ e)),
          (i, h0, at0),
          (
            λ x. if x == p then 0 else m x,
            record {
              valid = v;
              shape =
                  shape
                  ∙ ap (λ (c : BitmapAllocator). record c { bitmap = b.bitmap; hint = b.hint })
                      is.shape;
              counts = λ j k. left i j at0 free (bits j) k;
            },
            λ x. elim (ℕ_discrete x p) [
              | yes e ↦ rw (e, at0) (ground (arith, is.counts i h0, free))
              | no ne ↦ ground (arith, ne)
            ],
          ),
        ),
      )
    where
      left :
          (i j : ℕ)
          → p ≡ address a0 i
          → allocated a i ≡ false
          → allocated b j ≡ (if i == j then true else allocated a j)
          → j < a0.block_count
          → (if address a0 j == p then 0 else m (address a0 j)) ≡ (if allocated b j then 0 else 1)
      left i j at0 free bit k = elim (ℕ_discrete i j) [
        | yes e ↦
            let same : address a0 j ≡ p = ap (address a0) (sym e) ∙ sym at0 in
            ground (arith, same, bit, e)
        | no ne ↦
            let apart : address a0 j ≢ p = λ e. ne (sym (injective is j i (e ∙ at0))) in
            ground (arith, apart, bit, ne, is.counts j k)
      ]

  pub gives :
      (a : BitmapAllocator) (m : Ptr → ℕ) (p : Ptr)
      → IsFree a m
      → Own p
      → p ≢ null
      → m p ≡ 0
      → (s' : BitmapAllocator) × (give a p ≡ some s')
        × ((m' : Ptr → ℕ) × IsFree s' m' × ((x : Ptr) → m' x ≡ m x + (if x == p then 1 else 0)))
  gives a m p is (i, h0, at) ne none_ =
      let h : i < a.block_count = omega (arith, h0, count_eq is) in
      (
        release a i,
        ap some (ap (Bitmap.dealloc a) (at ∙ sym (address_eq is i)) ∙ dealloc-release is.valid i h),
        (
          λ x. m x + (if x == p then 1 else 0),
          record {
            valid = release-IsValid is.valid i h;
            shape =
                ap
                  (λ (c : BitmapAllocator). record c {
                    bitmap = (release a i).bitmap;
                    hint = (release a i).hint;
                  })
                  is.shape;
            counts = λ j k. elim (ℕ_discrete i j) [
              | yes e ↦
                  let same : address a0 j ≡ p = ap (address a0) (sym e) ∙ sym at in
                  ground (arith, same, none_, allocated-release is.valid i h j, e)
              | no off ↦
                  let apart : address a0 j ≢ p = λ e. off (sym (injective is j i (e ∙ at))) in
                  ground (arith, apart, allocated-release is.valid i h j, off, is.counts j k)
            ];
          },
          λ x. refl,
        ),
      )

  pub touches :
      (a : BitmapAllocator) (m : Ptr → ℕ) (access : Access)
      → IsFree a m
      → Own (target access)
      → m (target access) ≡ 0
      → extent access ≤ a0.block_size
      → (s' : BitmapAllocator) × (touch a access ≡ some s') × IsFree s' m
  touches a m access is (i, h, at) taken fits =
      let ends : i * a0.block_size + a0.block_size ≤ a0.block_count * a0.block_size =
        scaled i a0.block_count a0.block_size h in
      let inside : ltb (a.memory + a.block_count * a.block_size) (target access + extent access)
          ≡ false =
        rw (memory_eq is, size_eq is, count_eq is) (ground (arith, ends, at, fits)) in
      (a, rw inside refl, is)
    where
      scaled : (j n s : ℕ) → j < n → j * s + s ≤ n * s
      scaled j n s h = grind arith

  -- A valid bitmap allocator, used by one thread, keeps the contract of the workers.
  unfoldable pub bitmap-Contract : 1 ≤ a0.block_size → Contract (allocate spurious) give touch
  unfolding Gives
  bitmap-Contract roomy = record {
    Free = IsFree;
    Own = Own;
    room = a0.block_size;
    roomy = roomy;
    allocate_law =
        λ a m is. takes a m (Bitmap.alloc spurious a) is (alloc-Effect spurious a is.valid);
    release_law = gives;
    touch_law = touches;
  }
