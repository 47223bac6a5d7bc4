-- ===== src/TlBitmap/Regions.antt =====
-- The regions of `ThreadLocalBitmapAllocator`, each a bitmap allocator of its own.
use mathlib.Core.Path.{subst}
use pool_memalloc.Common.{
  ℕ, zero, suc, ◌+◌, ◌*◌, ◌≤◌, ◌<◌, ◌≡◌, refl, sym, ap, ◌∙◌, true, false, some, List, [], ◌∷◌, ◌==◌,
  if◌then◌else◌, arith, get_elem?, set,
}
use pool_memalloc.Bitmap.{Ptr, null, BitmapAllocator}
use pool_memalloc.Bitmap.Valid.{IsValid, allocated, release, release-IsValid, allocated-release}
use pool_memalloc.Bitmap.Alloc.{Effect, handed, refused, alloc-Effect}
use pool_memalloc.Bitmap.Dealloc.{address, dealloc-release}
use pool_memalloc.TlBitmap.{
  Region, ThreadLocalBitmapAllocator, alloc_in, in_region, dealloc_in, dealloc_loop, dealloc,
}
use pool_memalloc.TlBitmap.AsBitmap.{as_bitmap, as_region, served, alloc_in-as_bitmap}

-- The address lies in the region's memory.
abbrev pub Within : ℕ → Region → Ptr → Type 0
Within size r p = (r.memory ≤ p) × (p < r.memory + r.block_count * size)

-- Every region is a valid bitmap allocator.
abbrev pub AllValid : ℕ → List Region → Type 0
AllValid size rs = (k : ℕ) (r : Region) → get_elem? rs k ≡ some r → IsValid (as_bitmap size r)

-- No address lies in two regions.
abbrev pub Disjoint : ℕ → List Region → Type 0
Disjoint size rs =
    (j k : ℕ) (r s : Region) (p : Ptr)
    → get_elem? rs j ≡ some r
    → get_elem? rs k ≡ some s
    → Within size r p
    → Within size s p
    → j ≡ k

module _ {size : ℕ} {r : Region} (v : IsValid (as_bitmap size r)) (p : Ptr) where
  within : Within size r p → in_region size r p ≡ true
  unfolding in_region
  within (h, k) = ground (arith, v.fits)

  outside : (Within size r p → ⊥) → in_region size r p ≡ false
  unfolding in_region
  outside h = ground (arith, v.fits)

Disjoint-tail :
    (size : ℕ) (r : Region) (rs : List Region) → Disjoint size (r ∷ rs) → Disjoint size rs
Disjoint-tail size r rs d j k s t p a b h l = let e = d (suc j) (suc k) s t p a b h l in omega arith

-- A pointer of region `k` reaches that region's `dealloc`, and no other changes.
dealloc_loop-set :
    (size : ℕ) (rs : List Region) (k : ℕ) (r : Region) (p : Ptr)
    → AllValid size rs
    → Disjoint size rs
    → get_elem? rs k ≡ some r
    → Within size r p
    → dealloc_loop size rs p ≡ set rs k (dealloc_in size r p)
unfolding dealloc_loop
dealloc_loop-set size [] k r p v d e h = absurd (ground (arith, e))
dealloc_loop-set size (s ∷ rs) zero r p v d e h =
    let same : s ≡ r = ground (arith, e) in
    let here : in_region size s p ≡ true =
      within (v 0 s refl) p (subst (λ t. Within size t p) (sym same) h) in
    rw (here, same) refl
dealloc_loop-set size (s ∷ rs) (suc k) r p v d e h =
    let gone : in_region size s p ≡ false =
      outside (v 0 s refl) p (λ l. absurd (ground (arith, d 0 (suc k) s r p refl e l h))) in
    rw gone (
      ap (λ (t : List Region). s ∷ t)
        (dealloc_loop-set size rs k r p (λ j. v (suc j)) (Disjoint-tail size s rs d) e h))

dealloc_loop-none :
    (size : ℕ) (rs : List Region) (p : Ptr)
    → AllValid size rs
    → ((k : ℕ) (r : Region) → get_elem? rs k ≡ some r → Within size r p → ⊥)
    → dealloc_loop size rs p ≡ rs
unfolding dealloc_loop
dealloc_loop-none size [] p v out = refl
dealloc_loop-none size (s ∷ rs) p v out =
    let gone : in_region size s p ≡ false = outside (v 0 s refl) p (out 0 s refl) in
    rw gone (
      ap (λ (t : List Region). s ∷ t)
        (dealloc_loop-none size rs p (λ j. v (suc j)) (λ k. out (suc k))))

module _ (a : ThreadLocalBitmapAllocator) (valid : AllValid a.block_size a.regions) where
  -- `dealloc` of the address of block `index` of region `k`, whichever thread calls it: that region
  -- alone changes, its block `index` alone is freed, and it stays valid.
  pub dealloc-region :
      (k index : ℕ) (r : Region)
      → Disjoint a.block_size a.regions
      → get_elem? a.regions k ≡ some r
      → index < r.block_count
      → (s : Region) × (dealloc a (address (as_bitmap a.block_size r) index)
          ≡ record a { regions = set a.regions k s })
        × IsValid (as_bitmap a.block_size s)
        × ((j : ℕ)
            → allocated (as_bitmap a.block_size s) j
              ≡ (if index == j then false else allocated (as_bitmap a.block_size r) j))
  unfolding dealloc
  dealloc-region k index r apart e h =
      let v : IsValid (as_bitmap a.block_size r) = valid k r e in
      (
        as_region (release (as_bitmap a.block_size r) index),
        ap (λ rs. record a { regions = rs })
            (dealloc_loop-set a.block_size a.regions k r (address (as_bitmap a.block_size r) index)
                valid apart e inside
              ∙ ap (λ s. set a.regions k s) ((alloc_in-as_bitmap a k r e).1 _)
              ∙ ap (λ b. set a.regions k (as_region b)) (dealloc-release v index h)),
        release-IsValid v index h,
        allocated-release v index h,
      )
    where
      scaled : (i n s : ℕ) → i < n → 0 < s → i * s < n * s
      scaled i n s h p = grind arith

      inside : Within a.block_size r (address (as_bitmap a.block_size r) index)
      inside = (
        omega arith,
        omega (
          arith,
          scaled index r.block_count a.block_size h (omega (arith, (valid k r e).positive)),
        ),
      )

  -- A pointer into no region is ignored.
  pub dealloc-foreign :
      (p : Ptr)
      → ((k : ℕ) (r : Region) → get_elem? a.regions k ≡ some r → Within a.block_size r p → ⊥)
      → dealloc a p ≡ a
  unfolding dealloc
  dealloc-foreign p out =
      ap (λ rs. record a { regions = rs }) (dealloc_loop-none a.block_size a.regions p valid out)

  -- `alloc` of a thread with region `t`: the block, if there is one, is a free block of that region,
  -- and no other region changes.
  alloc_in-region :
      (spurious t : ℕ) (r : Region)
      → get_elem? a.regions t ≡ some r
      → (s : Region) × (p : Ptr) × (alloc_in spurious t a ≡ served a t s p)
        × Effect (as_bitmap a.block_size r) (as_bitmap a.block_size s, p)
  alloc_in-region spurious t r e =
      rw ((alloc_in-as_bitmap a t r e).0 spurious)
        (go _ (alloc-Effect spurious (as_bitmap a.block_size r) (valid t r e)))
    where
      go :
          (out : BitmapAllocator × Ptr)
          → Effect (as_bitmap a.block_size r) out
          → (s : Region) × (p : Ptr) × (served a t (as_region (out.0)) (out.1) ≡ served a t s p)
            × Effect (as_bitmap a.block_size r) (as_bitmap a.block_size s, p)
      go (b, p) (handed index h at free bits v shape) = (
        as_region b,
        p,
        refl,
        subst (λ (n : ℕ). Effect (as_bitmap a.block_size r) (record b { block_size = n }, p))
            (ap (λ (c : BitmapAllocator). c.block_size) shape)
            (handed index h at free bits v shape),
      )
      go (b, p) refused = (r, null, refl, refused)
