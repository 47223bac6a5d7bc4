-- ===== src/MultiSize/Classes.antt =====
-- Which pool serves a request of a size.
use pool_memalloc.Common.{
  ℕ, zero, suc, ◌≤◌, ◌<◌, ◌≡◌, refl, Option, some, List, [], ◌∷◌, leb, arith, get_elem?, length,
  get_or, false,
}
use pool_memalloc.Heap.{Ptr, null, World, ok}
use pool_memalloc.Stats.{Build}
use pool_memalloc.Cache
use pool_memalloc.Cache.{ThreadCache}
use pool_memalloc.TlFreelist
use pool_memalloc.TlFreelist.{ThreadLocalFreelistAllocator}
use pool_memalloc.MultiSize.{
  MultiSizeAllocator, num_classes, size_classes, class_from, class_index, alloc, dealloc,
}

-- `class_index` gives the first class that is large enough, and `NUM_CLASSES` where none is.
pub class_index-least :
    (size : ℕ)
    → (size ≤ 256
        → (class_index size < num_classes) × (size ≤ get_or size_classes (class_index size) 0))
      × (256 < size → class_index size ≡ num_classes)
      × ((j : ℕ) → j < class_index size → get_or size_classes j 0 < size)
unfolding class_index class_from
class_index-least size = (λ h. ground arith, λ h. ground arith, λ j h. smaller j h)
  where
    smaller : (j : ℕ) → j < class_from size_classes 0 size → get_or size_classes j 0 < size
    smaller zero h = ground arith
    smaller (suc zero) h = ground arith
    smaller (suc (suc zero)) h = ground arith
    smaller (suc (suc (suc zero))) h = ground arith
    smaller (suc (suc (suc (suc zero)))) h = ground arith
    smaller (suc (suc (suc (suc (suc j))))) h = absurd (ground arith)

some_pool :
    (ps : List ThreadLocalFreelistAllocator) (i : ℕ)
    → i < length ps
    → (a : ThreadLocalFreelistAllocator) × (get_elem? ps i ≡ some a)
some_pool [] i h = absurd (omega arith)
some_pool (p ∷ ps) zero h = (p, refl)
some_pool (p ∷ ps) (suc i) h = some_pool ps i (omega arith)

module _ (b : Build) (rounds fuel : ℕ) (m : MultiSizeAllocator) (size : ℕ) where
  -- A request of more than 256 bytes is refused, and one to give back such a block ignored; neither
  -- touches memory nor the thread's cache.
  pub alloc-too_large :
      (cache : Option ThreadCache) (ptr : Ptr) (w : World)
      → 256 < size
      → (alloc b rounds fuel m cache size w ≡ ok (null, cache) w)
        × (dealloc b rounds fuel m cache ptr size w ≡ ok cache w)
  unfolding alloc dealloc
  alloc-too_large cache ptr w h =
      let (small, large, below) = class_index-least size in rw (large h) (refl, refl)

  -- A thread that has a cache takes every block from it, and puts every block into it, whatever the
  -- size: all pools of the allocator share the thread's one cache.
  pub alloc-any_size :
      (c : ThreadCache) (ptr : Ptr) (w : World)
      → size ≤ 256
      → length m.pools ≡ num_classes
      → (alloc b rounds fuel m (some c) size w
          ≡ TlFreelist.with_cache (Cache.alloc b rounds fuel c) w)
        × (dealloc b rounds fuel m (some c) ptr size w
            ≡ TlFreelist.keep_cache (Cache.dealloc b rounds fuel c ptr) w)
  unfolding alloc dealloc TlFreelist.alloc TlFreelist.dealloc TlFreelist.get_cache
  alloc-any_size c ptr w h five =
      let small : class_index size < num_classes = ((class_index-least size).0 h).0 in
      let fits : leb num_classes (class_index size) ≡ false = ground arith in
      let (a, e) = some_pool m.pools (class_index size) (omega arith) in rw (fits, e) (refl, refl)
