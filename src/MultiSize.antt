-- ===== src/MultiSize.antt =====
-- src/multi_size_allocator.cpp and include/multi_size_allocator.hpp: an allocator for each of five
-- size classes. The pools are those of TlFreelist.antt, with that file's one cache for each thread.
pub mod Classes
pub mod Life
pub mod Setup
mod Tests
use pool_memalloc.Common.{
  ℕ, zero, suc, ◌+◌, ◌-◌, ◌*◌, Option, none, some, List, [], ◌∷◌, leb, ◌==◌, if◌then◌else◌,
  get_elem?,
}
use pool_memalloc.Heap.{Ptr, null, World, fault, Cmd, pure, ◌>>=◌}
use pool_memalloc.Stats.{Build}
use pool_memalloc.Cache.{ThreadCache}
use pool_memalloc.TlFreelist
use pool_memalloc.TlFreelist.{ThreadLocalFreelistAllocator}

abbrev pub num_classes : ℕ
num_classes = 5

abbrev pub size_classes : List ℕ
size_classes = 16 ∷ 32 ∷ 64 ∷ 128 ∷ 256 ∷ []

pub record MultiSizeAllocator : Type 0 where
  pub pools : List ThreadLocalFreelistAllocator

-- The loop of `class_index`, from class `i` on.
unfoldable pub class_from : List ℕ → (i size : ℕ) → ℕ
class_from [] i size = num_classes
class_from (s ∷ ss) i size = let rest = class_from ss (i + 1) size in if leb size s then i else rest

unfoldable pub class_index : ℕ → ℕ
unfolding class_from
class_index size = class_from size_classes 0 size

-- The constructor's loop; pool `i` has freelist `first + i`. Where a pool's constructor throws, so
-- does this one, and the pools before it are not deleted.
unfoldable pub new_pools :
    (aligned_alloc : ℕ → ℕ → ℕ → Ptr)
    → (fuel first blocks_per_class batch i : ℕ) → List ℕ
    → Cmd (Option (List ThreadLocalFreelistAllocator))
unfolding TlFreelist.construct
new_pools aligned_alloc fuel first blocks_per_class batch i [] = pure (some [])
new_pools aligned_alloc fuel first blocks_per_class batch i (s ∷ ss) = do
  pool ← TlFreelist.construct (aligned_alloc i) fuel (first + i) s blocks_per_class batch
  elim pool [
    | none ↦ pure none
    | some a ↦ (do
      rest ← new_pools aligned_alloc fuel first blocks_per_class batch (i + 1) ss
      elim rest [ none ↦ pure none | some made ↦ pure (some (a ∷ made)) ])
  ]

unfoldable pub construct :
    (aligned_alloc : ℕ → ℕ → ℕ → Ptr)
    → (fuel first blocks_per_class batch : ℕ) → Cmd (Option MultiSizeAllocator)
unfolding new_pools
construct aligned_alloc fuel first blocks_per_class batch = do
  pools ← new_pools aligned_alloc fuel first blocks_per_class batch 0 size_classes
  elim pools [ none ↦ pure none | some ps ↦ pure (some (record { pools = ps })) ]

-- The destructor's loop: each pool is deleted, which frees its region.
unfoldable pub delete_all : List ThreadLocalFreelistAllocator → List Ptr
unfolding TlFreelist.destroy
delete_all [] = []
delete_all (a ∷ rest) = elim (TlFreelist.destroy a) [
  | [] ↦ delete_all rest
  | p ∷ ps ↦ p ∷ delete_all rest
]

unfoldable pub destroy : MultiSizeAllocator → List Ptr
unfolding delete_all
destroy m = delete_all m.pools

-- `cache` is the calling thread's cache. The constructor fills all five pools; without one at the
-- index there would be no result.
unfoldable pub alloc :
    Build
    → (rounds fuel : ℕ) → MultiSizeAllocator
    → Option ThreadCache
    → (size : ℕ) → Cmd (Ptr × Option ThreadCache)
unfolding class_index TlFreelist.alloc
alloc b rounds fuel m cache size =
    let idx = class_index size in
    if leb num_classes idx then pure (null, cache) else elim (get_elem? m.pools idx) [
      | none ↦ λ w. fault
      | some a ↦ TlFreelist.alloc b rounds fuel a cache
    ]

unfoldable pub dealloc :
    Build
    → (rounds fuel : ℕ) → MultiSizeAllocator
    → Option ThreadCache
    → Ptr
    → (size : ℕ) → Cmd (Option ThreadCache)
unfolding class_index TlFreelist.dealloc
dealloc b rounds fuel m cache ptr size =
    let idx = class_index size in
    if leb num_classes idx then pure cache else elim (get_elem? m.pools idx) [
      | none ↦ λ w. fault
      | some a ↦ TlFreelist.dealloc b rounds fuel a cache ptr
    ]
