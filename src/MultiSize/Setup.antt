-- ===== src/MultiSize/Setup.antt =====
-- What the constructor of `MultiSizeAllocator` makes.
use pool_memalloc.Common.{
  ℕ, zero, suc, ◌+◌, ◌*◌, ◌^◌, ◌≤◌, ◌<◌, ◌≡◌, refl, sym, ap, Option, some, arith, length, get_or,
  get_elem?,
}
use pool_memalloc.Heap.{Ptr, World}
use pool_memalloc.Heap.Returns
use pool_memalloc.Heap.Returns.{Returns, returns}
use pool_memalloc.Freelist.Stack.{IsStack}
use pool_memalloc.TlFreelist.{ThreadLocalFreelistAllocator, block_size_for}
use pool_memalloc.TlFreelist.Life.{allocator_of, block_size_for_bounds}
use pool_memalloc.MultiSize.{MultiSizeAllocator, num_classes, size_classes, class_index, construct}
use pool_memalloc.MultiSize.Classes.{class_index-least}
use pool_memalloc.MultiSize.Life.{region_of, blocks_of, IsGiven, new_pools-Opened}

abbrev pub class : ℕ → ℕ
class k = get_or size_classes k 0

-- The allocator: five pools, each with the blocks of its region on its freelist, and for each request
-- of up to 256 bytes the pool of its class, whose blocks are large enough.
pub record IsClassed (aligned_alloc : ℕ → ℕ → ℕ → Ptr) (first n batch : ℕ)
    (out : Option MultiSizeAllocator) (w : World) : Type 0 where
  pub allocator : MultiSizeAllocator
  pub made : out ≡ some allocator
  pub sized : length allocator.pools ≡ num_classes
  pub pool :
      (k : ℕ)
      → k < num_classes
      → get_elem? allocator.pools k
        ≡ some (allocator_of (first + k) (class k) n batch (region_of aligned_alloc class n k))
  pub stack : (k : ℕ) → k < num_classes → IsStack w (first + k) (blocks_of aligned_alloc class n k)
  pub serves :
      (size : ℕ)
      → size ≤ 256
      → (a : ThreadLocalFreelistAllocator) × (get_elem? allocator.pools (class_index size) ≡ some a)
        × (size ≤ a.block_size)

class_le : (k : ℕ) → class k ≤ 256
class_le zero = omega arith
class_le (suc zero) = omega arith
class_le (suc (suc zero)) = omega arith
class_le (suc (suc (suc zero))) = omega arith
class_le (suc (suc (suc (suc zero)))) = omega arith
class_le (suc (suc (suc (suc (suc k))))) = omega arith

pub class-block_le : (k : ℕ) → k < num_classes → block_size_for (class k) ≤ 256
unfolding block_size_for
class-block_le zero h = omega arith
class-block_le (suc zero) h = omega arith
class-block_le (suc (suc zero)) h = omega arith
class-block_le (suc (suc (suc zero))) h = omega arith
class-block_le (suc (suc (suc (suc zero)))) h = omega arith
class-block_le (suc (suc (suc (suc (suc k))))) h = absurd (omega arith)

from_zero : (k : ℕ) → k ≡ 0 + k
from_zero k = omega arith

scaled : (s m : ℕ) → s ≤ 256 → s * m ≤ 256 * m
scaled s m h = grind arith

-- The constructor, total: where 256 bytes for each block of a pool do not wrap, the batch size is
-- below 2 ^ 62, and `std::aligned_alloc` gives five regions that end in the address space and do not
-- overlap, it makes five pools, each with the blocks of its region on its freelist, and a request of
-- up to 256 bytes has the pool of its class, whose blocks are large enough for it.
pub construct-IsClassed :
    (aligned_alloc : ℕ → ℕ → ℕ → Ptr) (fuel first n batch : ℕ) (w : World)
    → IsGiven aligned_alloc class n num_classes
    → batch < 2 ^ 62
    → 256 * n + 63 < 2 ^ 64
    → length w.weak < fuel
    → Returns (IsClassed aligned_alloc first n batch) (construct aligned_alloc fuel first n batch w)
unfolding construct
construct-IsClassed aligned_alloc fuel first n batch w given few fits l =
    Returns.bind
      (new_pools-Opened aligned_alloc class n first batch num_classes fuel given few
        (λ k h. omega (arith, class_le k))
        (λ k h. omega (arith, fits, scaled (block_size_for (class k)) n (class-block_le k h)))
        size_classes 0 w (λ k h. ap class (from_zero k)) refl l)
      λ out w1 d. rw d.made (
        returns (record {
          allocator = record { pools = d.pools };
          made = refl;
          sized = d.sized;
          pool = λ k h. let z = sym (from_zero k) in rw z at (d.pool k h);
          stack = λ k h. let z = sym (from_zero k) in rw z at (d.stack k h);
          serves = λ size h.
              let (inside, enough) = (class_index-least size).0 h in
              (
                allocator_of (first + class_index size) (class (class_index size)) n batch
                    (region_of aligned_alloc class n (class_index size)),
                (let z = sym (from_zero (class_index size)) in
                    rw z at (d.pool (class_index size) inside)),
                omega (
                  arith,
                  enough,
                  block_size_for_bounds (class (class_index size))
                      (omega (arith, class_le (class_index size))),
                ),
              );
        }))
