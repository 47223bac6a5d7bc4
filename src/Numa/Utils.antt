-- ===== src/Numa/Utils.antt =====
-- src/numa_utils.cpp and include/numa_utils.hpp, on each platform. What the operating system answers
-- is a parameter.
pub mod Counts
pub mod Memory
mod Tests
use pool_memalloc.Common.{
  ℕ, zero, suc, ◌+◌, ◌%◌, ◌^◌, ◌≤◌, ◌<◌, ◌≡◌, ◌≢◌, refl, Bool, true, false, Option, none, some,
  List, [], ◌∷◌, ltb, ◌==◌, if◌then◌else◌, arith, Bool-cases, inl, inr,
}
use pool_memalloc.Heap.{Ptr, null}

-- What Windows answers: `GetNumaHighestNodeNumber` and `GetNumaProcessorNodeEx`, none where they
-- fail, and `VirtualAllocExNuma`, `_aligned_malloc` and `VirtualFree`.
pub record WindowsCalls : Type 0 where
  pub highest_node : Option ℕ
  pub processor_node : Option ℕ
  pub virtual_alloc : (size node : ℕ) → Ptr
  pub aligned_malloc : (size alignment : ℕ) → Ptr
  pub virtual_free_ok : Ptr → Bool

-- What Linux answers: whether the directory of a node is there; `sched_getcpu`, none where it is
-- negative; the number that `fscanf` reads from the file of a processor, none where it cannot be
-- opened or holds no number; and `mmap`, none for `MAP_FAILED`.
pub record LinuxCalls : Type 0 where
  pub access : ℕ → Bool
  pub cpu : Option ℕ
  pub read_package : ℕ → Option ℕ
  pub mmap : (size : ℕ) → Option Ptr

-- The branches of the preprocessor.
pub data Platform : Type 0 where
  win32 : WindowsCalls → Platform
  linux : LinuxCalls → Platform
  other : (aligned_alloc : (alignment size : ℕ) → Ptr) → Platform

-- The loop of `node_count`, `rounds` numbers left, from `n` on, with the count so far; `access n`
-- says whether the directory of node `n` is there.
unfoldable pub count_nodes : (access : ℕ → Bool) → (rounds n count : ℕ) → ℕ
count_nodes access zero n count = count
count_nodes access (suc rounds) n count =
    let rest = count_nodes access rounds (n + 1) (count + 1) in if access n then rest else count

-- `highest` is a 32-bit number, so that the sum does not wrap.
unfoldable pub node_count : Platform → ℕ
unfolding count_nodes
node_count (win32 calls) = elim calls.highest_node [ none ↦ 1 | some highest ↦ highest + 1 ]
node_count (linux calls) =
    let count = count_nodes calls.access 256 0 0 in if ltb 0 count then count else 1
node_count (other aligned_alloc) = 1

unfoldable pub current_node : Platform → ℕ
current_node (win32 calls) = elim calls.processor_node [ none ↦ 0 | some node ↦ node ]
current_node (linux calls) = elim calls.cpu [
  | none ↦ 0
  | some cpu ↦ elim (calls.read_package cpu) [ none ↦ 0 | some node ↦ node ]
]
current_node (other aligned_alloc) = 0

-- The second component is the node mask that `mbind` is given; what that call returns does not
-- matter. The node is cut to a `DWORD` on Windows. A shift by 64 or more, which C++ leaves open, is 0.
unfoldable pub alloc_on_node : Platform → (size alignment node : ℕ) → Ptr × Option ℕ
alloc_on_node (win32 calls) size alignment node =
    let ptr = calls.virtual_alloc size (node % 2 ^ 32) in
    if ptr == null then (calls.aligned_malloc size alignment, none) else (ptr, none)
alloc_on_node (linux calls) size alignment node = elim (calls.mmap size) [
  | none ↦ (null, none)
  | some ptr ↦ (ptr, some (2 ^ node % 2 ^ 64))
]
alloc_on_node (other aligned_alloc) size alignment node = (aligned_alloc alignment size, none)

-- The calls that give memory back.
pub data Release : Type 0 where
  virtual_free : Ptr → Release
  aligned_free : Ptr → Release
  munmap : Ptr → (size : ℕ) → Release
  free : Ptr → Release

-- The calls that `free_on_node` makes, in order.
unfoldable pub free_on_node : Platform → Ptr → (size : ℕ) → List Release
free_on_node p zero size = []
free_on_node (win32 calls) (suc n) size =
    if calls.virtual_free_ok (suc n)
    then virtual_free (suc n) ∷ []
    else virtual_free (suc n) ∷ aligned_free (suc n) ∷ []
free_on_node (linux calls) (suc n) size = munmap (suc n) size ∷ []
free_on_node (other aligned_alloc) (suc n) size = free (suc n) ∷ []
