-- ===== src/Numa/Utils/Memory.antt =====
-- Memory of `alloc_on_node`, and the calls of `free_on_node` that give it back.
use pool_memalloc.Common.{
  ℕ, zero, suc, ◌%◌, ◌^◌, ◌≡◌, ◌≢◌, refl, true, false, Option, none, some, List, [], ◌∷◌, ◌==◌,
  if◌then◌else◌, Bool-cases, inl, inr,
}
use pool_memalloc.Heap.{Ptr, null}
use pool_memalloc.Numa.Utils.{
  WindowsCalls, LinuxCalls, Platform, win32, linux, other, alloc_on_node, Release, virtual_free,
  aligned_free, munmap, free, free_on_node,
}

-- The call that has to give memory back: the counterpart of the one that it came from.
unfoldable pub counterpart : Platform → (size node : ℕ) → Ptr → Release
counterpart (win32 calls) size node p =
    if calls.virtual_alloc size (node % 2 ^ 32) == null then aligned_free p else virtual_free p
counterpart (linux calls) size node p = munmap p size
counterpart (other aligned_alloc) size node p = free p

-- What Windows says of `VirtualFree`: it takes what `VirtualAllocExNuma` gave, and nothing that
-- `_aligned_malloc` gave.
abbrev pub FreesItsOwn : Platform → Type 0
FreesItsOwn (win32 calls) =
    ((size node : ℕ)
      → calls.virtual_alloc size node ≢ null
      → calls.virtual_free_ok (calls.virtual_alloc size node) ≡ true)
    × ((size alignment : ℕ) → calls.virtual_free_ok (calls.aligned_malloc size alignment) ≡ false)
FreesItsOwn (linux calls) = Unit {0}
FreesItsOwn (other aligned_alloc) = Unit {0}

abbrev pub last : List Release → Option Release
last [] = none
last (x ∷ []) = some x
last (x ∷ y ∷ xs) = last (y ∷ xs)

module _ (calls : WindowsCalls) (size : ℕ) where
  freed_once :
      (p : Ptr)
      → p ≢ null
      → calls.virtual_free_ok p ≡ true
      → last (free_on_node (win32 calls) p size) ≡ some (virtual_free p)
  unfolding free_on_node
  freed_once zero live e = absurd (live refl)
  freed_once (suc n) live e = rw e refl

  freed_twice :
      (p : Ptr)
      → p ≢ null
      → calls.virtual_free_ok p ≡ false
      → last (free_on_node (win32 calls) p size) ≡ some (aligned_free p)
  unfolding free_on_node
  freed_twice zero live e = absurd (live refl)
  freed_twice (suc n) live e = rw e refl

freed_linux :
    (calls : LinuxCalls) (size : ℕ) (p : Ptr)
    → p ≢ null
    → last (free_on_node (linux calls) p size) ≡ some (munmap p size)
unfolding free_on_node
freed_linux calls size zero live = absurd (live refl)
freed_linux calls size (suc n) live = refl

freed_other :
    (aligned_alloc : ℕ → ℕ → Ptr) (size : ℕ) (p : Ptr)
    → p ≢ null
    → last (free_on_node (other aligned_alloc) p size) ≡ some (free p)
unfolding free_on_node
freed_other aligned_alloc size zero live = absurd (live refl)
freed_other aligned_alloc size (suc n) live = refl

free_on_node-null : (platform : Platform) (size : ℕ) → free_on_node platform null size ≡ []
unfolding free_on_node
free_on_node-null platform size = refl

freed-counterpart :
    (platform : Platform) (size alignment node : ℕ)
    → FreesItsOwn platform
    → (alloc_on_node platform size alignment node).0 ≢ null
    → last (free_on_node platform ((alloc_on_node platform size alignment node).0) size)
      ≡ some (counterpart platform size node ((alloc_on_node platform size alignment node).0))
unfolding alloc_on_node counterpart
freed-counterpart (win32 calls) size alignment node (own, foreign) live =
    elim (Bool-cases (calls.virtual_alloc size (node % 2 ^ 32) == null)) [
      | inl refused ↦ rw refused (
          freed_twice calls size (calls.aligned_malloc size alignment) (rw refused at live)
            (foreign size alignment))
      | inr given ↦ rw given (
          freed_once calls size (calls.virtual_alloc size (node % 2 ^ 32)) (rw given at live)
            (own size (node % 2 ^ 32) (rw given at live)))
    ]
freed-counterpart (linux calls) size alignment node own live =
    freed_linux calls size ((alloc_on_node (linux calls) size alignment node).0) live
freed-counterpart (other aligned_alloc) size alignment node own live =
    freed_other aligned_alloc size (aligned_alloc alignment size) live

-- Where `VirtualFree` takes back what `VirtualAllocExNuma` gave and nothing else: the last call that
-- `free_on_node` makes for memory of `alloc_on_node` is the counterpart of the call that it came from,
-- and there is none where the request failed.
pub free_on_node-alloc_on_node :
    (platform : Platform) (size alignment node : ℕ)
    → FreesItsOwn platform
    → ((alloc_on_node platform size alignment node).0 ≢ null
        → last (free_on_node platform ((alloc_on_node platform size alignment node).0) size)
          ≡ some (counterpart platform size node ((alloc_on_node platform size alignment node).0)))
      × ((alloc_on_node platform size alignment node).0 ≡ null
          → free_on_node platform ((alloc_on_node platform size alignment node).0) size ≡ [])
free_on_node-alloc_on_node platform size alignment node own = (
  freed-counterpart platform size alignment node own,
  λ e. rw e (free_on_node-null platform size),
)
