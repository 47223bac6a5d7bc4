-- ===== src/Bench/Contract.antt =====
-- What the workers ask of an allocator.
use pool_memalloc.Common.{ℕ, ◌+◌, ◌≤◌, ◌≡◌, ◌≢◌, ◌⊎◌, Option, some, ◌==◌, if◌then◌else◌}
use pool_memalloc.Heap.{Ptr, null}
use pool_memalloc.Bench.{Access, target, extent}

-- `Free s m`: in state `s` block `x` is free as often as `m x` says. `Own p`: `p` is the address of a
-- block of the allocator. A call never fails; a block that is given out was free, and one that is
-- given back becomes free. `room` bytes of a block that is not free can be accessed.
pub record Contract {S : Type 0} (allocate : S → Option (S × Ptr)) (release : S → Ptr → Option S)
    (touch : S → Access → Option S) : Type 1 where
  pub Free : S → (Ptr → ℕ) → Type 0
  pub Own : Ptr → Type 0
  pub room : ℕ
  pub roomy : 1 ≤ room
  pub allocate_law :
      (s : S) (m : Ptr → ℕ)
      → Free s m
      → (s' : S) × (p : Ptr) × (allocate s ≡ some (s', p))
        × ((p ≡ null) × Free s' m
            ⊎ ((p ≢ null)
                × Own p
                × ((m' : Ptr → ℕ) × Free s' m'
                    × ((x : Ptr) → m' x + (if x == p then 1 else 0) ≡ m x))))
  pub release_law :
      (s : S) (m : Ptr → ℕ) (p : Ptr)
      → Free s m
      → Own p
      → p ≢ null
      → m p ≡ 0
      → (s' : S) × (release s p ≡ some s')
        × ((m' : Ptr → ℕ) × Free s' m' × ((x : Ptr) → m' x ≡ m x + (if x == p then 1 else 0)))
  pub touch_law :
      (s : S) (m : Ptr → ℕ) (access : Access)
      → Free s m
      → Own (target access)
      → m (target access) ≡ 0
      → extent access ≤ room
      → (s' : S) × (touch s access ≡ some s') × Free s' m
