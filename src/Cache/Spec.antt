-- ===== src/Cache/Spec.antt =====
-- What a thread cache promises: two lists of blocks, the thread's and the shared one, and what each
-- call moves between them.
use mathlib.Core.List.{reverse_aux}
use pool_memalloc.Common.{
  ℕ, ◌-◌, ◌*◌, ◌/◌, List, [], ◌∷◌, ◌++◌, ltb, leb, if◌then◌else◌, length, take, drop,
}
use pool_memalloc.Heap.{Ptr, null}
use pool_memalloc.Freelist.Bulk.{asked}

pub record Pools : Type 0 where
  pub global : List Ptr
  pub local : List Ptr

abbrev pub pools : List Ptr → List Ptr → Pools
pools xs ys = record { global = xs; local = ys }

abbrev pub refill_spec : ℕ → Pools → Pools
refill_spec batch p = pools (drop (asked batch) p.global) (take (asked batch) p.global ++ p.local)

abbrev pub flush_spec : ℕ → Pools → Pools
flush_spec excess p = pools (reverse_aux (take excess p.local) p.global) (drop excess p.local)

-- `alloc` gives the first block of the local list, after a refill where that is short.
abbrev pub front : List Ptr → Ptr
front [] = null
front (x ∷ xs) = x

abbrev pub behind_front : List Ptr → List Ptr
behind_front [] = []
behind_front (x ∷ xs) = xs

unfoldable pub ready_spec : ℕ → Pools → Pools
ready_spec batch p = if leb (length p.local) (batch / 2) then refill_spec batch p else p

unfoldable pub alloc_spec : ℕ → Pools → Ptr × Pools
unfolding ready_spec
alloc_spec batch p =
    let q = ready_spec batch p in (front q.local, pools q.global (behind_front q.local))

-- Where there are more than twice `batch` blocks, all but `batch` are given back.
unfoldable pub trim_spec : ℕ → Pools → Pools
trim_spec batch q =
    if ltb (batch * 2) (length q.local) then flush_spec (length q.local - batch) q else q

-- `dealloc` puts the block in front.
unfoldable pub dealloc_spec : ℕ → Ptr → Pools → Pools
unfolding trim_spec
dealloc_spec batch ptr p = trim_spec batch (pools p.global (ptr ∷ p.local))
