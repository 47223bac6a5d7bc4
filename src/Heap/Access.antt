-- ===== src/Heap/Access.antt =====
-- Reads and writes of a block's `next` that do not fault.
use pool_memalloc.Common.{◌≡◌, ◌≢◌, false, ◌==◌, arith}
use pool_memalloc.Heap.{Ptr, null, World, ok, load_next, set_next, update}

pub not_null : (p : Ptr) → p ≢ null → (p == null) ≡ false
not_null p ne = ground arith

pub load_next-ok : (p : Ptr) (w : World) → p ≢ null → load_next p w ≡ ok (w.next p) w
unfolding load_next
load_next-ok p w ne = rw (not_null p ne)

pub set_next-ok :
    (p q : Ptr) (w : World)
    → p ≢ null
    → set_next p q w ≡ ok tt (record w { next = update w.next p q })
unfolding set_next
set_next-ok p q w ne = rw (not_null p ne)
