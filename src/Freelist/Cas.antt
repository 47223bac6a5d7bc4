-- ===== src/Freelist/Cas.antt =====
-- `compare_exchange_weak` of a head, where it expects what is there.
use pool_memalloc.Common.{
  ℕ, ◌≤◌, ◌<◌, ◌≡◌, refl, ap, Bool, true, false, List, [], ◌∷◌, arith, length,
}
use pool_memalloc.Heap.{TaggedPtr, tagged_eq, World, Run, ok, compare_exchange_weak, update}

tagged_eq_refl : (t : TaggedPtr) → tagged_eq t t ≡ true
tagged_eq_refl t = ground arith

-- A compare-exchange that expects what is there stores the new head, or fails for no reason.
pub data CasOutcome (f : ℕ) (desired : TaggedPtr) (w : World) : Run Bool → Type 0 where
  stored :
      (rest : List Bool)
      → length rest ≤ length w.weak
      → CasOutcome f desired w
          (ok true (record w { heads = update w.heads f desired; weak = rest }))
  failed :
      (rest : List Bool)
      → length rest < length w.weak
      → CasOutcome f desired w (ok false (record w { weak = rest }))

pub compare_exchange_weak-CasOutcome :
    (f : ℕ) (desired : TaggedPtr) (w : World)
    → CasOutcome f desired w (compare_exchange_weak f (w.heads f) desired w)
unfolding compare_exchange_weak
compare_exchange_weak-CasOutcome f desired w = rw (tagged_eq_refl (w.heads f)) (go w.weak refl)
  where
    go :
        (l : List Bool)
        → w.weak ≡ l
        → CasOutcome f desired w (elim w.weak [
          | [] ↦ ok true (record w { heads = update w.heads f desired; weak = [] })
          | true ∷ rest ↦ ok false (record w { weak = rest })
          | false ∷ rest ↦ ok true (record w { heads = update w.heads f desired; weak = rest })
        ])
    go [] e = rw e (stored [] (omega (arith, ap length e)))
    go (true ∷ rest) e = rw e (failed rest (omega (arith, ap length e)))
    go (false ∷ rest) e = rw e (stored rest (omega (arith, ap length e)))
