-- ===== src/Cache/Settled.antt =====
-- Past a bound the fuel makes no difference to a call of the thread cache: the loops end.
use pool_memalloc.Common.{ℕ, suc, ◌+◌, ◌^◌, ◌<◌, ◌≡◌, ◌≢◌, refl, false, arith, length}
use mathlib.Core.Path.{subst}
use pool_memalloc.Heap.{Ptr, null, World, ThreadStats, Run, ok}
use pool_memalloc.Heap.Returns.{Returns, returns}
use pool_memalloc.Heap.Alike.{Alike, agree}
use pool_memalloc.Stats.{Build}
use pool_memalloc.Cache.{ThreadCache, alloc, dealloc}
use pool_memalloc.Cache.Spec.{Pools}
use pool_memalloc.Cache.Valid.{IsCache}
use pool_memalloc.Cache.Refill.{owned}
use pool_memalloc.Cache.Calls.{alloc-refines, dealloc-refines}
use pool_memalloc.Cache.Builds.{calls-Alike}

abbrev plain : Build
plain = record { instrumentation = false; debug = false }

-- The result, but for the thread's own state.
abbrev pub EndsIn : {A : Type 0} → A → World → Run A → Type 0
EndsIn a w r = (t : ThreadStats) × (r ≡ ok a (record w { local = t }))

module _ {A : Type 0} where
  Returns-ok :
      {P : A → World → Type 0} {r : Run A} → Returns P r → (a : A) × (w : World) × (r ≡ ok a w)
  Returns-ok (returns {a} {w} p) = (a, w, refl)

  Alike-EndsIn : {a : A} {w : World} {s : Run A} → Alike (ok a w) s → EndsIn a w s
  Alike-EndsIn (agree t) = (t, refl)

module _ {c : ThreadCache} {p : Pools} {w : World} (is : IsCache w c p) where
  -- What one call gives in every build, with more fuel than failures are still to come and more
  -- rounds than `n`.
  abbrev pub Settles : {A : Type 0} → (n : ℕ) → (Build → (rounds fuel : ℕ) → Run A) → Type 0
  Settles {A} n call =
      (a : A) × (w' : World) × ((b : Build) (rounds fuel : ℕ)
        → n < rounds
        → length w.weak < fuel
        → EndsIn a w' (call b rounds fuel))

  alloc-Settles : Settles (length p.global) (λ b rounds fuel. alloc b rounds fuel c w)
  alloc-Settles =
      let (out, w1, e) = Returns-ok (
        alloc-refines plain (suc (length p.global)) (suc (length w.weak)) c w (omega arith) p is
          (omega arith)) in
      (
        out,
        w1,
        λ b rounds fuel r f. Alike-EndsIn (
            subst (λ s. Alike s (alloc b rounds fuel c w)) e
              ((calls-Alike plain b r f c null w w.local).0)),
      )

  dealloc-Settles :
      (ptr : Ptr)
      → ptr ≢ null
      → owned p ptr ≡ 0
      → length p.global + length p.local + 1 < 2 ^ 63
      → Settles (length p.local + 1) (λ b rounds fuel. dealloc b rounds fuel c ptr w)
  dealloc-Settles ptr ne fresh small =
      let (out, w1, e) = Returns-ok (
        dealloc-refines plain (suc (length p.local + 1)) (suc (length w.weak)) c w (omega arith) p
          ptr is (omega arith) ne fresh small) in
      (
        out,
        w1,
        λ b rounds fuel r f. Alike-EndsIn (
            subst (λ s. Alike s (dealloc b rounds fuel c ptr w)) e
              ((calls-Alike plain b r f c ptr w w.local).1)),
      )

  -- The loops of `alloc`, and of `dealloc` of a block that is not `nullptr` and that neither list
  -- holds, where the two lists have fewer than 2 ^ 63 blocks with it, end: with more fuel than failures
  -- of the compare-exchange are still to come, and more rounds than the freelist has blocks for
  -- `alloc`, one more than the thread has for `dealloc`, every run in every build returns, and returns
  -- the same, with the same memory. Of a block that is given back twice nothing is said.
  pub calls-Settle :
      (ptr : Ptr)
      → ptr ≢ null
      → owned p ptr ≡ 0
      → length p.global + length p.local + 1 < 2 ^ 63
      → Settles (length p.global) (λ b rounds fuel. alloc b rounds fuel c w)
        × Settles (length p.local + 1) (λ b rounds fuel. dealloc b rounds fuel c ptr w)
  calls-Settle ptr ne fresh small = (alloc-Settles, dealloc-Settles ptr ne fresh small)
