-- ===== src/Bench/Freelist.antt =====
-- The freelist under the workers of benchmark/freelist, as one thread runs them.
use pool_memalloc.Common.{
  ℕ, ◌+◌, ◌*◌, ◌≤◌, ◌<◌, true, ltb, ◌&&◌, ℕ_discrete, ◌≡◌, ◌≢◌, refl, ap, ◌⊎◌, inl, inr, Option,
  none, some, List, [], ◌∷◌, ◌==◌, if◌then◌else◌, arith, length,
}
use pool_memalloc.Common.Words.{u64}
use pool_memalloc.Heap.{Ptr, null, World, Run, ok, fault, out_of_fuel, Cmd}
use pool_memalloc.Heap.Returns.{Returns, returns}
use pool_memalloc.Heap.Count.{count, has_of_count, count_of_has, count_of_not_has}
use pool_memalloc.Freelist
use pool_memalloc.Freelist.Stack.{Kept, IsStack, push-cons, pop-cons, pop-nil}
use pool_memalloc.TlFreelist
use pool_memalloc.Bench.{BenchmarkConfig, Access, target, extent}
use pool_memalloc.Bench.Memory.{IsCut, touch, touch-inside}
use pool_memalloc.Heap.Spaced.{size_of_next}
use pool_memalloc.Heap.Chain.{has, Chain-frame}
use pool_memalloc.Bench.Contract.{Contract}

-- `initialize_pool`; the loop is that of the constructor of `ThreadLocalFreelistAllocator`, and the
-- size of a block is as it stands on the command line. Two blocks of less than eight bytes have parts
-- of their `next` in common, which memory here does not describe: then there is no result.
unfoldable pub initialize_pool :
    (aligned_alloc : ℕ → ℕ → Ptr) → (fuel f : ℕ) → BenchmarkConfig → Cmd (Unit {0})
unfolding TlFreelist.push_blocks
initialize_pool aligned_alloc fuel f cfg =
    if ltb cfg.size size_of_next && ltb 1 cfg.pool
    then (λ w. fault)
    else TlFreelist.push_blocks fuel f (aligned_alloc 64 (u64 (cfg.size * cfg.pool))) cfg.size
        cfg.pool 0

abbrev pub allocated : Run Ptr → Option (World × Ptr)
allocated (ok p w) = some (w, p)
allocated fault = none
allocated out_of_fuel = none

abbrev pub released : Run (Unit {0}) → Option World
released (ok u w) = some w
released fault = none
released out_of_fuel = none

-- `allocator.pop()` and `allocator.push(x)`.
abbrev pub allocate : (fuel f : ℕ) → World → Option (World × Ptr)
allocate fuel f w = allocated (Freelist.pop fuel f w)

abbrev pub release : (fuel f : ℕ) → World → Ptr → Option World
release fuel f w p = released (Freelist.push fuel f p w)

-- The stack holds the free blocks, each of them one of `all`.
pub record IsFree (all : List Ptr) (fuel f : ℕ) (w : World) (m : Ptr → ℕ) : Type 0 where
  pub blocks : List Ptr
  pub stack : IsStack w f blocks
  pub counts : (x : Ptr) → m x ≡ count x blocks
  pub among : (x : Ptr) → count x blocks ≤ count x all
  pub enough : length w.weak < fuel

module _ (all : List Ptr) (fuel f : ℕ) where
  pub took :
      (w : World) (m : Ptr → ℕ) (p : Ptr) (xs : List Ptr) {r : Run Ptr}
      → p ≢ null
      → ((x : Ptr) → m x ≡ count x (p ∷ xs))
      → ((x : Ptr) → count x (p ∷ xs) ≤ count x all)
      → length w.weak < fuel
      → Returns (λ r w'. (r ≡ p) × IsStack w' f xs × Kept f w w' × (w'.next ≡ w.next)) r
      → (s' : World) × (q : Ptr) × (allocated r ≡ some (s', q))
        × ((q ≡ null) × IsFree all fuel f s' m
            ⊎ ((q ≢ null)
                × (1 ≤ count q all)
                × ((m' : Ptr → ℕ) × IsFree all fuel f s' m'
                    × ((x : Ptr) → m' x + (if x == q then 1 else 0) ≡ m x))))
  took w m p xs ne counts among l (returns {a = q} {w = w'} (e, is, kept, same)) = (
    w',
    q,
    refl,
    inr (
      rw e ne,
      rw e (ground (arith, among p)),
      (
        λ x. count x xs,
        record {
          blocks = xs;
          stack = is;
          counts = λ x. refl;
          among = λ x. omega (arith, among x);
          enough = omega (arith, kept.fewer);
        },
        λ x. rw e (omega (arith, counts x)),
      ),
    ),
  )

  pub gave :
      (w : World) (m : Ptr → ℕ) (p : Ptr) (xs : List Ptr) {A : World → Type 0} {r : Run (Unit {0})}
      → ((x : Ptr) → m x ≡ count x xs)
      → ((x : Ptr) → count x xs ≤ count x all)
      → count p xs ≡ 0
      → 1 ≤ count p all
      → length w.weak < fuel
      → Returns (λ u w'. IsStack w' f (p ∷ xs) × Kept f w w' × A w') r
      → (s' : World) × (released r ≡ some s')
        × ((m' : Ptr → ℕ) × IsFree all fuel f s' m'
            × ((x : Ptr) → m' x ≡ m x + (if x == p then 1 else 0)))
  gave w m p xs counts among fresh own l (returns {w = w'} (is, kept, rest)) = (
    w',
    refl,
    (
      λ x. count x (p ∷ xs),
      record {
        blocks = p ∷ xs;
        stack = is;
        counts = λ x. refl;
        among = λ x. elim (ℕ_discrete x p) [
          | yes e ↦ rw e (ground (arith, fresh, own))
          | no ne ↦ ground (arith, among x, ne)
        ];
        enough = omega (arith, kept.fewer);
      },
      λ x. omega (arith, counts x),
    ),
  )

  pub takes :
      (w : World) (m : Ptr → ℕ) (xs : List Ptr)
      → IsStack w f xs
      → ((x : Ptr) → m x ≡ count x xs)
      → ((x : Ptr) → count x xs ≤ count x all)
      → length w.weak < fuel
      → (s' : World) × (q : Ptr) × (allocate fuel f w ≡ some (s', q))
        × ((q ≡ null) × IsFree all fuel f s' m
            ⊎ ((q ≢ null)
                × (1 ≤ count q all)
                × ((m' : Ptr → ℕ) × IsFree all fuel f s' m'
                    × ((x : Ptr) → m' x + (if x == q then 1 else 0) ≡ m x))))
  takes w m [] is counts among l = (
    w,
    null,
    ap allocated (pop-nil fuel f l is),
    inl (refl, record { blocks = []; stack = is; counts = counts; among = among; enough = l }),
  )
  takes w m (p ∷ xs) is counts among l =
      took w m p xs (is.chain.1) counts among l (pop-cons fuel f l p is)

  module _ (gap end : ℕ) (cut : IsCut all gap end) where
    pub touches :
        (w : World) (m : Ptr → ℕ) (access : Access)
        → IsFree all fuel f w m
        → 1 ≤ count (target access) all
        → m (target access) ≡ 0
        → extent access ≤ gap
        → (s' : World) × (touch end w access ≡ some s') × IsFree all fuel f s' m
    touches w m access free own taken fits =
        let (g, eq, same) = touch-inside cut access (has_of_own (target access) all own) fits w in
        (
          record w { next = g },
          eq,
          record {
            blocks = free.blocks;
            stack = record {
              chain =
                  Chain-frame w.next g (w.heads f).ptr free.blocks
                    (λ x i.
                      same x
                        (has_of_own x all
                          (omega (arith, count_of_has x free.blocks i, free.among x)))
                        (λ at.
                          ground (arith, at, count_of_has x free.blocks i, free.counts x, taken)))
                    free.stack.chain;
              distinct = free.stack.distinct;
            };
            counts = free.counts;
            among = free.among;
            enough = free.enough;
          },
        )
      where
        has_of_own : (x : Ptr) (xs : List Ptr) → 1 ≤ count x xs → has x xs ≡ true
        has_of_own x xs h = ground (arith, h, count_of_not_has x xs)

    -- One freelist, used by one thread, keeps the contract of the workers, however often its
    -- compare-exchanges fail.
    unfoldable pub freelist-Contract : Contract (allocate fuel f) (release fuel f) (touch end)
    freelist-Contract = record {
      Free = IsFree all fuel f;
      Own = λ p. 1 ≤ count p all;
      room = gap;
      roomy = omega (arith, cut.wide);
      allocate_law =
          λ w m free. takes w m free.blocks free.stack free.counts free.among free.enough;
      release_law = λ w m p free o ne none_.
          gave w m p free.blocks free.counts free.among (omega (arith, none_, free.counts p)) o
            free.enough
            (push-cons fuel f free.enough p free.stack ne
              (has_of_count p free.blocks (omega (arith, none_, free.counts p))));
      touch_law = touches;
    }
