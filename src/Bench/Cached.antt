-- ===== src/Bench/Cached.antt =====
-- `ThreadLocalFreelistAllocator` keeps the contract of the workers, as one thread uses it.
use pool_memalloc.Common.{
  ℕ, true, ◌+◌, ◌^◌, ◌≤◌, ◌<◌, ◌≡◌, ◌≢◌, refl, sym, ◌∙◌, ◌⊎◌, inl, inr, Option, some, List, ◌∷◌,
  ◌++◌, length-append, ◌==◌, if◌then◌else◌, arith, length, ℕ_discrete,
}
use pool_memalloc.Heap.{Ptr, null, World, Run, pure, and_then}
use pool_memalloc.Heap.Returns.{Returns, returns}
use pool_memalloc.Heap.Count.{count, count_of_not_has, count-append, length-le_of_count}
use pool_memalloc.Cache.{ThreadCache}
use pool_memalloc.Cache.Spec.{Pools, pools, alloc_spec, dealloc_spec}
use pool_memalloc.Cache.Valid.{IsCache}
use pool_memalloc.Cache.Refill.{owned, Moved}
use pool_memalloc.Cache.Take.{Gave}
use pool_memalloc.Cache.Calls.{alloc-refines, dealloc-refines}
use pool_memalloc.Cache.Contract.{owned-alloc, owned-dealloc, no-null}
use pool_memalloc.TlFreelist
use pool_memalloc.TlFreelist.{get_cache}
use pool_memalloc.Bench.Contract.{Contract}
use pool_memalloc.Bench.TlFreelist.{
  State, Setting, allocated, released, allocate, release, touch, end_of,
}
use pool_memalloc.Bench.{Access, target, extent}
use pool_memalloc.Bench.Memory.{IsCut, touch-inside}
use pool_memalloc.Cache.Frame.{IsCache-next}
use pool_memalloc.Heap.Chain.{has}

module _ (e : Setting) (all : List Ptr) where
  -- The freelist and the thread's cache hold the free blocks, each of them one of `all`.
  pub record IsFree (s : State) (m : Ptr → ℕ) : Type 0 where
    pub lists : Pools
    pub cache : IsCache (s.0) (get_cache e.allocator (s.1)) lists
    pub counts : (x : Ptr) → m x ≡ owned lists x
    pub among : (x : Ptr) → owned lists x ≤ count x all
    pub enough : length (s.0).weak < e.fuel

  abbrev pub Own : Ptr → Type 0
  Own p = 1 ≤ count p all

  pub Allocated : (m : Ptr → ℕ) → Option (State × Ptr) → Type 0
  Allocated m r =
      (s' : State) × (p : Ptr) × (r ≡ some (s', p))
      × ((p ≡ null) × IsFree s' m
          ⊎ ((p ≢ null)
              × Own p
              × ((m' : Ptr → ℕ) × IsFree s' m'
                  × ((x : Ptr) → m' x + (if x == p then 1 else 0) ≡ m x))))

  pub Released : (m : Ptr → ℕ) → Ptr → Option State → Type 0
  Released m p r =
      (s' : State) × (r ≡ some s')
      × ((m' : Ptr → ℕ) × IsFree s' m' × ((x : Ptr) → m' x ≡ m x + (if x == p then 1 else 0)))

  took :
      {w : World} {c : ThreadCache} {p : Pools} {m : Ptr → ℕ} {r : Run (Ptr × ThreadCache)}
      → IsCache w c p
      → ((x : Ptr) → m x ≡ owned p x)
      → ((x : Ptr) → owned p x ≤ count x all)
      → length w.weak < e.fuel
      → Returns
          (λ out w'. Gave p (alloc_spec c.batch_size p).1 (alloc_spec c.batch_size p).0 w out w' c)
          r
      → Allocated m (allocated (and_then r (λ (q, c'). pure (q, some c'))))
  unfolding Allocated get_cache
  took {w} {c} {p} {m} is counts among l (returns {a = (q, c')} {w = w'} g) = (
    (w', some c'),
    q,
    refl,
    elim (ℕ_discrete q null) [
      | yes nil ↦ inl (nil, free m λ x. counts x ∙ same nil x)
      | no ne ↦ inr (
        ne,
        ground (arith, leaves q ne, among q),
        (owned left, free (owned left) (λ x. refl), λ x. leaves_all ne x ∙ sym (counts x)),
      )
    ],
  )
    where
      left : Pools
      left = (alloc_spec c.batch_size p).1

      leaves : (x : Ptr) → x ≢ null → owned left x + (if x == q then 1 else 0) ≡ owned p x
      leaves x ne = rw g.result (owned-alloc c.batch_size p x ne)

      none_left : (owned left null ≡ 0) × (owned p null ≡ 0)
      none_left = (no-null g.moved.cache, no-null is)

      same : q ≡ null → (x : Ptr) → owned p x ≡ owned left x
      same nil x = elim (ℕ_discrete x null) [
        | yes z ↦ rw z (omega (arith, none_left))
        | no ne ↦ ground (arith, leaves x ne, nil, ne)
      ]

      leaves_all : q ≢ null → (x : Ptr) → owned left x + (if x == q then 1 else 0) ≡ owned p x
      leaves_all ne x = elim (ℕ_discrete x null) [
        | yes z ↦ rw z (ground (arith, none_left, ne))
        | no real ↦ leaves x real
      ]

      free : (m' : Ptr → ℕ) → ((x : Ptr) → m' x ≡ owned left x) → IsFree (w', some c') m'
      free m' at = record {
        lists = left;
        cache = g.moved.cache;
        counts = at;
        among = λ x. elim (ℕ_discrete x null) [
          | yes z ↦ rw z (omega (arith, none_left))
          | no ne ↦ omega (arith, leaves x ne, among x)
        ];
        enough = omega (arith, l, g.moved.step.fewer);
      }

  gave :
      {w : World} {c : ThreadCache} {p : Pools} {m : Ptr → ℕ} {r : Run ThreadCache} (q : Ptr)
      → ((x : Ptr) → m x ≡ owned p x)
      → ((x : Ptr) → owned p x ≤ count x all)
      → Own q
      → owned p q ≡ 0
      → length w.weak < e.fuel
      → Returns
          (λ c' w'. Moved (pools p.global (q ∷ p.local)) (dealloc_spec c.batch_size q p) w c' w' c)
          r
      → Released m q (released (and_then r (λ c'. pure (some c'))))
  unfolding Released get_cache
  gave {w} {c} {p} {m} q counts among own fresh l (returns {a = c'} {w = w'} g) = (
    (w', some c'),
    refl,
    (
      owned (dealloc_spec c.batch_size q p),
      record {
        lists = dealloc_spec c.batch_size q p;
        cache = g.cache;
        counts = λ x. refl;
        among = λ x. elim (ℕ_discrete x q) [
          | yes here ↦ rw here (ground (arith, owned-dealloc c.batch_size q p q, fresh, own))
          | no off ↦ ground (arith, owned-dealloc c.batch_size q p x, among x, off)
        ];
        enough = omega (arith, l, g.step.fewer);
      },
      λ x. omega (arith, owned-dealloc c.batch_size q p x, counts x),
    ),
  )

  -- More rounds than the allocator has blocks, and not too many of them.
  pub record IsRoomy : Type 0 where
    pub rounds : length all + 2 < e.rounds
    pub small : length all + 1 < 2 ^ 63
    pub cut : IsCut all e.allocator.block_size (end_of e.allocator)

  module _ (roomy : IsRoomy) where
    total_le :
        (p : Pools)
        → ((x : Ptr) → owned p x ≤ count x all)
        → length p.global + length p.local ≤ length all
    total_le p among = omega (
      arith,
      length-append {0} p.global p.local,
      length-le_of_count (p.global ++ p.local) all
          λ x. omega (arith, among x, count-append x p.global p.local),
    )

    pub takes : (s : State) (m : Ptr → ℕ) → IsFree s m → Allocated m (allocate e s)
    unfolding TlFreelist.alloc
    takes (w, c) m free = took free.cache free.counts free.among free.enough (
        alloc-refines e.build e.rounds e.fuel (get_cache e.allocator c) w free.enough free.lists
          free.cache (omega (arith, total_le free.lists free.among, roomy.rounds)))

    pub gives :
        (s : State) (m : Ptr → ℕ) (q : Ptr)
        → IsFree s m
        → Own q
        → q ≢ null
        → m q ≡ 0
        → Released m q (release e s q)
    unfolding TlFreelist.dealloc
    gives (w, c) m q free own ne fresh =
        gave q free.counts free.among own (omega (arith, fresh, free.counts q)) free.enough (
          dealloc-refines e.build e.rounds e.fuel (get_cache e.allocator c) w free.enough free.lists
            q free.cache (omega (arith, total_le free.lists free.among, roomy.rounds)) ne
            (omega (arith, fresh, free.counts q))
            (omega (arith, total_le free.lists free.among, roomy.small)))

    pub touches :
        (s : State) (m : Ptr → ℕ) (access : Access)
        → IsFree s m
        → Own (target access)
        → m (target access) ≡ 0
        → extent access ≤ e.allocator.block_size
        → (s' : State) × (touch e s access ≡ some s') × IsFree s' m
    touches (w, c) m access free own taken fits =
        let (g, eq, same) =
          touch-inside roomy.cut access (has_of_own (target access) all own) fits w in
        (
          (record w { next = g }, c),
          rw (touch, eq) refl,
          record {
            lists = free.lists;
            cache = IsCache-next g free.cache (λ x held.
                same x (has_of_own x all (omega (arith, held, free.among x)))
                  (λ at. ground (arith, at, held, free.counts x, taken)));
            counts = free.counts;
            among = free.among;
            enough = free.enough;
          },
        )
      where
        has_of_own : (x : Ptr) (xs : List Ptr) → 1 ≤ count x xs → has x xs ≡ true
        has_of_own x xs h = ground (arith, h, count_of_not_has x xs)

    unfoldable pub cached-Contract : Contract (allocate e) (release e) (touch e)
    unfolding Allocated Released
    cached-Contract = record {
      Free = IsFree;
      Own = Own;
      room = e.allocator.block_size;
      roomy = omega (arith, roomy.cut.wide);
      allocate_law = takes;
      release_law = gives;
      touch_law = touches;
    }
