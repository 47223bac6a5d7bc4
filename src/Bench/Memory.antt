-- ===== src/Bench/Memory.antt =====
-- What an access of a worker does to memory in which free blocks are linked. A `next` is eight bytes,
-- the lowest first. An access past the end of the allocator's memory is undefined behaviour; one past
-- the end of a block writes over the blocks behind it.
use pool_memalloc.Common.{
  ℕ, zero, suc, ◌+◌, ◌*◌, ◌/◌, ◌%◌, ◌≤◌, ◌<◌, ◌≡◌, ◌≢◌, ◌⊎◌, inl, inr, refl, true, false, Option,
  none, some, List, [], ◌∷◌, leb, ltb, ◌==◌, ◌&&◌, if◌then◌else◌, arith, ℕ_discrete,
}
use pool_memalloc.Heap.{Ptr, World}
use pool_memalloc.Heap.Chain.{has}
use pool_memalloc.Heap.Spaced.{Spaced}
use pool_memalloc.Bench.{Access, fill, bump, target, extent}

-- The byte at an address after the access.
abbrev pub byte_after : Access → (address byte : ℕ) → ℕ
byte_after (fill p byte count) a old = if leb p a && ltb a (p + count) then byte else old
byte_after (bump p) a old = if a == p then (old + 1) % 256 else old

-- A number of so many bytes from an address on.
unfoldable pub bytes_after : Access → (bytes address value : ℕ) → ℕ
bytes_after access zero a value = value
bytes_after access (suc bytes) a value =
    byte_after access a (value % 256) + 256 * bytes_after access bytes (a + 1) (value / 256)

-- `end` is where the allocator's memory ends.
unfoldable pub touch : (end : Ptr) → World → Access → Option World
unfolding bytes_after
touch end w access =
    if ltb end (target access + extent access)
    then none
    else some (record w { next = λ a. bytes_after access 8 a (w.next a) })

byte_after-outside :
    (access : Access) (a byte : ℕ)
    → (a < target access) ⊎ (target access + extent access ≤ a)
    → byte_after access a byte ≡ byte
byte_after-outside (fill p b count) a byte (inl h) = ground (arith, h)
byte_after-outside (fill p b count) a byte (inr h) = ground (arith, h)
byte_after-outside (bump p) a byte (inl h) = ground (arith, h)
byte_after-outside (bump p) a byte (inr h) = ground (arith, h)

bytes_after-outside :
    (access : Access) (bytes a value : ℕ)
    → (a + bytes ≤ target access) ⊎ (target access + extent access ≤ a)
    → bytes_after access bytes a value ≡ value
unfolding bytes_after
bytes_after-outside access zero a value h = refl
bytes_after-outside access (suc bytes) a value h = omega (
  arith,
  byte_after-outside access a (value % 256) (first h),
  bytes_after-outside access bytes (a + 1) (value / 256) (later h),
)
  where
    first :
        (a + suc bytes ≤ target access) ⊎ (target access + extent access ≤ a)
        → (a < target access) ⊎ (target access + extent access ≤ a)
    first (inl l) = inl (omega arith)
    first (inr l) = inr l

    later :
        (a + suc bytes ≤ target access) ⊎ (target access + extent access ≤ a)
        → (a + 1 + bytes ≤ target access) ⊎ (target access + extent access ≤ a + 1)
    later (inl l) = inl (omega arith)
    later (inr l) = inr (omega arith)

-- The blocks of an allocator: at least `gap` bytes for each, which end in the allocator's memory.
pub record IsCut (all : List Ptr) (gap : ℕ) (end : Ptr) : Type 0 where
  pub wide : 8 ≤ gap
  pub spaced : Spaced gap all
  pub ends : (p : Ptr) → has p all ≡ true → p + gap ≤ end

Spaced-two :
    (gap : ℕ) (all : List Ptr) (p q : Ptr)
    → Spaced gap all
    → has p all ≡ true
    → has q all ≡ true
    → p ≢ q
    → (p + gap ≤ q) ⊎ (q + gap ≤ p)
Spaced-two gap [] p q s hp hq ne = absurd (ground (arith, hp))
Spaced-two gap (x ∷ xs) p q (apart, s) hp hq ne = elim (ℕ_discrete p x) [
  | yes at ↦ elim (apart q (ground (arith, hq, at, ne))) [
    | inl l ↦ inl (omega (arith, l, at))
    | inr l ↦ inr (omega (arith, l, at))
  ]
  | no off ↦ elim (ℕ_discrete q x) [
    | yes at ↦ elim (apart p (ground (arith, hp, off))) [
      | inl l ↦ inr (omega (arith, l, at))
      | inr l ↦ inl (omega (arith, l, at))
    ]
    | no off' ↦ Spaced-two gap xs p q s (ground (arith, hp, off)) (ground (arith, hq, off')) ne
  ]
]

module _ {all : List Ptr} {gap : ℕ} {end : Ptr} (is : IsCut all gap end) (access : Access)
    (own : has (target access) all ≡ true) (fits : extent access ≤ gap) where
  -- An access that stays in a block leaves the links of all other blocks alone.
  pub touch-inside :
      (w : World)
      → (g : Ptr → Ptr) × (touch end w access ≡ some (record w { next = g }))
        × ((a : Ptr) → has a all ≡ true → a ≢ target access → g a ≡ w.next a)
  unfolding touch
  touch-inside w =
      let inside : ltb end (target access + extent access) ≡ false =
        ground (arith, is.ends (target access) own, fits) in
      (
        λ a. bytes_after access 8 a (w.next a),
        rw inside refl,
        λ a h ne.
            bytes_after-outside access 8 a (w.next a)
              (elim (Spaced-two gap all a (target access) is.spaced h own ne) [
                | inl l ↦ inl (omega (arith, l, is.wide))
                | inr l ↦ inr (omega (arith, l, fits))
              ]),
      )
