-- ===== src/Heap.antt =====
-- The memory that the freelist allocators share, and commands over it. `struct FreeBlock` of
-- include/freelist_allocator.hpp has one member, `next`, so memory is the `next` of each address,
-- which describes blocks that are at least eight bytes apart; address 0 is `nullptr`. The freelists
-- are told apart by a number that stands for `this`. The thread-local counters of
-- include/alloc_stats.hpp stand beside them, for the thread that runs.
pub mod Access
pub mod Returns
pub mod Count
pub mod Last
pub mod Chain
pub mod Spaced
pub mod Alike
pub mod Ends
pub use pool_memalloc.Common.Family.{update}
use pool_memalloc.Common.{ℕ, ◌+◌, Bool, true, false, ◌&&◌, List, [], ◌∷◌, ◌==◌, if◌then◌else◌}

abbrev pub Ptr : Type 0
Ptr = ℕ

abbrev pub null : Ptr
null = 0

-- `struct TaggedPtr`; the tag is a `uint64_t`.
pub record TaggedPtr : Type 0 where
  pub ptr : Ptr
  pub tag : ℕ

abbrev pub tagged : Ptr → ℕ → TaggedPtr
tagged p t = record { ptr = p; tag = t }

-- `operator==`
abbrev pub tagged_eq : TaggedPtr → TaggedPtr → Bool
tagged_eq a b = (a.ptr == b.ptr) && (a.tag == b.tag)

-- `struct AllocStats`
pub record AllocStats : Type 0 where
  pub allocs : ℕ
  pub deallocs : ℕ
  pub refills : ℕ
  pub flushes : ℕ
  pub refill_blocks : ℕ
  pub flush_blocks : ℕ

-- What the macros of alloc_stats.hpp keep for one thread: the counters, the live pointers, and how
-- many lines `alloc_debug_on_dealloc` has written.
pub record ThreadStats : Type 0 where
  pub stats : AllocStats
  pub live : List Ptr
  pub reports : ℕ

-- `weak` says of the next compare-exchanges whether they fail though they meet what they expect;
-- past its end none does.
pub record World : Type 0 where
  pub next : Ptr → Ptr
  pub heads : ℕ → TaggedPtr
  pub weak : List Bool
  pub local : ThreadStats

pub data Run {ℓ} (A : Type ℓ) : Type ℓ where
  ok : A → World → Run A
  fault : Run A
  out_of_fuel : Run A

abbrev pub Cmd : Type 0 → Type 0
Cmd A = World → Run A

abbrev pub pure : {A : Type 0} → A → Cmd A
pure = ok

module _ {A B : Type 0} where
  abbrev pub and_then : Run A → (A → Cmd B) → Run B
  and_then (ok a w) k = k a w
  and_then fault k = fault
  and_then out_of_fuel k = out_of_fuel

  infixl 5 ◌>>=◌ ◌>>◌
  abbrev pub ◌>>=◌ : Cmd A → (A → Cmd B) → Cmd B
  m >>= k = λ w. and_then (m w) k

  abbrev pub ◌>>◌ : Cmd A → Cmd B → Cmd B
  m >> n = m >>= λ _. n

-- `p->next`, a fault at `nullptr`.
unfoldable pub load_next : Ptr → Cmd Ptr
load_next p w = if p == null then fault else ok (w.next p) w

-- `p->next = q`
unfoldable pub set_next : Ptr → Ptr → Cmd (Unit {0})
set_next p q w = if p == null then fault else ok tt (record w { next = update w.next p q })

-- `head.load()` of freelist `f`.
abbrev pub load_head : ℕ → Cmd TaggedPtr
load_head f w = ok (w.heads f) w

-- `head.compare_exchange_weak(expected, desired)` of freelist `f`.
unfoldable pub compare_exchange_weak : ℕ → TaggedPtr → TaggedPtr → Cmd Bool
compare_exchange_weak f expected desired w =
    if tagged_eq (w.heads f) expected
    then elim w.weak [
      | [] ↦ ok true (record w { heads = update w.heads f desired; weak = [] })
      | true ∷ rest ↦ ok false (record w { weak = rest })
      | false ∷ rest ↦ ok true (record w { heads = update w.heads f desired; weak = rest })
    ]
    else ok false w
