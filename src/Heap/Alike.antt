-- ===== src/Heap/Alike.antt =====
-- Commands that do the same to memory, whatever the counters and the set of live pointers of the
-- running thread hold, where the first has fuel enough.
use pool_memalloc.Common.{
  ℕ, ◌≡◌, Bool, true, false, List, [], ◌∷◌, ◌==◌, if◌then◌else◌, Bool-cases, inl, inr,
}
use pool_memalloc.Heap.{
  Ptr, null, TaggedPtr, tagged_eq, ThreadStats, World, Run, ok, fault, out_of_fuel, Cmd, and_then,
  pure, ◌>>=◌, load_next, set_next, load_head, compare_exchange_weak,
}

-- The same result, in worlds that differ in the thread's own state alone, unless the first has run
-- out of fuel.
pub data Alike {A : Type 0} : Run A → Run A → Type 0 where
  agree : {a : A} {w : World} (t : ThreadStats) → Alike (ok a w) (ok a (record w { local = t }))
  faults : Alike fault fault
  stops : {r : Run A} → Alike out_of_fuel r

-- From worlds that differ so, two commands have such results.
pub record Blind {A : Type 0} (m n : Cmd A) : Type 0 where
  pub run : (w : World) (t : ThreadStats) → Alike (m w) (n (record w { local = t }))

module _ {A : Type 0} where
  pub pure-Blind : (a : A) → Blind (pure a) (pure a)
  pure-Blind a = record { run = λ w t. agree t }

  pub stop-Blind : {n : Cmd A} → Blind (λ w. out_of_fuel) n
  stop-Blind = record { run = λ w t. stops }

  pub bind-Blind :
      {B : Type 0} {m n : Cmd A} {k l : A → Cmd B}
      → Blind m n
      → ((a : A) → Blind (k a) (l a))
      → Blind (m >>= k) (n >>= l)
  bind-Blind {B} {m} {n} {k} {l} first rest = record { run = λ w t. go (first.run w t) }
    where
      go : {r s : Run A} → Alike r s → Alike (and_then r k) (and_then s l)
      go (agree {a} {w} t) = (rest a).run w t
      go faults = faults
      go stops = stops

  pub if-Blind :
      {m m' n n' : Cmd A} (c : Bool)
      → Blind m m'
      → Blind n n'
      → Blind (if c then m else n) (if c then m' else n')
  if-Blind true yes_ no_ = yes_
  if-Blind false yes_ no_ = no_

pub load_next-Blind : (p : Ptr) → Blind (load_next p) (load_next p)
unfolding load_next
load_next-Blind p = record {
  run = λ w t. elim (Bool-cases (p == null)) [
    | inl nil ↦ rw nil faults
    | inr real ↦ rw real (agree t)
  ];
}

pub set_next-Blind : (p q : Ptr) → Blind (set_next p q) (set_next p q)
unfolding set_next
set_next-Blind p q = record {
  run = λ w t. elim (Bool-cases (p == null)) [
    | inl nil ↦ rw nil faults
    | inr real ↦ rw real (agree t)
  ];
}

pub load_head-Blind : (f : ℕ) → Blind (load_head f) (load_head f)
load_head-Blind f = record { run = λ w t. agree t }

module _ (f : ℕ) (expected desired : TaggedPtr) where
  met :
      (w : World) (weak : List Bool) (t : ThreadStats)
      → tagged_eq (w.heads f) expected ≡ true
      → Alike
          (compare_exchange_weak f expected desired (record w { weak = weak }))
          (compare_exchange_weak f expected desired (record w { weak = weak; local = t }))
  unfolding compare_exchange_weak
  met w [] t e = rw e (agree t)
  met w (true ∷ rest) t e = rw e (agree t)
  met w (false ∷ rest) t e = rw e (agree t)

  pub compare_exchange_weak-Blind :
      Blind (compare_exchange_weak f expected desired) (compare_exchange_weak f expected desired)
  unfolding compare_exchange_weak
  compare_exchange_weak-Blind = record {
    run = λ w t. elim (Bool-cases (tagged_eq (w.heads f) expected)) [
      | inl e ↦ met w w.weak t e
      | inr e ↦ rw e (agree t)
    ];
  }
