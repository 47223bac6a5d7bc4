-- ===== src/Heap/Ends.antt =====
-- Partial correctness of a command: what holds if it returns. Commands that leave the running
-- thread's own state alone are quiet.
use pool_memalloc.Common.{
  ℕ, ◌≡◌, refl, ◌∙◌, Bool, true, false, List, [], ◌∷◌, ◌==◌, if◌then◌else◌, Bool-cases, inl, inr,
}
use pool_memalloc.Heap.{
  Ptr, null, TaggedPtr, tagged_eq, World, Run, ok, fault, out_of_fuel, Cmd, and_then, pure, ◌>>=◌,
  load_next, set_next, load_head, compare_exchange_weak,
}
use pool_memalloc.Heap.Returns.{Returns, returns}

pub data Ends {A : Type 0} (P : A → World → Type 0) : Run A → Type 0 where
  ended : {a : A} {w : World} → P a w → Ends P (ok a w)
  faulted : Ends P fault
  cut_off : Ends P out_of_fuel

module _ {A : Type 0} {P : A → World → Type 0} where
  pub bind :
      {B : Type 0} {Q : B → World → Type 0} {r : Run A} {k : A → Cmd B}
      → Ends P r
      → ((a : A) (w : World) → P a w → Ends Q (k a w))
      → Ends Q (and_then r k)
  bind (ended p) next = next _ _ p
  bind faulted next = faulted
  bind cut_off next = cut_off

  -- Both branches of a test.
  pub either :
      (m n : Cmd A) (w : World) (c : Bool)
      → (c ≡ true → Ends P (m w))
      → (c ≡ false → Ends P (n w))
      → Ends P ((if c then m else n) w)
  either m n w true yes_ no_ = yes_ refl
  either m n w false yes_ no_ = no_ refl

  pub weaken :
      {Q : A → World → Type 0} {r : Run A}
      → Ends P r
      → ((a : A) (w : World) → P a w → Q a w)
      → Ends Q r
  weaken (ended p) imp = ended (imp _ _ p)
  weaken faulted imp = faulted
  weaken cut_off imp = cut_off

  pub both :
      {Q : A → World → Type 0} {r : Run A} → Ends P r → Ends Q r → Ends (λ a w. P a w × Q a w) r
  both (ended p) (ended q) = ended (p, q)
  both faulted faulted = faulted
  both cut_off cut_off = cut_off

  -- A command that returns ends as it has to.
  pub Returns-Ends : {Q : A → World → Type 0} {r : Run A} → Returns Q r → Ends P r → Returns P r
  Returns-Ends (returns q) (ended p) = returns p

pub record IsQuiet {A : Type 0} (m : Cmd A) : Type 0 where
  pub run : (w : World) → Ends (λ a w'. w'.local ≡ w.local) (m w)

module _ {A : Type 0} where
  pub pure-IsQuiet : (a : A) → IsQuiet (pure a)
  pure-IsQuiet a = record { run = λ w. ended refl }

  pub stop-IsQuiet : IsQuiet {A = A} (λ w. out_of_fuel)
  stop-IsQuiet = record { run = λ w. cut_off }

  pub bind-IsQuiet :
      {B : Type 0} {m : Cmd A} {k : A → Cmd B}
      → IsQuiet m
      → ((a : A) → IsQuiet (k a))
      → IsQuiet (m >>= k)
  bind-IsQuiet first rest = record {
    run = λ w. bind (first.run w) λ a w1 e. weaken ((rest a).run w1) λ b w2 e'. e' ∙ e;
  }

  pub if-IsQuiet : {m n : Cmd A} (c : Bool) → IsQuiet m → IsQuiet n → IsQuiet (if c then m else n)
  if-IsQuiet true yes_ no_ = yes_
  if-IsQuiet false yes_ no_ = no_

pub load_next-IsQuiet : (p : Ptr) → IsQuiet (load_next p)
unfolding load_next
load_next-IsQuiet p = record {
  run = λ w. elim (Bool-cases (p == null)) [
    | inl nil ↦ rw nil faulted
    | inr real ↦ rw real (ended refl)
  ];
}

pub set_next-IsQuiet : (p q : Ptr) → IsQuiet (set_next p q)
unfolding set_next
set_next-IsQuiet p q = record {
  run = λ w. elim (Bool-cases (p == null)) [
    | inl nil ↦ rw nil faulted
    | inr real ↦ rw real (ended refl)
  ];
}

pub load_head-IsQuiet : (f : ℕ) → IsQuiet (load_head f)
load_head-IsQuiet f = record { run = λ w. ended refl }

module _ (f : ℕ) (expected desired : TaggedPtr) where
  met :
      (w : World) (weak : List Bool)
      → tagged_eq (w.heads f) expected ≡ true
      → Ends
          (λ a w'. w'.local ≡ w.local)
          (compare_exchange_weak f expected desired (record w { weak = weak }))
  unfolding compare_exchange_weak
  met w [] e = rw e (ended refl)
  met w (true ∷ rest) e = rw e (ended refl)
  met w (false ∷ rest) e = rw e (ended refl)

  pub compare_exchange_weak-IsQuiet : IsQuiet (compare_exchange_weak f expected desired)
  unfolding compare_exchange_weak
  compare_exchange_weak-IsQuiet = record {
    run = λ w. elim (Bool-cases (tagged_eq (w.heads f) expected)) [
      | inl e ↦ met w w.weak e
      | inr e ↦ rw e (ended refl)
    ];
  }
