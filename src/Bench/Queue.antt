-- ===== src/Bench/Queue.antt =====
-- The program producer_consumer.cpp of benchmark/freelist, and of the other allocators alike: a thread that
-- takes blocks and puts them into a queue, and one that gives them back. A step is one call of the
-- allocator, one access to the queue under its lock, or one access to the flag `done`; what the
-- producer writes into a block is left out.
use pool_memalloc.Common.{
  ℕ, suc, ◌≡◌, ◌≢◌, refl, sym, ap, ◌∙◌, Bool, true, false, Option, none, some, List, [], ◌∷◌, ◌++◌,
  arith,
}
use pool_memalloc.Heap.{Ptr, null}

-- `Queue::push` and `Queue::pop`.
unfoldable pub push : Ptr → List Ptr → List Ptr
push p q = q ++ (p ∷ [])

unfoldable pub pop : List Ptr → Option (Ptr × List Ptr)
pop [] = none
pop (p ∷ q) = some (p, q)

pub data Producer : Type 0 where
  producing : (left : ℕ) → Producer  -- head of the loop, with so many passes left
  holding : (p : Ptr) → (left : ℕ) → Producer  -- before the call of `queue_.push`
  produced : Producer

pub data Consumer : Type 0 where
  polling : Consumer
  freeing : (p : Ptr) → Consumer
  checking : Consumer  -- the queue was empty, and `done` is about to be read
  consumed : Consumer

-- `sent` and `received` list what went into the queue and what came out, the first first; no code
-- reads them.
pub record State (S : Type 0) : Type 0 where
  pub allocator : S
  pub queue : List Ptr
  pub done : Bool
  pub producer : Producer
  pub consumer : Consumer
  pub sent : List Ptr
  pub received : List Ptr

module _ {S : Type 0} (allocate : S → Option (S × Ptr)) (release : S → Ptr → Option S) where
  pub data Step (t : State S) : State S → Type 0 where
    skip :
        {s : S} {left : ℕ}
        → t.producer ≡ producing (suc left)
        → allocate t.allocator ≡ some (s, null)
        → Step t (record t { allocator = s; producer = producing left })
    take :
        {s : S} {p : Ptr} {left : ℕ}
        → t.producer ≡ producing (suc left)
        → allocate t.allocator ≡ some (s, p)
        → p ≢ null
        → Step t (record t { allocator = s; producer = holding p left })
    send :
        {p : Ptr} {left : ℕ}
        → t.producer ≡ holding p left
        → Step t (record t {
          queue = push p t.queue;
          producer = producing left;
          sent = t.sent ++ (p ∷ []);
        })
    finish : t.producer ≡ producing 0 → Step t (record t { done = true; producer = produced })
    receive :
        {p : Ptr} {q : List Ptr}
        → t.consumer ≡ polling
        → pop t.queue ≡ some (p, q)
        → Step t (record t { queue = q; consumer = freeing p; received = t.received ++ (p ∷ []) })
    miss : t.consumer ≡ polling → pop t.queue ≡ none → Step t (record t { consumer = checking })
    give :
        {p : Ptr} {s : S}
        → t.consumer ≡ freeing p
        → release t.allocator p ≡ some s
        → Step t (record t { allocator = s; consumer = polling })
    again : t.consumer ≡ checking → t.done ≡ false → Step t (record t { consumer = polling })
    stop : t.consumer ≡ checking → t.done ≡ true → Step t (record t { consumer = consumed })

  abbrev pub start : (ops : ℕ) → S → State S
  start ops s = record {
    allocator = s;
    queue = [];
    done = false;
    producer = producing ops;
    consumer = polling;
    sent = [];
    received = [];
  }

  pub data Reach (ops : ℕ) (s : S) : State S → Type 0 where
    here : Reach ops s (start ops s)
    later : {t u : State S} → Reach ops s t → Step t u → Reach ops s u

  -- What has come out of the queue and what is in it is what has gone in, in order; the flag is set
  -- once the producer has ended.
  pub record IsFifo (t : State S) : Type 0 where
    pub order : t.sent ≡ t.received ++ t.queue
    pub flag : t.done ≡ true → t.producer ≡ produced

  append_assoc : (xs ys zs : List Ptr) → (xs ++ ys) ++ zs ≡ xs ++ (ys ++ zs)
  append_assoc [] ys zs = refl
  append_assoc (x ∷ xs) ys zs = ap (λ (l : List Ptr). x ∷ l) (append_assoc xs ys zs)

  not_produced : (a : Producer) (d : Bool) → (d ≡ true → a ≡ produced) → a ≢ produced → d ≡ false
  not_produced a true h ne = absurd (ne (h refl))
  not_produced a false h ne = refl

  pop_cons : (queue : List Ptr) {p : Ptr} {q : List Ptr} → pop queue ≡ some (p, q) → queue ≡ p ∷ q
  unfolding pop
  pop_cons [] e = absurd (ground (arith, e))
  pop_cons (x ∷ xs) e = ground (arith, e)

  step-IsFifo : {t u : State S} → IsFifo t → Step t u → IsFifo u
  unfolding push
  step-IsFifo {t} is (skip at e) = record {
    order = is.order;
    flag = λ d. absurd (ground (arith, is.flag d, at));
  }
  step-IsFifo {t} is (take at e ne) = record {
    order = is.order;
    flag = λ d. absurd (ground (arith, is.flag d, at));
  }
  step-IsFifo {t} is (send {p} at) = record {
    order =
        ap (λ (l : List Ptr). l ++ (p ∷ [])) is.order ∙ append_assoc t.received t.queue (p ∷ []);
    flag = λ d. absurd (ground (arith, is.flag d, at));
  }
  step-IsFifo is (finish at) = record { order = is.order; flag = λ d. refl }
  step-IsFifo {t} is (receive {p} {q} at e) = record {
    order =
        is.order
        ∙ ap (λ (l : List Ptr). t.received ++ l) (pop_cons t.queue e)
        ∙ sym (append_assoc t.received (p ∷ []) q);
    flag = is.flag;
  }
  step-IsFifo is (miss at e) = record { order = is.order; flag = is.flag }
  step-IsFifo is (give at e) = record { order = is.order; flag = is.flag }
  step-IsFifo is (again at e) = record { order = is.order; flag = is.flag }
  step-IsFifo is (stop at e) = record { order = is.order; flag = is.flag }

  -- However the two threads' steps mix, every block that was sent was received or is in the queue,
  -- once and in order, and the flag is set only when the producer has ended.
  pub Reach-IsFifo : {ops : ℕ} {s : S} {t : State S} → Reach ops s t → IsFifo t
  Reach-IsFifo here = record { order = refl; flag = λ d. absurd (ground (arith, d)) }
  Reach-IsFifo (later r step) = step-IsFifo (Reach-IsFifo r) step

  -- The consumer may end with a block in the queue: it finds the queue empty, the producer sends its
  -- last block and sets the flag, and the consumer reads the flag. If the allocator gives a block at
  -- all, the program can end so, and that block never goes back.
  pub Reach-left_behind :
      {s s' : S} {p : Ptr}
      → allocate s ≡ some (s', p)
      → p ≢ null
      → (t : State S) × Reach 1 s t
        × (t.producer ≡ produced)
        × (t.consumer ≡ consumed)
        × (t.queue ≡ p ∷ [])
  unfolding push pop
  Reach-left_behind {s} {s'} {p} e ne = (
    _,
    later
        (later (later (later (later here (miss refl refl)) (take refl e ne)) (send refl))
          (finish refl))
        (stop refl refl),
    refl,
    refl,
    refl,
  )
