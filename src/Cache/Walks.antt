-- ===== src/Cache/Walks.antt =====
-- The walks of the thread cache along a chain leave the counters alone.
use pool_memalloc.Common.{ℕ, zero, suc, ◌+◌, ◌^◌, ◌<◌, ◌≡◌, ltb, ◌==◌, arith}
use pool_memalloc.Common.Words.{u64}
use pool_memalloc.Heap.{Ptr, null, World, Cmd, ◌>>=◌}
use pool_memalloc.Heap.Ends
use pool_memalloc.Heap.Ends.{
  Ends, ended, cut_off, either, both, Returns-Ends, IsQuiet, pure-IsQuiet, stop-IsQuiet,
  bind-IsQuiet, if-IsQuiet, load_next-IsQuiet, set_next-IsQuiet,
}
use pool_memalloc.Cache.{last_block, batch_end}

-- A quiet command, and then one that is read against the same counters.
pub after :
    {A B : Type 0} {m : Cmd A} {Q : B → World → Type 0} {k : A → Cmd B}
    → IsQuiet m
    → (w : World) → ((a : A) (w1 : World) → w1.local ≡ w.local → Ends Q (k a w1))
    → Ends Q ((m >>= k) w)
after quiet w next = Ends.bind (quiet.run w) next

pub last_block-IsQuiet :
    (rounds : ℕ) (tail : Ptr) (count : ℕ) → IsQuiet (last_block rounds tail count)
unfolding last_block
last_block-IsQuiet zero tail count = stop-IsQuiet
last_block-IsQuiet (suc rounds) tail count = bind-IsQuiet (load_next-IsQuiet tail) λ next.
    if-IsQuiet (next == null) (pure-IsQuiet (tail, count))
      (last_block-IsQuiet rounds next (u64 (count + 1)))

pub batch_end-IsQuiet :
    (rounds excess : ℕ) (batch_tail : Ptr) (count : ℕ)
    → IsQuiet (batch_end rounds excess batch_tail count)
unfolding batch_end
batch_end-IsQuiet zero excess batch_tail count = stop-IsQuiet
batch_end-IsQuiet (suc rounds) excess batch_tail count =
    if-IsQuiet (ltb count excess)
      (bind-IsQuiet (load_next-IsQuiet batch_tail) λ next.
        if-IsQuiet (next == null) (pure-IsQuiet (batch_tail, count))
          (batch_end-IsQuiet rounds excess next (u64 (count + 1))))
      (pure-IsQuiet (batch_tail, count))

-- The count never leaves the range of `size_t`.
pub batch_end-count :
    (rounds excess : ℕ) (batch_tail : Ptr) (count : ℕ) (w : World)
    → count < 2 ^ 64
    → Ends (λ out w'. out.1 < 2 ^ 64) (batch_end rounds excess batch_tail count w)
unfolding batch_end
batch_end-count zero excess batch_tail count w h = cut_off
batch_end-count (suc rounds) excess batch_tail count w h =
    either _ _ w (ltb count excess)
      (λ _. after (load_next-IsQuiet batch_tail) w λ next w1 e.
        either _ _ w1 (next == null) (λ _. ended h)
          λ _. batch_end-count rounds excess next (u64 (count + 1)) w1 (omega arith))
      λ _. ended h
