-- ===== src/Bitmap/Threads/Tests.antt =====
-- Two threads over 64 blocks: one has claimed block 0 and returns it, the other scans.
use pool_memalloc.Common.{ℕ, zero, suc, ◌<◌, ◌≡◌, refl, true, false, [], ◌∷◌, arith}
use pool_memalloc.Common.Family.{update}
use pool_memalloc.Bitmap.{BitmapAllocator, rounded_size, words_for, find_free_bit, index_to_ptr}
use pool_memalloc.Bitmap.Valid.{allocated, allocated_in, IsValid}
use pool_memalloc.Bitmap.Life.{IsNew, fresh-IsNew}
use pool_memalloc.Bitmap.Dealloc.{address}
use pool_memalloc.Bitmap.Threads.{
  idle, System, begin_alloc, load_hint, load, swap, hand_out, Step, pick, start, Reach, here, later,
}
use pool_memalloc.Bitmap.Threads.Invariant.{owns}
use pool_memalloc.Bitmap.Threads.Safety.{view, Step-handed, Reach-quiet}

abbrev blocks : BitmapAllocator
blocks = record {
  block_size = 64;
  block_count = 64;
  word_count = 1;
  memory = 4096;
  bitmap = 0 ∷ [];
  hint = 0;
}

blocks-IsNew : IsNew 64 64 blocks
unfolding rounded_size words_for
blocks-IsNew =
    fresh-IsNew (λ n alignment size. 4096) 64 64 (omega arith) (omega arith)
      (record { given = omega arith; ends = omega arith })

abbrev Trace : Type 0
Trace = (s : System) × Reach blocks 2 s

abbrev step : (t : Trace) {s : System} → Step blocks 2 (t.0) s → Trace
step t {s} move = (s, later (t.1) move)

abbrev both_scan : Trace
both_scan =
    step
      (step
        (step (step (start blocks, here) (pick 0 (omega arith) begin_alloc))
          (pick 1 (omega arith) begin_alloc))
        (pick 0 (omega arith) load_hint))
      (pick 0 (omega arith) (load refl))

abbrev one_claims : Trace
one_claims = step both_scan (pick 0 (omega arith) (swap (omega arith) refl))

abbrev after_return : System
after_return = record {
  mem = record {
    bitmap = (one_claims.0).mem.bitmap;
    hint = 0;
    held = update (λ p. false) 4096 true;
  };
  pc = update (one_claims.0).pc 0 idle;
}

returns_block : Step blocks 2 (one_claims.0) after_return
unfolding find_free_bit index_to_ptr
returns_block = pick 0 (omega arith) (hand_out refl)

Step-handed_example :
    (j : ℕ) × (j < 64)
    × (4096 ≡ address blocks j)
    × (allocated_in after_return.mem.bitmap j ≡ true)
    × ((i : ℕ) → i < 2 → owns blocks j (after_return.pc i) ≡ 0)
Step-handed_example =
    Step-handed blocks-IsNew.valid blocks-IsNew.free 4096 (one_claims.1) returns_block refl refl

-- Thread 0 alone, through a whole call.
abbrev one_call : Trace
unfolding find_free_bit index_to_ptr
one_call =
    step
      (step
        (step
          (step (step (start blocks, here) (pick 0 (omega arith) begin_alloc))
            (pick 0 (omega arith) load_hint))
          (pick 0 (omega arith) (load refl)))
        (pick 0 (omega arith) (swap (omega arith) refl)))
      (pick 0 (omega arith) (hand_out refl))

all_idle : (i : ℕ) → i < 2 → (one_call.0).pc i ≡ idle
unfolding one_call
all_idle zero h = refl
all_idle (suc zero) h = refl
all_idle (suc (suc i)) h = absurd (omega arith)

Reach-quiet_example :
    IsValid (view blocks (one_call.0))
    × ((j : ℕ) → allocated (view blocks (one_call.0)) j ≡ (one_call.0).mem.held (address blocks j))
Reach-quiet_example = Reach-quiet blocks-IsNew.valid blocks-IsNew.free (one_call.1) all_idle

-- The program has block 0 then.
given : (one_call.0).mem.held 4096 ≡ true
unfolding one_call
given = refl
