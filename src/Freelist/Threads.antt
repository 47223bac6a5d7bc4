-- ===== src/Freelist/Threads.antt =====
-- `push` and `pop` of src/freelist_allocator.cpp in any number of threads at once. A move is one
-- access to shared memory: a load of the head, the write of `node->next`, the read of
-- `old_head.ptr->next`, a compare-exchange that succeeds or fails. Accesses take effect one after
-- the other. A block that was popped belongs to the program, which may write anything into it.
pub mod Invariant
pub mod Change
pub mod Moves
pub mod Safety
mod Tests
use pool_memalloc.Common.{ℕ, suc, ◌+◌, ◌%◌, ◌^◌, ◌<◌, ◌≡◌, ◌≢◌, Bool, true, false}
use pool_memalloc.Common.Words.{u64}
use pool_memalloc.Common.Family.{update}
use pool_memalloc.Heap.{Ptr, null, TaggedPtr, tagged}

-- What the threads share: memory, the head, which blocks the program holds, and how many
-- compare-exchanges have succeeded, which no code reads.
pub record Shared : Type 0 where
  pub next : Ptr → Ptr
  pub head : TaggedPtr
  pub held : Ptr → Bool
  pub swaps : ℕ

-- Where a thread stands, with its local variables.
pub data Pc : Type 0 where
  idle : Pc
  pushing : (node : Ptr) → Pc  -- head of the loop of `push`
  loaded : (node : Ptr) → (old_head : TaggedPtr) → Pc  -- before the write of `node->next`
  linked : (node : Ptr) → (old_head : TaggedPtr) → Pc  -- before the compare-exchange of `push`
  popping : Pc  -- head of the loop of `pop`
  seen : (old_head : TaggedPtr) → Pc  -- before the read of `old_head.ptr->next`
  peeked : (old_head : TaggedPtr) → (next : Ptr) → Pc  -- before the compare-exchange of `pop`

-- A failed compare-exchange has no premise: it may fail for no reason.
pub data Move (m : Shared) : Pc → Shared → Pc → Type 0 where
  begin_push :
      (node : Ptr)
      → m.held node ≡ true
      → Move m idle (record m { held = update m.held node false }) (pushing node)
  load_push : {node : Ptr} → Move m (pushing node) m (loaded node m.head)
  link :
      {node : Ptr} {old : TaggedPtr}
      → Move m (loaded node old) (record m { next = update m.next node old.ptr }) (linked node old)
  swap_push :
      {node : Ptr} {old : TaggedPtr}
      → m.head ≡ old
      → Move m
          (linked node old)
          (record m { head = tagged node (u64 (old.tag + 1)); swaps = suc m.swaps })
          idle
  fail_push : {node : Ptr} {old : TaggedPtr} → Move m (linked node old) m (pushing node)
  begin_pop : Move m idle m popping
  load_pop : m.head.ptr ≢ null → Move m popping m (seen m.head)
  empty : m.head.ptr ≡ null → Move m popping m idle
  peek : {old : TaggedPtr} → Move m (seen old) m (peeked old (m.next old.ptr))
  swap_pop :
      {old : TaggedPtr} {next : Ptr}
      → m.head ≡ old
      → Move m
          (peeked old next)
          (record m {
            head = tagged next (u64 (old.tag + 1));
            held = update m.held old.ptr true;
            swaps = suc m.swaps;
          })
          idle
  fail_pop : {old : TaggedPtr} {next : Ptr} → Move m (peeked old next) m popping
  -- The program writes into a block that it holds.
  scribble :
      {p : Pc} (block value : Ptr)
      → m.held block ≡ true
      → Move m p (record m { next = update m.next block value }) p

pub record System : Type 0 where
  pub mem : Shared
  pub pc : ℕ → Pc

-- One of the `n` threads moves.
pub data Step (n : ℕ) (s : System) : System → Type 0 where
  pick :
      (i : ℕ) {m : Shared} {p : Pc}
      → i < n
      → Move s.mem (s.pc i) m p
      → Step n s (record { mem = m; pc = update s.pc i p })

-- The constructor leaves an empty freelist; the program holds `blocks`, which memory says nothing of.
abbrev pub start : (Ptr → Ptr) → (Ptr → Bool) → System
start next blocks = record {
  mem = record { next = next; head = tagged null 0; held = blocks; swaps = 0 };
  pc = λ _. Pc.idle;
}

pub data Reach (n : ℕ) (next : Ptr → Ptr) (blocks : Ptr → Bool) : System → Type 0 where
  here : Reach n next blocks (start next blocks)
  later : {s t : System} → Reach n next blocks s → Step n s t → Reach n next blocks t
