-- ===== src/Freelist.antt =====
-- src/freelist_allocator.cpp and include/freelist_allocator.hpp, as one thread runs them: the
-- lock-free stack with a tagged head, and the transfer of whole batches under `bulk_lock`, which a
-- thread that runs alone always gets. Each loop of the source is a recursion on fuel; `fuel` bounds
-- the rounds of a compare-exchange loop and `rounds` those of a walk along a chain.
pub mod Cas
pub mod Stack
pub mod Bulk
pub mod Batch
pub mod Blind
pub mod Quiet
pub mod Threads
mod Tests
use pool_memalloc.Common.{ℕ, zero, suc, ◌+◌, ◌-◌, ◌%◌, ◌^◌, ◌==◌, if◌then◌else◌}
use pool_memalloc.Common.Words.{u64}
use pool_memalloc.Heap.{
  Ptr, null, TaggedPtr, tagged, World, ok, out_of_fuel, Cmd, pure, ◌>>=◌, ◌>>◌, load_next, set_next,
  load_head, compare_exchange_weak, update,
}

-- The constructor of freelist `f`.
unfoldable pub construct : ℕ → Cmd (Unit {0})
construct f w = ok tt (record w { heads = update w.heads f (tagged null 0) })

-- The `do … while` loop of `push`.
unfoldable pub push_loop : (fuel : ℕ) → ℕ → Ptr → Cmd (Unit {0})
push_loop zero f node = λ w. out_of_fuel
push_loop (suc fuel) f node = do
  old_head ← load_head f
  set_next node old_head.ptr
  done ← compare_exchange_weak f old_head (tagged node (u64 (old_head.tag + 1)))
  if done then pure tt else push_loop fuel f node

unfoldable pub push : (fuel : ℕ) → ℕ → Ptr → Cmd (Unit {0})
unfolding push_loop
push fuel f ptr = push_loop fuel f ptr

-- The `do … while` loop of `pop`. The prefetch reads `old_head.ptr->next`, and so does the
-- argument of the compare-exchange.
unfoldable pub pop_loop : (fuel : ℕ) → ℕ → Cmd Ptr
pop_loop zero f = λ w. out_of_fuel
pop_loop (suc fuel) f = do
  old_head ← load_head f
  if old_head.ptr == null then pure null else do
    _ ← load_next old_head.ptr
    next ← load_next old_head.ptr
    done ← compare_exchange_weak f old_head (tagged next (u64 (old_head.tag + 1)))
    if done then pure old_head.ptr else pop_loop fuel f

unfoldable pub pop : (fuel : ℕ) → ℕ → Cmd Ptr
unfolding pop_loop
pop fuel f = pop_loop fuel f

-- The `while (node)` loop of `push_bulk`.
unfoldable pub push_all : (rounds fuel : ℕ) → ℕ → Ptr → Cmd (Unit {0})
push_all zero fuel f node = λ w. out_of_fuel
push_all (suc rounds) fuel f node =
    if node == null
    then pure tt
    else do next ← load_next node; push fuel f node; push_all rounds fuel f next

unfoldable pub push_bulk : (rounds fuel : ℕ) → ℕ → (batch_head batch_tail : Ptr) → Cmd (Unit {0})
unfolding push_all
push_bulk rounds fuel f batch_head batch_tail = do
  set_next batch_tail null
  push_all rounds fuel f batch_head

-- The `while (count < n)` loop of `pop_bulk`, `more` rounds of it left, and the
-- `tail->next = nullptr` behind it.
unfoldable pub pop_more : (more fuel : ℕ) → ℕ → (tail : Ptr) → Cmd (Unit {0})
pop_more zero fuel f tail = set_next tail null
pop_more (suc more) fuel f tail = do
  next ← pop fuel f
  if next == null then set_next tail null else do set_next tail next; pop_more more fuel f next

-- `count` starts at 1, so the loop makes `n - 1` rounds at most, and none where `n` is 0.
unfoldable pub pop_bulk : (fuel : ℕ) → ℕ → (n : ℕ) → Cmd Ptr
unfolding pop_more
pop_bulk fuel f n = do
  start ← pop fuel f
  if start == null then pure null else do pop_more (n - 1) fuel f start; pure start
