-- ===== src/Cache.antt =====
-- `ThreadCache` of src/tl_freelist_allocator.cpp: a private list of blocks in front of a shared
-- freelist, which it refills from and flushes to in batches. `global` is the number of that freelist.
-- `rounds` bounds the walks along a chain, `fuel` the rounds of a compare-exchange loop.
pub mod Spec
pub mod Valid
pub mod Refill
pub mod Flush
pub mod Take
pub mod Calls
pub mod Contract
pub mod Frame
pub mod Builds
pub mod Settled
pub mod Stock
pub mod Walks
pub mod Ledger
mod Tests
use pool_memalloc.Common.{
  ℕ, zero, suc, ◌+◌, ◌-◌, ◌*◌, ◌/◌, ◌%◌, ◌^◌, Bool, true, false, ◌||◌, ltb, leb, ◌==◌,
  if◌then◌else◌,
}
use pool_memalloc.Common.Words.{u64, sub64}
use pool_memalloc.Heap.{Ptr, null, World, out_of_fuel, Cmd, pure, ◌>>=◌, ◌>>◌, load_next, set_next}
use pool_memalloc.Freelist.{pop_bulk, push_bulk}
use pool_memalloc.Stats.{
  Build, alloc_stat, inc_allocs, inc_deallocs, add_refill, add_flush, alloc_debug_on_alloc,
  alloc_debug_on_dealloc,
}

pub record ThreadCache : Type 0 where
  pub local_head : Ptr
  pub local_size : ℕ
  pub batch_size : ℕ
  pub low_watermark : ℕ
  pub high_watermark : ℕ
  pub global : ℕ

unfoldable pub new_cache : (global_alloc batch : ℕ) → ThreadCache
new_cache global_alloc batch = record {
  local_head = null;
  local_size = 0;
  batch_size = batch;
  low_watermark = batch / 2;
  high_watermark = u64 (batch * 2);
  global = global_alloc;
}

-- `while (tail->next)` of `refill`: the last block of the batch, and how many there are.
unfoldable pub last_block : (rounds : ℕ) → (tail : Ptr) → (count : ℕ) → Cmd (Ptr × ℕ)
last_block zero tail count = λ w. out_of_fuel
last_block (suc rounds) tail count = do
  next ← load_next tail
  if next == null then pure (tail, count) else last_block rounds next (u64 (count + 1))

-- `refill` from the test of `batch` on.
unfoldable pub refill_rest : Build → (rounds : ℕ) → ThreadCache → (batch : Ptr) → Cmd ThreadCache
refill_rest b rounds c batch = if batch == null then pure c else do
  (tail, count) ← last_block rounds batch 1
  set_next tail c.local_head
  alloc_stat b (add_refill count)
  pure (record c { local_head = batch; local_size = u64 (c.local_size + count) })

unfoldable pub refill : Build → (rounds fuel : ℕ) → ThreadCache → Cmd ThreadCache
refill b rounds fuel c = do
  batch ← pop_bulk fuel c.global c.batch_size
  refill_rest b rounds c batch

-- `while (count < excess && batch_tail->next)` of `flush`.
unfoldable pub batch_end : (rounds excess : ℕ) → (batch_tail : Ptr) → (count : ℕ) → Cmd (Ptr × ℕ)
batch_end zero excess batch_tail count = λ w. out_of_fuel
batch_end (suc rounds) excess batch_tail count =
    if ltb count excess
    then (do
      next ← load_next batch_tail
      if next == null
          then pure (batch_tail, count)
          else batch_end rounds excess next (u64 (count + 1)))
    else pure (batch_tail, count)

unfoldable pub flush : Build → (rounds fuel excess : ℕ) → ThreadCache → Cmd ThreadCache
flush b rounds fuel excess c = if (c.local_head == null) || (excess == 0) then pure c else do
  (batch_tail, count) ← batch_end rounds excess c.local_head 1
  rest ← load_next batch_tail
  set_next batch_tail null
  push_bulk rounds fuel c.global c.local_head batch_tail
  alloc_stat b (add_flush count)
  pure (record c { local_head = rest; local_size = sub64 c.local_size count })

-- `alloc` from the test of `local_head` on.
unfoldable pub take_block : Build → ThreadCache → Cmd (Ptr × ThreadCache)
take_block b c = if c.local_head == null then pure (null, c) else do
  next ← load_next c.local_head
  alloc_stat b inc_allocs
  alloc_debug_on_alloc b c.local_head
  pure (c.local_head, record c { local_head = next; local_size = sub64 c.local_size 1 })

unfoldable pub alloc : Build → (rounds fuel : ℕ) → ThreadCache → Cmd (Ptr × ThreadCache)
unfolding take_block
alloc b rounds fuel c =
    if leb c.local_size c.low_watermark
    then (do c' ← refill b rounds fuel c; take_block b c')
    else take_block b c

unfoldable pub dealloc : Build → (rounds fuel : ℕ) → ThreadCache → Ptr → Cmd ThreadCache
dealloc b rounds fuel c ptr = if ptr == null then pure c else do
  alloc_stat b inc_deallocs
  _ ← alloc_debug_on_dealloc b ptr
  set_next ptr c.local_head
  let c' = record c { local_head = ptr; local_size = u64 (c.local_size + 1) }
  if ltb c'.high_watermark c'.local_size
      then flush b rounds fuel (sub64 c'.local_size c'.batch_size) c'
      else pure c'
