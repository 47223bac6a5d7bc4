-- ===== src/Lib.antt =====
-- A verification of pool-memalloc, a library of fixed-size block allocators in C++.
--
-- The program. A bitmap allocator hands out the blocks of one region by atomic bits
-- (src/bitmap_allocator.cpp); a variant cuts the blocks into a region for each thread
-- (src/tl_bitmap_allocator.cpp). A lock-free stack with a tagged head keeps free blocks in a
-- list that runs through the blocks (src/freelist_allocator.cpp). In front of it each thread
-- has a cache that refills from it and flushes to it in batches
-- (src/tl_freelist_allocator.cpp), with counters and a double-free check behind two macros
-- (include/alloc_stats.hpp). A multi-size allocator has five such allocators
-- (src/multi_size_allocator.cpp), and a NUMA allocator one pool and one cache for each node
-- (src/numa_allocator.cpp, src/numa_utils.cpp). The programs in benchmark/ run workers over
-- each.
--
-- Which file models which part:
-- - Common: tests, lists, 64-bit words and their bits, families over threads; `align_up`.
-- - Bitmap: `BitmapAllocator`. The state is the record of its members; `alloc` and `dealloc`
--   are the functions of the same names, split at their loops (`probe_words`, `claim`,
--   `taken`). Threads has their accesses to memory as steps of any number of threads.
-- - TlBitmap: `ThreadLocalBitmapAllocator`. Its loops repeat those of Bitmap on a region;
--   AsBitmap relates the two, Build is about the constructor, and Threads says who has which
--   region.
-- - Heap: memory as the `next` of each address, the heads of the freelists, and commands over
--   them that may fault.
-- - Stats: the counters and the set of live pointers of one thread.
-- - Freelist: `FreelistAllocator`, with Stack for `push` and `pop`, Bulk and Batch for the
--   transfer of batches, and Threads for `push` and `pop` in any number of threads.
-- - Cache: `ThreadCache`; Spec is its abstract view, two lists of blocks, Calls relates the
--   two, Stock forgets their order, Builds compares the builds of alloc_stats.hpp, Settled is
--   about the fuel, and Ledger about the counters.
-- - TlFreelist: `ThreadLocalFreelistAllocator`; Carved and Life are about its constructor,
--   Shared and Process have several threads over one allocator.
-- - MultiSize: `MultiSizeAllocator`; Life and Setup are about its constructor, Classes about
--   its size classes.
-- - Numa: `NumaAllocator`; Globals, Life and Setup are about the constructor, Nodes, Fallback
--   and Return about the calls, and Utils has the queries of the operating system.
-- - Bench: benchmark/common.hpp and the workers, over the interface of Contract, which
--   Freelist, Bitmap and Cached fill; Memory is what their accesses do to linked blocks; Runs
--   and CachedRuns have whole programs; CommandLine has the parsing of the arguments; Bitmap,
--   TlFreelist and TlBitmap have the workers of the directories of these names; Queue is the
--   queue of producer_consumer.cpp.
--
-- Conventions. Addresses are numbers and 0 is `nullptr`. A `size_t` or `uint64_t` is a number
-- with the wrap-around written out. Memory from the operating system, `std::strtoull`, the
-- random draws and `std::shuffle` are parameters. Each address has its own `next`, which
-- describes blocks that are at least eight bytes apart: those of every constructor are, and the
-- theorems on bulk transfer ask for it. A write of a benchmark into a block goes byte by byte,
-- and has no result past the allocator's memory. A compare-exchange that meets what it expects
-- may still fail: in Bitmap the number of failures is an argument, in Heap the list `weak` in
-- the state says which fail.
--
-- Fuel. The loops of the freelist and the cache are recursions on fuel. One unit more than the
-- failures that are still to come is enough for a compare-exchange loop, and one more than the
-- length of a list for a walk along it; the theorems on these operations state it and conclude
-- that the operation returns.
--
-- What is not modelled. Threads run one call at a time, except in Bitmap.Threads,
-- Freelist.Threads and Bench.Queue, whose steps are single accesses that take effect one after
-- the other; weak memory orderings are left out. Prefetches do nothing. The functions `main` of
-- the benchmarks are left out, and so are malloc and mimalloc, which are not part of the
-- repository.
pub mod Common
pub mod Bitmap
pub mod TlBitmap
pub mod Heap
pub mod Stats
pub mod Freelist
pub mod Cache
pub mod TlFreelist
pub mod MultiSize
pub mod Numa
pub mod Bench
