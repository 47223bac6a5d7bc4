-- ===== src/Bench/Tests.antt =====
-- The workers over a freelist of three blocks and over a bitmap of one word, the queue between two
-- threads, and a command line.
use Prim.Native.String.{String}
use pool_memalloc.Common.{
  ℕ, ◌≡◌, ◌≤◌, refl, true, Option, none, some, List, [], ◌∷◌, ◌++◌, ◌==◌, if◌then◌else◌, arith,
}
use pool_memalloc.Heap.{Ptr, null, tagged, World}
use pool_memalloc.Heap.Count.{count, count-append}
use pool_memalloc.Stats.{fresh_thread}
use pool_memalloc.Bench.{BenchmarkConfig, defaults, Worker, fill, random_free_worker}
use pool_memalloc.Bench.CommandLine.{parse_args, parse_loop, option_of}
use pool_memalloc.Bench.Memory.{IsCut, touch}
use pool_memalloc.Bench.Workers.{IsFinished}
use pool_memalloc.Bench.Programs.{random_free_worker-IsFinished}
use pool_memalloc.Bitmap.{BitmapAllocator, rounded_size, words_for}
use pool_memalloc.Bitmap.Valid.{IsValid}
use pool_memalloc.Bitmap.Life.{fresh-IsNew}
use pool_memalloc.Bench.Bitmap.{same_thread, alloc_burst, locality_walk, alloc_storm, random_free}
use pool_memalloc.Cache.Spec.{pools}
use pool_memalloc.Cache.Valid.{IsCache}
use pool_memalloc.TlFreelist.{get_cache}
use pool_memalloc.Bench.TlFreelist
use pool_memalloc.Bench.CachedRuns.{Refilled, programs-Refilled}
use pool_memalloc.Freelist.Stack.{IsStack}
use pool_memalloc.Bench.Runs.{Restored, programs-Restored}
use pool_memalloc.Bench.Queue.{
  State, produced, consumed, Reach, IsFifo, Reach-IsFifo, Reach-left_behind,
}
use pool_memalloc.Bench.Args.{render, IsSized, parse_args-render}
use pool_memalloc.Bench.Decimal.{digits, strtoull, strtoull-digits}
use pool_memalloc.Bench.Freelist.{allocate, release, IsFree, freelist-Contract}

abbrev listed : List Ptr
listed = 1024 ∷ 2048 ∷ 3072 ∷ []

abbrev three : World
three = record {
  next = λ a. if a == 1024 then 2048 else if a == 2048 then 3072 else 0;
  heads = λ f. tagged (if f == 0 then 1024 else 0) 7;
  weak = true ∷ [];
  local = fresh_thread;
}

abbrev free_at_start : Ptr → ℕ
free_at_start x = count x listed

listed-IsStack : IsStack three 0 listed
listed-IsStack = record {
  chain = (refl, omega arith, (refl, omega arith, (refl, omega arith, refl)));
  distinct = (refl, (refl, (refl, tt)));
}

-- Three blocks of 1024 bytes that end at 4096.
three-IsCut : IsCut listed 1024 4096
three-IsCut = record {
  wide = omega arith;
  spaced = (λ a h. ground (arith, h), (λ a h. ground (arith, h), (λ a h. ground (arith, h), tt)));
  ends = λ p h. ground (arith, h);
}

-- An access of 2048 bytes to the first block writes over the link of the second, and one to the last
-- block leaves the memory.
abbrev link_in : Option World → Ptr → ℕ
link_in none p = 0
link_in (some w) p = w.next p

overruns : link_in (touch 4096 three (fill 1024 255 2048)) 2048 ≡ 18446744073709551615
unfolding touch
overruns = refl

leaves_memory : touch 4096 three (fill 3072 255 2048) ≡ none
unfolding touch
leaves_memory = refl

three-IsFree : IsFree listed 2 0 three free_at_start
three-IsFree = record {
  blocks = listed;
  stack = listed-IsStack;
  counts = λ x. refl;
  among = λ x. omega arith;
  enough = omega arith;
}

free_once : (x : Ptr) → free_at_start x ≤ 1
free_once x = ground arith

-- Five requests, batches of two.
abbrev small : BenchmarkConfig
small = record { size = 1024; ops = 5; threads = 1; batch = 2; pool = 3 }

-- Every draw is 1024, the largest size.
abbrev largest : ℕ → ℕ
largest n = 6

-- A shuffle that turns the vector round.
abbrev turned : List Ptr → List Ptr
turned [] = []
turned (p ∷ ps) = turned ps ++ (p ∷ [])

count-turned : (ps : List Ptr) (x : Ptr) → count x (turned ps) ≡ count x ps
count-turned [] x = refl
count-turned (p ∷ ps) x = omega (arith, count-append x (turned ps) (p ∷ []), count-turned ps x)

random_free_on_freelist :
    (w : Worker World) × (random_free_worker
        (allocate 2 0)
        (release 2 0)
        (touch 4096)
        largest
        turned
        187
        small
        three
      ≡ some w)
    × IsFinished (freelist-Contract listed 2 0 1024 4096 three-IsCut) free_at_start free_once w
unfolding freelist-Contract
random_free_on_freelist =
    random_free_worker-IsFinished (freelist-Contract listed 2 0 1024 4096 three-IsCut) free_at_start
      free_once largest turned 187 small three count-turned (λ k. omega arith) three-IsFree

-- A new bitmap allocator of 64 blocks of 1024 bytes.
abbrev blocks : BitmapAllocator
blocks = record {
  block_size = 1024;
  block_count = 64;
  word_count = 1;
  memory = 4096;
  bitmap = 0 ∷ [];
  hint = 0;
}

blocks-IsValid : IsValid blocks
unfolding rounded_size words_for
blocks-IsValid =
    (fresh-IsNew (λ n alignment size. 4096) 1024 64 (omega arith) (omega arith)
      (record { given = omega arith; ends = omega arith })).valid

programs-Restored_example :
    Restored blocks-IsValid (same_thread 1 small blocks)
    × Restored blocks-IsValid (alloc_burst 1 small blocks)
    × Restored blocks-IsValid (locality_walk 1 small blocks)
    × Restored blocks-IsValid (alloc_storm 1 largest small blocks)
    × Restored blocks-IsValid (random_free 1 largest turned small blocks)
programs-Restored_example =
    programs-Restored blocks-IsValid 1 largest turned small count-turned (omega arith)
      (λ k. omega arith)

-- The three blocks in a thread-local freelist allocator with batches of one, and a thread that has no
-- cache yet.
abbrev setting : TlFreelist.Setting
setting = record {
  build = record { instrumentation = true; debug = true };
  rounds = 8;
  fuel = 4;
  allocator = record {
    global = 0;
    batch_size = 1;
    block_size = 1024;
    block_count = 3;
    region = 1024;
  };
}

three-IsCache : IsCache three (get_cache setting.allocator none) (pools listed [])
unfolding get_cache
three-IsCache = record {
  stack = listed-IsStack;
  chain = refl;
  size = refl;
  once = λ x. ground arith;
  bounded = omega arith;
  batch = omega arith;
  low = refl;
  high = refl;
}

programs-Refilled_example :
    Refilled setting (pools listed []) (TlFreelist.same_thread setting small (three, none))
    × Refilled setting (pools listed []) (TlFreelist.alloc_burst setting small (three, none))
    × Refilled setting (pools listed []) (TlFreelist.locality_walk setting small (three, none))
    × Refilled setting
        (pools listed [])
        (TlFreelist.alloc_storm setting largest small (three, none))
    × Refilled setting
        (pools listed [])
        (TlFreelist.random_free setting largest turned small (three, none))
programs-Refilled_example =
    programs-Refilled setting three none three-IsCache (omega arith) (omega arith) (omega arith)
      three-IsCut largest turned small count-turned (omega arith) (λ k. omega arith)

-- An allocator of one block, 64.
abbrev one_block : List Ptr → Option (List Ptr × Ptr)
one_block [] = some ([], null)
one_block (p ∷ ps) = some (ps, p)

abbrev put_back : List Ptr → Ptr → Option (List Ptr)
put_back ps p = some (p ∷ ps)

left_behind :
    (t : State (List Ptr)) × Reach one_block put_back 1 (64 ∷ []) t
    × (t.producer ≡ produced)
    × (t.consumer ≡ consumed)
    × (t.queue ≡ 64 ∷ [])
left_behind =
    Reach-left_behind one_block put_back {s = 64 ∷ []} {s' = []} {p = 64} refl (omega arith)

Reach-IsFifo_example : IsFifo one_block put_back (left_behind.0)
Reach-IsFifo_example = Reach-IsFifo one_block put_back (left_behind.1)

Reach-left_behind_example :
    (t : State (List Ptr)) × Reach one_block put_back 1 (64 ∷ []) t
    × (t.producer ≡ produced)
    × (t.consumer ≡ consumed)
    × (t.queue ≡ 64 ∷ [])
Reach-left_behind_example =
    Reach-left_behind one_block put_back {s = 64 ∷ []} {s' = []} {p = 64} refl (omega arith)

-- The largest `size_t` is among the members.
abbrev large : BenchmarkConfig
large = record { size = 64; ops = 18446744073709551615; threads = 10; batch = 0; pool = 307 }

large-IsSized : IsSized large
large-IsSized = record {
  size = omega arith;
  ops = omega arith;
  threads = omega arith;
  batch = omega arith;
  pool = omega arith;
}

too_large : strtoull "18446744073709551616" ≡ 18446744073709551615
unfolding strtoull
too_large = refl

parse_args-render_example : parse_args strtoull (render digits large) ≡ large
parse_args-render_example = parse_args-render strtoull digits strtoull-digits large large-IsSized

abbrev always : String → ℕ
always s = 5

read_back : parse_args always ("--ops" ∷ "7" ∷ "what" ∷ "--pool" ∷ []) ≡ record defaults { ops = 5 }
unfolding parse_args parse_loop option_of
read_back = refl
