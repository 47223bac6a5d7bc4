-- ===== src/Bench/CommandLine.antt =====
-- The command line and the line of the result, as benchmark/common.hpp has them.
use Prim.Native.String.{String, compare}
use text.Mathlib.Text.{is_eq}
use pool_memalloc.Common.{ℕ, Bool, Option, none, some, List, [], ◌∷◌, if◌then◌else◌}
use pool_memalloc.Common.Words.{u64}
use pool_memalloc.Bench.{BenchmarkConfig, defaults}

-- The member that an option names.
pub data Field : Type 0 where
  cfg_size : Field
  cfg_ops : Field
  cfg_threads : Field
  cfg_batch : Field
  cfg_pool : Field

abbrev pub same_text : String → String → Bool
same_text s t = is_eq (compare s t)

unfoldable pub option_of : String → Option Field
option_of arg =
    if same_text arg "--size"
    then some cfg_size
    else if same_text arg "--ops"
    then some cfg_ops
    else if same_text arg "--threads"
    then some cfg_threads
    else if same_text arg "--batch"
    then some cfg_batch
    else if same_text arg "--pool"
    then some cfg_pool
    else none

abbrev pub set_field : Field → ℕ → BenchmarkConfig → BenchmarkConfig
set_field cfg_size n cfg = record cfg { size = n }
set_field cfg_ops n cfg = record cfg { ops = n }
set_field cfg_threads n cfg = record cfg { threads = n }
set_field cfg_batch n cfg = record cfg { batch = n }
set_field cfg_pool n cfg = record cfg { pool = n }

-- The loop of `parse_args`, over the arguments that are left; `next` skips the value that it takes,
-- and a `size_t` holds it. `strtoull` is `std::strtoull` in base 10.
unfoldable pub parse_loop :
    (strtoull : String → ℕ) → List String → BenchmarkConfig → BenchmarkConfig
unfolding option_of
parse_loop strtoull [] cfg = cfg
parse_loop strtoull (arg ∷ []) cfg = cfg
parse_loop strtoull (arg ∷ value ∷ rest) cfg = elim (option_of arg) [
  | none ↦ parse_loop strtoull (value ∷ rest) cfg
  | some f ↦ parse_loop strtoull rest (set_field f (u64 (strtoull value)) cfg)
]

-- `args` leaves out the name of the program.
unfoldable pub parse_args : (strtoull : String → ℕ) → (args : List String) → BenchmarkConfig
unfolding parse_loop
parse_args strtoull args = parse_loop strtoull args defaults

-- What goes to `std::cout`, `shown n` being the digits of `n` and `ms` the time that has passed.
unfoldable pub print_result :
    (shown : ℕ → String) → String → BenchmarkConfig → (ms : ℕ) → List String
print_result shown name cfg ms =
    name
    ∷ " | size="
    ∷ shown cfg.size
    ∷ " | threads="
    ∷ shown cfg.threads
    ∷ " | ops="
    ∷ shown cfg.ops
    ∷ " | batch="
    ∷ shown cfg.batch
    ∷ " | "
    ∷ shown ms
    ∷ " ms\n"
    ∷ []
