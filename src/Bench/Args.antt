-- ===== src/Bench/Args.antt =====
-- `parse_args` of benchmark/common.hpp on a command line that names every option.
use Prim.Native.String.{String}
use pool_memalloc.Common.Words.{u64}
use pool_memalloc.Common.{ℕ, ◌^◌, ◌<◌, ◌≡◌, refl, arith, none, List, [], ◌∷◌}
use pool_memalloc.Bench.{BenchmarkConfig}
use pool_memalloc.Bench.CommandLine.{option_of, parse_loop, parse_args}

-- The options in the order of the members, `digits n` being the text of `n`.
abbrev pub render : (digits : ℕ → String) → BenchmarkConfig → List String
render digits cfg =
    "--size"
    ∷ digits cfg.size
    ∷ "--ops"
    ∷ digits cfg.ops
    ∷ "--threads"
    ∷ digits cfg.threads
    ∷ "--batch"
    ∷ digits cfg.batch
    ∷ "--pool"
    ∷ digits cfg.pool
    ∷ []

-- Every member is a `size_t`.
pub record IsSized (cfg : BenchmarkConfig) : Type 0 where
  pub size : cfg.size < 2 ^ 64
  pub ops : cfg.ops < 2 ^ 64
  pub threads : cfg.threads < 2 ^ 64
  pub batch : cfg.batch < 2 ^ 64
  pub pool : cfg.pool < 2 ^ 64

-- If `std::strtoull` reads back the digits of each number below `2 ^ 64`, `parse_args` reads back a
-- configuration of such numbers that is written out option by option.
pub parse_args-render :
    (strtoull : String → ℕ) (digits : ℕ → String)
    → ((n : ℕ) → n < 2 ^ 64 → strtoull (digits n) ≡ n)
    → (cfg : BenchmarkConfig) → IsSized cfg
    → parse_args strtoull (render digits cfg) ≡ cfg
unfolding parse_args parse_loop option_of
parse_args-render strtoull digits reads cfg is =
    rw (held cfg.size is.size, held cfg.ops is.ops, held cfg.threads is.threads)
      (rw (held cfg.batch is.batch, held cfg.pool is.pool) refl)
  where
    held : (n : ℕ) → n < 2 ^ 64 → u64 (strtoull (digits n)) ≡ n
    held n h = omega (arith, reads n h)

-- Arguments that are no options are passed over.
pub parse_loop-skip :
    (strtoull : String → ℕ) (arg : String) (rest : List String) (cfg : BenchmarkConfig)
    → option_of arg ≡ none
    → parse_loop strtoull (arg ∷ rest) cfg ≡ parse_loop strtoull rest cfg
unfolding parse_loop
parse_loop-skip strtoull arg [] cfg e = refl
parse_loop-skip strtoull arg (value ∷ rest) cfg e = rw (parse_loop, e) refl
