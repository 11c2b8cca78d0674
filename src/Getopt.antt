-- ===== src/Getopt.antt =====
-- What the `main` functions have in common: the results of `getopt_long`, and flag words.
use network_testing.Common.{ℕ, Bool, ◌+◌, ◌/◌, ◌%◌, ◌==◌, if◌then◌else◌, Option, none, some, ℤ, pos}
use network_testing.Kernel.{M, pure}

-- `flags & bit` and `flags | bit`, for one bit
abbrev pub has_flag : ℕ → ℕ → Bool
has_flag flags bit = flags / bit % 2 == 1

abbrev pub set_flag : ℕ → ℕ → ℕ
set_flag flags bit = if has_flag flags bit then flags else flags + bit

-- `optarg ? atoi(optarg) : 1`
abbrev pub optarg_or_1 : Option ℤ → ℤ
optarg_or_1 none = pos 1
optarg_or_1 (some n) = n

-- `verbose` is a global variable of the process.
abbrev pub set_verbose : {A : Type 0} → ℤ → A → M A
set_verbose v a t = pure a (record t { verbose = v })
