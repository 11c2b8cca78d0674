-- ===== src/Examples/Burn.antt =====
-- burn_cpu.c: a loop without end.
use network_testing.Common.{ℕ, zero, suc, List, [], ◌∷◌, ◌≡◌, refl}
use network_testing.Kernel.{M, Proc, pure, done, out_of_fuel, exit_fail_option}

-- The results of `getopt_long`: `h` and `?`.
pub data BurnOpt : Type 0 where
  burn_help burn_unknown : BurnOpt

-- `for (;;) { }`
unfoldable pub burn_cpu : ℕ → M ℕ
burn_cpu zero = out_of_fuel
burn_cpu (suc fuel) = burn_cpu fuel

-- `main`, and the exit code.
unfoldable pub burn_main : ℕ → List BurnOpt → M ℕ
burn_main fuel [] = burn_cpu fuel
burn_main fuel (burn_help ∷ opts) = pure exit_fail_option
burn_main fuel (burn_unknown ∷ opts) = pure exit_fail_option

burn_cpu-burns : (fuel : ℕ) (s : Proc) → burn_cpu fuel s ≡ out_of_fuel s
unfolding burn_cpu
burn_cpu-burns zero s = refl
burn_cpu-burns (suc fuel) s = burn_cpu-burns fuel s

-- Any option ends it by `usage`; without one it is busy after any number of rounds, and has made no
-- call.
pub burn_main-ends :
    (fuel : ℕ) (opts : List BurnOpt) (s : Proc)
    → burn_main fuel opts s ≡ elim opts [ [] ↦ out_of_fuel s | _ ∷ _ ↦ done exit_fail_option s ]
unfolding burn_main
burn_main-ends fuel [] s = burn_cpu-burns fuel s
burn_main-ends fuel (burn_help ∷ opts) s = refl
burn_main-ends fuel (burn_unknown ∷ opts) s = refl
