-- ===== src/Examples/Latency.antt =====
-- cpu_dma_latency.c: a latency in microseconds, in force as long as the file is open.
pub mod Holding
use network_testing.Common.{ℕ, zero, suc, ◌==◌, true, false, Option, none, some, ℤ, pos, to_u32}
use network_testing.Kernel.{Kernel, ret, err, Call, M, pure, ask, ◌>>=◌, ◌>>◌, out_of_fuel}
use network_testing.Pktgen.{byte}

module _ (K : Kernel) where
  -- `while (1) sleep(10)`
  pub sleep_loop : ℕ → M ℕ
  sleep_loop zero = out_of_fuel
  sleep_loop (suc fuel) = do _ ← ask K.rc (Call.sleep 10); sleep_loop fuel

  -- `v` is the number in the one argument, or `none` if there is not exactly one. `open` is told
  -- O_WRONLY, which is 1; /dev/cpu_dma_latency is the only file.
  unfoldable pub latency_main : ℕ → Option ℤ → M ℕ
  unfolding sleep_loop
  latency_main fuel none = pure 2
  latency_main fuel (some v) = do
    file ← ask K.rc (Call.open_file 1)
    elim file [
      | err _ ↦ pure 1
      | ret fd ↦ do
        res ← ask K.rc (Call.write fd (byte (to_u32 v)) (pos 4))
        elim res [
          | err _ ↦ pure 1
          | ret n ↦ elim (n == 4) [ true ↦ sleep_loop fuel | false ↦ pure 1 ]
        ]
    ]
