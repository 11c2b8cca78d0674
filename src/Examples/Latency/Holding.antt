-- ===== src/Examples/Latency/Holding.antt =====
-- cpu_dma_latency.c: the file stays open until the program is killed.
use network_testing.Common.{ℕ, zero, suc, ◌+◌, ◌≡◌, refl, pos, some, ℤ, to_u32}
use network_testing.Kernel.{Kernel, ret, Call, Proc, after, out_of_fuel}
use network_testing.Kernel.Laws.{after_calls}
use network_testing.Pktgen.{byte}
use network_testing.Examples.Latency.{sleep_loop, latency_main}

module _ (K : Kernel) where
  sleep_loop-sleeps :
      (fuel : ℕ) (s : Proc) → sleep_loop K fuel s ≡ out_of_fuel (after_calls (Call.sleep 10) fuel s)
  unfolding sleep_loop after_calls
  sleep_loop-sleeps zero s = refl
  sleep_loop-sleeps (suc fuel) s = sleep_loop-sleeps fuel (after (Call.sleep 10) s)

  -- Where the file can be opened and takes four bytes, the program writes the latency there and
  -- sleeps from then on, and never closes it: it does not end, whatever the rounds.
  pub latency_main-sleeps :
      (fuel : ℕ) (v : ℤ) (fd : ℕ) (s : Proc)
      → K.rc s.tick ≡ ret fd
      → K.rc (s.tick + 1) ≡ ret 4
      → latency_main K fuel (some v) s
        ≡ out_of_fuel (
            after_calls
              (Call.sleep 10)
              fuel
              (after (Call.write fd (byte (to_u32 v)) (pos 4)) (after (Call.open_file 1) s)))
  unfolding latency_main
  latency_main-sleeps fuel v fd s opened written =
      rw (latency_main, opened, written) (sleep_loop-sleeps fuel _)
