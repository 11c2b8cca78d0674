-- ===== src/TimeBench/TimeFunc.antt =====
-- common.c: `time_func`, which measures a function that reads the clocks itself.
use network_testing.Common.{ℕ, ◌/◌, ◌==◌, if◌then◌else◌, ℤ, pos, to_u64, sub64}
use network_testing.Kernel.{M, pure, crash, ◌>>=◌}
use network_testing.TimeBench.{Double, of_int, quotient, nanosec_per_sec}

-- What the measured function stores through its pointers, and the number of loops it returns.
pub record Measured : Type 0 where
  pub tsc_begin : ℕ
  pub tsc_end : ℕ
  pub time_begin : ℕ
  pub time_end : ℕ
  pub loops_cnt : ℤ

-- What `time_func` prints.
pub record Report : Type 0 where
  pub tsc_interval : ℕ
  pub tsc_cycles : ℕ
  pub ns_per_call : Double
  pub calls_per_sec : Double
  pub timesec : Double

-- `time_func`. The cycles are divided by the loops as a `uint64_t`, which traps if there were none.
unfoldable pub time_func : ℤ → (ℤ → M Measured) → M Report
time_func loops func = do
  m ← func loops
  let tsc_interval = sub64 m.tsc_end m.tsc_begin
  let time_interval = sub64 m.time_end m.time_begin
  let seconds = quotient (of_int (pos time_interval)) (of_int (pos nanosec_per_sec))
  if to_u64 m.loops_cnt == 0
      then crash
      else pure (record {
        tsc_interval = tsc_interval;
        tsc_cycles = tsc_interval / to_u64 m.loops_cnt;
        ns_per_call = quotient (of_int (pos time_interval)) (of_int m.loops_cnt);
        calls_per_sec = quotient (of_int m.loops_cnt) seconds;
        timesec = seconds;
      })
