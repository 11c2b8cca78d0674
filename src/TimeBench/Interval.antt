-- ===== src/TimeBench/Interval.antt =====
-- What the record of a measurement says of the clocks that were read.
use network_testing.Common.{
  ℕ, refl, false, sub64, ◌==◌, ◌+◌, ◌-◌, ◌*◌, ◌/◌, ◌%◌, ◌^◌, ◌≤◌, ◌<◌, ◌≡◌, some, pos, arith,
}
use network_testing.Kernel.{Kernel, Timespec, Call, Proc, Run, after, done, ◌>>=◌}
use network_testing.TimeBench.{
  TimeBench, nanosec_per_sec, time_bench_start, time_bench_stop, time_bench_calc_stats,
}

unfoldable pub nanoseconds : Timespec → ℕ
nanoseconds t = t.sec * nanosec_per_sec + t.nsec

-- Start, and at a later point `u` of the process, when `n` packets have been counted, stop and
-- calculate.
unfoldable pub measure : Kernel → ℕ → TimeBench → Proc → Proc → Run TimeBench
measure K n r s u =
    (time_bench_start K r >>= λ r1 _.
    (time_bench_stop K (record r1 { packets = pos n }) >>= time_bench_calc_stats) u)
      s

abbrev pub after_stop : Proc → Proc
after_stop u = after Call.clock_gettime (after Call.rdtsc u)

-- A record with `n` packets whose counters stopped `span` nanoseconds and `cycles` cycles after the
-- start, modulo 2^64.
calc_stats-eq :
    (r : TimeBench) (s : Proc) (n span cycles : ℕ)
    → r.packets ≡ pos n
    → 0 < n
    → n < 2 ^ 31
    → sub64 r.time_stop r.time_start ≡ span
    → sub64 r.tsc_stop r.tsc_start ≡ cycles
    → (out : TimeBench) × (time_bench_calc_stats r s ≡ done out s)
      × (out.time_interval ≡ span)
      × (out.tsc_interval ≡ cycles)
      × (out.tsc_cycles ≡ cycles / n)
      × (out.payload_pktsz ≡ r.bytes / n)
unfolding time_bench_calc_stats
calc_stats-eq r s n span cycles e some_packets few time tsc =
    let word : n % 2 ^ 64 ≡ n = omega arith in
    let nonzero : (n == 0) ≡ false = ground arith in
    rw (time, tsc, e, word, nonzero) (_, refl, refl, refl, refl, refl)

module _ (K : Kernel) (a b : Timespec) (r : TimeBench) (s u : Proc)
    (started : K.clock s.tick ≡ some a) (stopped : K.clock (u.tick + 1) ≡ some b) where
  -- the record when the clocks have been read
  abbrev read_out : ℕ → TimeBench
  read_out n = record r {
    packets = pos n;
    time_start = nanoseconds a % 2 ^ 64;
    tsc_start = K.tsc (s.tick + 1);
    time_stop = nanoseconds b % 2 ^ 64;
    tsc_stop = K.tsc u.tick;
  }

  measure-calc : (n : ℕ) → measure K n r s u ≡ time_bench_calc_stats (read_out n) (after_stop u)
  unfolding measure nanoseconds time_bench_start time_bench_stop
  measure-calc n = rw (started, stopped) refl

  -- With at least one packet the record holds the nanoseconds and the cycles that passed, even if
  -- the counters wrapped around in between, and the cycles and the bytes per packet.
  pub measure-intervals :
      (n cycles : ℕ)
      → nanoseconds a ≤ nanoseconds b
      → nanoseconds b - nanoseconds a < 2 ^ 64
      → K.tsc u.tick ≡ (K.tsc (s.tick + 1) + cycles) % 2 ^ 64
      → K.tsc (s.tick + 1) < 2 ^ 64
      → cycles < 2 ^ 64
      → 0 < n
      → n < 2 ^ 31
      → (out : TimeBench) × (measure K n r s u ≡ done out (after_stop u))
        × (out.time_interval ≡ nanoseconds b - nanoseconds a)
        × (out.tsc_interval ≡ cycles)
        × (out.tsc_cycles ≡ cycles / n)
        × (out.payload_pktsz ≡ r.bytes / n)
  measure-intervals n cycles order span wrap tsc_word cycles_word some_packets few =
      rw (measure-calc n) (
        calc_stats-eq (read_out n) (after_stop u) n (nanoseconds b - nanoseconds a) cycles refl
          some_packets few (omega arith) (omega arith))
