-- ===== src/TimeBench.antt =====
-- common.c: the clocks and the record of a measurement.
pub mod Interval
pub mod Clock
pub mod TimeFunc
mod Tests
use network_testing.Common.{
  ℕ, suc, ◌+◌, ◌*◌, ◌/◌, ◌%◌, ◌^◌, Bool, true, false, ◌==◌, if◌then◌else◌, Option, none, some, ℤ,
  pos, negsuc, to_u64, sub64, signed32,
}
use network_testing.Kernel.{
  Kernel, Rc, ret, err, Mem, ProcFile, missing, empty, garbled, holds, Call, M, pure, exit, crash,
  ask, ◌>>=◌, ◌>>◌, exit_fail_mem, exit_fail_time, exit_fail_fileaccess,
}

abbrev pub nanosec_per_sec : ℕ
nanosec_per_sec = 1_000_000_000

-- A `double` stands as the operations that make it: nothing is claimed of their rounding.
pub data Double : Type 0 where
  of_int : ℤ → Double
  quotient : Double → Double → Double
  plus : Double → Double → Double

-- `struct time_bench_record`
pub record TimeBench : Type 0 where
  pub packets : ℤ
  pub bytes : ℕ
  pub tsc_start : ℕ
  pub tsc_stop : ℕ
  pub time_start : ℕ
  pub time_stop : ℕ
  pub try_again : ℕ
  pub tsc_interval : ℕ
  pub time_interval : ℕ
  pub tsc_cycles : ℕ
  pub payload_pktsz : ℕ
  pub pps : Double
  pub ns_per_pkt : Double
  pub timesec : Double
  pub ip_early_demux : ℤ

-- the record after `memset(r, 0, sizeof(*r))`
abbrev pub zeroed : TimeBench
zeroed = record {
  packets = pos 0;
  bytes = 0;
  tsc_start = 0;
  tsc_stop = 0;
  time_start = 0;
  time_stop = 0;
  try_again = 0;
  tsc_interval = 0;
  time_interval = 0;
  tsc_cycles = 0;
  payload_pktsz = 0;
  pps = of_int (pos 0);
  ns_per_pkt = of_int (pos 0);
  timesec = of_int (pos 0);
  ip_early_demux = pos 0;
}

-- The divisions by `r->packets` are of `uint64_t`: they trap if it is 0.
unfoldable pub time_bench_calc_stats : TimeBench → M TimeBench
time_bench_calc_stats r =
    let tsc_interval = sub64 r.tsc_stop r.tsc_start in
    let time_interval = sub64 r.time_stop r.time_start in
    let seconds = quotient (of_int (pos time_interval)) (of_int (pos nanosec_per_sec)) in
    let packets = to_u64 r.packets in
    if packets == 0
    then crash
    else pure (record r {
      tsc_interval = tsc_interval;
      time_interval = time_interval;
      pps = quotient (of_int r.packets) seconds;
      tsc_cycles = tsc_interval / packets;
      ns_per_pkt = quotient (of_int (pos time_interval)) (of_int r.packets);
      timesec = seconds;
      payload_pktsz = r.bytes / packets;
    })

module _ (K : Kernel) where
  -- `CLOCK_MONOTONIC` in nanoseconds
  unfoldable pub gettime : M ℕ
  gettime = do
    got ← ask K.clock Call.clock_gettime
    elim got [
      | some t ↦ pure ((t.sec * nanosec_per_sec + t.nsec) % 2 ^ 64)
      | none ↦ exit exit_fail_time
    ]

  abbrev pub rdtsc : M ℕ
  rdtsc = ask K.tsc Call.rdtsc

  unfoldable pub time_bench_start : TimeBench → M TimeBench
  unfolding gettime
  time_bench_start r = do t ← gettime; c ← rdtsc; pure (record r { time_start = t; tsc_start = c })

  unfoldable pub time_bench_stop : TimeBench → M TimeBench
  unfolding gettime
  time_bench_stop r = do c ← rdtsc; t ← gettime; pure (record r { tsc_stop = c; time_stop = t })

  -- The buffer is zeroed, so every address of it holds 0.
  unfoldable pub malloc_payload_buffer : ℤ → M Mem
  malloc_payload_buffer msg_sz = do
    got ← ask K.alloc Call.malloc
    if got then pure (λ _. 0) else exit exit_fail_mem

  -- A file that cannot be opened counts as 0. `%u` is read into an `int`.
  unfoldable pub read_ip_early_demux : M ℤ
  read_ip_early_demux = do
    f ← ask K.proc_file Call.read_proc
    elim f [
      | missing ↦ pure (pos 0)
      | empty ↦ exit exit_fail_fileaccess
      | garbled ↦ exit exit_fail_fileaccess
      | holds n ↦ pure (signed32 (n % 2 ^ 32))
    ]

  unfoldable pub time_bench_record_setting : TimeBench → M TimeBench
  unfolding read_ip_early_demux
  time_bench_record_setting r = do
    v ← read_ip_early_demux
    pure (record zeroed { ip_early_demux = v })
