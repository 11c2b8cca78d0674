-- ===== src/TimeBench/Clock.antt =====
-- The steps of a measurement where the clock works.
use network_testing.Common.{
  ℕ, ◌+◌, ◌<◌, ◌%◌, ◌^◌, ◌≡◌, refl, false, ◌==◌, some, ℤ, pos, signed32, ◌⊎◌, inl, inr, arith,
}
use network_testing.Kernel.{Kernel, Timespec, missing, holds, Call, Proc, done, after}
use network_testing.TimeBench.{
  TimeBench, zeroed, time_bench_record_setting, read_ip_early_demux, time_bench_start,
  time_bench_stop, time_bench_calc_stats,
}

-- The clock never fails.
pub record IsWorking (K : Kernel) : Type 0 where
  pub clock : (i : ℕ) → (a : Timespec) × (K.clock i ≡ some a)

-- The file with the demux setting is missing or holds a number.
pub record HasSetting (K : Kernel) : Type 0 where
  pub proc_file : (i : ℕ) → (K.proc_file i ≡ missing) ⊎ ((n : ℕ) × (K.proc_file i ≡ holds n))

pub calc_stats-some :
    (r : TimeBench) (n : ℕ) (s : Proc)
    → r.packets ≡ pos n
    → 0 < n
    → n < 2 ^ 31
    → (out : TimeBench) × (time_bench_calc_stats r s ≡ done out s)
      × (out.packets ≡ r.packets)
      × (out.bytes ≡ r.bytes)
unfolding time_bench_calc_stats
calc_stats-some r n s e some_packets few =
    let word : n % 2 ^ 64 ≡ n = omega arith in
    let nonzero : (n == 0) ≡ false = ground arith in rw (e, word, nonzero) (_, refl, refl, refl)

pub record_setting-done :
    (K : Kernel)
    → HasSetting K
    → (r : TimeBench) (s : Proc)
    → (v : ℤ) × (time_bench_record_setting K r s
        ≡ done (record zeroed { ip_early_demux = v }) (after Call.read_proc s))
unfolding time_bench_record_setting read_ip_early_demux
record_setting-done K setting r s = elim (setting.proc_file s.tick) [
  | inl e ↦ (pos 0, rw e refl)
  | inr (n, e) ↦ (signed32 (n % 2 ^ 32), rw e refl)
]

module _ (K : Kernel) (working : IsWorking K) where
  pub start-done :
      (r : TimeBench) (s : Proc)
      → (r' : TimeBench) × (time_bench_start K r s
          ≡ done r' (after Call.rdtsc (after Call.clock_gettime s)))
        × (r'.try_again ≡ r.try_again)
  unfolding time_bench_start
  start-done r s = let (a, e) = working.clock s.tick in rw e (_, refl, refl)

  pub stop-done :
      (r : TimeBench) (s : Proc)
      → (r' : TimeBench) × (time_bench_stop K r s
          ≡ done r' (after Call.clock_gettime (after Call.rdtsc s)))
        × (r'.bytes ≡ r.bytes)
  unfolding time_bench_stop
  stop-done r s = let (a, e) = working.clock (s.tick + 1) in rw e (_, refl, refl)
