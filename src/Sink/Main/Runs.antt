-- ===== src/Sink/Main/Runs.antt =====
-- What `time_function` of udp_sink.c leaves behind.
use network_testing.Common.{
  ℕ, zero, suc, ◌+◌, ◌^◌, ◌≤◌, ◌<◌, ◌≡◌, refl, ap, ◌⊎◌, inl, inr, true, false, pos, pos_part,
  is_nonzero, arith,
}
use network_testing.Kernel.{Kernel, ret, Sockaddr, Call, Proc, done, after, af_inet, af_inet6}
use network_testing.TimeBench.{TimeBench, zeroed}
use network_testing.TimeBench.Clock.{
  IsWorking, HasSetting, record_setting-done, start-done, stop-done, calc_stats-some,
}
use network_testing.Sink.Params.{SinkParams, Sink, init_stats}
use network_testing.Sink.Check.Setup.{settings}
use network_testing.Sink.Main.{SinkFunc, test_run, test_runs, accept_source, time_function}

-- With the settings of `p` and a fresh record, from the call `from` on, the receive function ends
-- with the number of at least one packet and changes no setting.
pub record Receives (func : SinkFunc) (fd from : ℕ) (p : SinkParams) : Type 0 where
  pub run :
      (k : Sink) (r : TimeBench) (s : Proc)
      → settings k.p ≡ settings p
      → r.try_again ≡ 0
      → from ≤ s.tick
      → (n : ℕ) × (r' : TimeBench) × (k' : Sink) × (t : Proc) × (func fd k r s
          ≡ done ((pos n, r'), k') t)
        × (0 < n)
        × (n < 2 ^ 31)
        × (settings k'.p ≡ settings p)
        × (from ≤ t.tick)

pub accept_source-done :
    (K : Kernel) (fd : ℕ) (p : SinkParams) (src : Sockaddr) (s : Proc)
    → is_nonzero p.connect ≡ false
    → (src.family ≡ af_inet) ⊎ (src.family ≡ af_inet6)
    → K.ntop s.tick ≡ true
    → accept_source K fd p src s ≡ done tt (after Call.inet_ntop s)
unfolding accept_source
accept_source-done K fd p src s unconnected (inl e) known = rw (e, known, unconnected) refl
accept_source-done K fd p src s unconnected (inr e) known = rw (e, known, unconnected) refl

module _ (K : Kernel) (func : SinkFunc) (fd from : ℕ) (p : SinkParams) (working : IsWorking K)
    (setting : HasSetting K) (receives : Receives func fd from p) where
  test_run-done :
      (k : Sink) (rec : TimeBench) (s : Proc)
      → settings k.p ≡ settings p
      → from ≤ s.tick
      → (rec' : TimeBench) × (k' : Sink) × (t : Proc) × (test_run K func fd k rec s
          ≡ done (rec', k') t)
        × (k'.p ≡ settings p)
        × (from ≤ t.tick)
  unfolding test_run init_stats
  test_run-done k rec s same begun =
      let s1 = after Call.read_proc s in
      let s3 = after Call.rdtsc (after Call.clock_gettime s1) in
      let (v, set) = record_setting-done K setting rec s in
      let (r1, start, fresh) = start-done K working (record zeroed { ip_early_demux = v }) s1 in
      let (n, r2, k', t, ran, some_packets, few, kept, later) =
        receives.run k r1 s3 same fresh (omega arith) in
      let (r3, stop, kept_bytes) = stop-done K working r2 t in
      let t2 = after Call.clock_gettime (after Call.rdtsc t) in
      let (r4, calc, packets, bytes) =
        calc_stats-some (record r3 { packets = pos n }) n t2 refl some_packets few in
      (
        r4,
        record k' { p = settings k'.p },
        t2,
        rw (set, start, ran, stop, calc) refl,
        kept,
        omega arith,
      )

  -- A test of at least one run runs to its end, changes no setting and leaves the statistics reset
  -- to 0.
  pub test_runs-done :
      (n : ℕ) (k : Sink) (rec : TimeBench) (s : Proc)
      → settings k.p ≡ settings p
      → from ≤ s.tick
      → (k' : Sink) × (t : Proc) × (test_runs K func fd (suc n) k rec s ≡ done k' t)
        × (k'.p ≡ settings p)
        × (from ≤ t.tick)
  unfolding test_runs
  test_runs-done zero k rec s same begun =
      let (rec', k', t, run, kept, later) = test_run-done k rec s same begun in
      (k', t, rw (run, test_runs) refl, kept, later)
  test_runs-done (suc n) k rec s same begun =
      let (rec', k', t, run, kept, later) = test_run-done k rec s same begun in
      let (k'', u, rest, same', last) = test_runs-done n k' rec' t (ap settings kept) later in
      (k'', u, rw (run, test_runs) rest, same', last)

  -- After the first packet from an address of a known family, `time_function` without
  -- `--connect` makes all its runs, whatever the receive function counts in each of them, changes
  -- no setting and leaves the statistics reset to 0, ready for the next test.
  pub time_function-done :
      (n len : ℕ) (k : Sink) (s : Proc)
      → settings k.p ≡ settings p
      → k.p.repeat ≡ pos (suc n)
      → is_nonzero k.p.connect ≡ false
      → K.rc s.tick ≡ ret len
      → ((K.source s.tick).family ≡ af_inet) ⊎ ((K.source s.tick).family ≡ af_inet6)
      → K.ntop (s.tick + 1) ≡ true
      → from ≤ s.tick
      → (k' : Sink) × (t : Proc) × (time_function K func fd k s ≡ done k' t)
        × (k'.p ≡ settings p)
        × (from ≤ t.tick)
  unfolding time_function
  time_function-done n len k s same rounds unconnected came family known begun =
      let s2 = after Call.inet_ntop (after (Call.recvfrom fd (pos 4096) 0) s) in
      let (k', t, runs, kept, later) = test_runs-done n k zeroed s2 same (omega arith) in
      let count : pos_part k.p.repeat ≡ suc n = ap pos_part rounds in
      (
        k',
        t,
        rw
            (
              came,
              accept_source-done K fd k.p (K.source s.tick)
                  (after (Call.recvfrom fd (pos 4096) 0) s) unconnected family known,
              count,
            )
            runs,
        kept,
        later,
      )
