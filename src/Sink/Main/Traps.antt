-- ===== src/Sink/Main/Traps.antt =====
-- A test of udp_sink.c that finds no packet behind the first one.
use network_testing.Common.{
  ℕ, zero, suc, ◌+◌, ◌^◌, ◌≤◌, ◌<◌, ◌≡◌, refl, ap, ◌⊎◌, true, false, ℤ, pos, pos_part, is_nonzero,
  arith,
}
use network_testing.Kernel.{
  Kernel, ret, err, Call, Proc, Run, done, crashed, after, eagain, af_inet, af_inet6,
}
use network_testing.TimeBench.{TimeBench, zeroed, time_bench_calc_stats}
use network_testing.TimeBench.Clock.{
  IsWorking, HasSetting, record_setting-done, start-done, stop-done,
}
use network_testing.Sink.Params.{SinkParams, Sink}
use network_testing.Sink.Receive.{sink_with_read, sink_with_recvfrom, sink_with_recv}
use network_testing.Sink.Receive.Counts.{replies, received, returned, all_served, receive-counts}
use network_testing.Sink.Main.{unchecked, test_run, test_runs, time_function}
use network_testing.Sink.Main.Runs.{accept_source-done}

module _ (K : Kernel) (working : IsWorking K) (setting : HasSetting K) (fd n m : ℕ)
    (some_packets : 0 < n) (few : n < 2 ^ 31) (alloc : (i : ℕ) → K.alloc i ≡ true) (from : ℕ)
    (silence : (i : ℕ) → from ≤ i → K.rc i ≡ err eagain) where
  replies-silence :
      (n t : ℕ)
      → from ≤ t
      → (all_served (replies K.rc t n) ≡ true)
        × (received (replies K.rc t n) ≡ 0)
        × (returned (replies K.rc t n) ≡ 0)
  unfolding replies all_served received returned
  replies-silence zero t late = (refl, refl, refl)
  replies-silence (suc n) t late = rw (silence t late) (replies-silence n (t + 1) (omega arith))

  -- A receive function that finds nothing.
  abbrev FindsNothing : (ℕ → SinkParams → TimeBench → Proc → Run (ℤ × TimeBench)) → Type 0
  FindsNothing func =
      (p : SinkParams) (r : TimeBench) (s : Proc)
      → from ≤ s.tick
      → p.count ≡ pos n
      → r.try_again ≡ 0
      → (r' : TimeBench) × (t : Proc) × (func fd p r s ≡ done (pos 0, r') t)

  find_nothing :
      FindsNothing (sink_with_read K)
      × FindsNothing (sink_with_recvfrom K)
      × FindsNothing (sink_with_recv K)
  find_nothing =
      let all =
        λ (p : SinkParams) (r : TimeBench) (s : Proc) (late : from ≤ s.tick)
            (count : p.count ≡ pos n) (fresh : r.try_again ≡ 0).
          let (served, none_came, bytes) = replies-silence n (s.tick + 1) (omega arith) in
          receive-counts K fd n p r s count (alloc s.tick) few some_packets fresh served
            (omega (arith, bytes)) in
      let nothing =
        λ (s : Proc) (late : from ≤ s.tick). (replies-silence n (s.tick + 1) (omega arith)).1 in
      (
        λ p r s late count fresh. (_, _, rw (nothing s late) at ((all p r s late count fresh).0)),
        λ p r s late count fresh. (_, _, rw (nothing s late) at ((all p r s late count fresh).1)),
        λ p r s late count fresh. (_, _, rw (nothing s late) at ((all p r s late count fresh).2)),
      )

  test_run-traps :
      (func : ℕ → SinkParams → TimeBench → Proc → Run (ℤ × TimeBench))
      → FindsNothing func
      → (k : Sink) (rec : TimeBench) (s : Proc) → from ≤ s.tick
      → k.p.count ≡ pos n
      → (t : Proc) × (test_run K (unchecked func) fd k rec s ≡ crashed t)
  unfolding test_run time_bench_calc_stats
  test_run-traps func nothing k rec s late count =
      let s1 = after Call.read_proc s in
      let s3 = after Call.rdtsc (after Call.clock_gettime s1) in
      let (v, set) = record_setting-done K setting rec s in
      let (r1, start, fresh) = start-done K working (record zeroed { ip_early_demux = v }) s1 in
      let (r2, t, run) = nothing k.p r1 s3 (omega arith) count fresh in
      let (r3, stop, kept) = stop-done K working r2 t in
      let t2 = after Call.clock_gettime (after Call.rdtsc t) in
      (t2, rw (set, start, run, stop) refl)

  -- The measurement of such a function by `time_function`.
  abbrev Traps : (ℕ → SinkParams → TimeBench → Proc → Run (ℤ × TimeBench)) → Sink → Proc → Type 0
  Traps func k s = (t : Proc) × (time_function K (unchecked func) fd k s ≡ crashed t)

  time_function-func :
      (func : ℕ → SinkParams → TimeBench → Proc → Run (ℤ × TimeBench))
      → FindsNothing func
      → (k : Sink) (len : ℕ) (s : Proc) → from ≤ s.tick + 2
      → k.p.count ≡ pos n
      → k.p.repeat ≡ pos (suc m)
      → is_nonzero k.p.connect ≡ false
      → K.rc s.tick ≡ ret len
      → ((K.source s.tick).family ≡ af_inet) ⊎ ((K.source s.tick).family ≡ af_inet6)
      → K.ntop (s.tick + 1) ≡ true
      → Traps func k s
  unfolding time_function test_runs
  time_function-func func nothing k len s late count rounds unconnected came family known =
      let s1 = after (Call.recvfrom fd (pos 4096) 0) s in
      let s2 = after Call.inet_ntop s1 in
      let source = accept_source-done K fd k.p (K.source s.tick) s1 unconnected family known in
      let repeat : pos_part k.p.repeat ≡ suc m = ap pos_part rounds in
      let (t, run) = test_run-traps func nothing k zeroed s2 (omega arith) count in
      (t, rw (came, source, repeat, test_runs, run) refl)

-- Where a first packet comes from an address of a known family, and every call behind it finds the
-- queue empty: `time_function` of the read, recvfrom and recv sinks traps, by
-- the division by the packets that its first run has counted. There is a packet to wait for and a run
-- to make, the sink does not connect, the clock works, the file with the demux setting is missing or
-- holds a number, and no memory is missing.
pub time_function-traps :
    (K : Kernel) (fd n m len : ℕ) (k : Sink) (s : Proc)
    → IsWorking K
    → HasSetting K
    → ((i : ℕ) → K.alloc i ≡ true)
    → 0 < n
    → n < 2 ^ 31
    → k.p.count ≡ pos n
    → k.p.repeat ≡ pos (suc m)
    → is_nonzero k.p.connect ≡ false
    → K.rc s.tick ≡ ret len
    → ((K.source s.tick).family ≡ af_inet) ⊎ ((K.source s.tick).family ≡ af_inet6)
    → K.ntop (s.tick + 1) ≡ true
    → ((i : ℕ) → s.tick + 1 ≤ i → K.rc i ≡ err eagain)
    → ((t : Proc) × (time_function K (unchecked (sink_with_read K)) fd k s ≡ crashed t))
      × ((t : Proc) × (time_function K (unchecked (sink_with_recvfrom K)) fd k s ≡ crashed t))
      × ((t : Proc) × (time_function K (unchecked (sink_with_recv K)) fd k s ≡ crashed t))
time_function-traps K fd n m len k s working setting alloc some_packets few count rounds unconnected
      came family known silence =
    let (by_read, by_recvfrom, by_recv) =
      find_nothing K working setting fd n m some_packets few alloc (s.tick + 1) silence in
    let traps =
      λ (func : ℕ → SinkParams → TimeBench → Proc → Run (ℤ × TimeBench))
          (nothing : FindsNothing K working setting fd n m some_packets few alloc (s.tick + 1)
            silence func).
        time_function-func K working setting fd n m some_packets few alloc (s.tick + 1) silence func
          nothing k len s (omega arith) count rounds unconnected came family known in
    (
      traps (sink_with_read K) by_read,
      traps (sink_with_recvfrom K) by_recvfrom,
      traps (sink_with_recv K) by_recv,
    )
