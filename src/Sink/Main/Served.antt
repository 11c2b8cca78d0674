-- ===== src/Sink/Main/Served.antt =====
-- The tests of udp_sink.c where every call succeeds.
use network_testing.Common.{
  ℕ, zero, suc, ◌+◌, ◌*◌, ◌^◌, ◌≤◌, ◌<◌, ◌≡◌, refl, ap, ◌∙◌, ◌⊎◌, inl, inr, true, false, Bool-cases,
  ℤ, pos, pos_part, is_nonzero, arith,
}
use network_testing.Kernel.{
  Kernel, ret, Call, Proc, Run, done, and_then, pure, after, af_inet, af_inet6,
}
use network_testing.Kernel.Laws.{after_calls}
use network_testing.Getopt.{has_flag}
use network_testing.TimeBench.{TimeBench}
use network_testing.TimeBench.Clock.{IsWorking, HasSetting}
use network_testing.Sink.Params.{
  SinkParams, Sink, init_stats, run_recvmsg, run_recvmmsg, run_recvfrom, run_read, run_recv,
}
use network_testing.Sink.Receive.{recv_flags, sink_with_read, sink_with_recvfrom, sink_with_recv}
use network_testing.Sink.Receive.Counts.{
  replies, received, returned, all_served, counted, allocated, receive-counts,
}
use network_testing.Sink.Recvmsg.{sink_with_recvmsg}
use network_testing.Sink.Recvmmsg.{sink_with_recv_mmsg}
use network_testing.Sink.Main.{SinkFunc, unchecked, run_test, run_tests}
use network_testing.Sink.Message.Passes.{fixed, Brings, IsLenient, HasRoom, fixed-settings}
use network_testing.Sink.Recvmsg.Ends.{sink_with_recvmsg-done}
use network_testing.Sink.Recvmmsg.Ends.{sink_with_recv_mmsg-done}
use mathlib.Core.Path.{subst, sym}
use network_testing.Kernel.Laws.{tick-after_calls}
use network_testing.Sink.Main.Runs.{Receives, time_function-done}

-- From the call `from` on, messages come that pass the checks: at most `most` with a call and of at
-- most `most` bytes, with more rounds than packets for `sink_with_recv_mmsg`.
pub record MessagesPass (K : Kernel) (from n most fuel : ℕ) (p : SinkParams) : Type 0 where
  pub brings : Brings K from most
  pub lenient : IsLenient p
  pub room : HasRoom most p
  pub few : n + most < 2 ^ 31
  pub rounds : n < fuel

-- `n` packets a test, `m` further runs of each, no `--connect`, and the tests that are chosen.
-- Those that take messages are among them only where messages pass.
pub record IsChosen (K : Kernel) (from n m most fuel flags : ℕ) (p : SinkParams) : Type 0 where
  pub count : p.count ≡ pos n
  pub repeat : p.repeat ≡ pos (suc m)
  pub unconnected : is_nonzero p.connect ≡ false
  pub chosen : p.run_flag ≡ flags
  pub messages :
      ((has_flag flags run_recvmmsg ≡ false) × (has_flag flags run_recvmsg ≡ false))
      ⊎ MessagesPass K from n most fuel p

-- Every call returns a number of 31 bits, memory is there, packets come from known addresses, and
-- the file with the demux setting is missing or holds a number.
pub record Serves (K : Kernel) : Type 0 where
  pub calls : (i : ℕ) → (k : ℕ) × (K.rc i ≡ ret k) × (k < 2 ^ 31)
  pub alloc : (i : ℕ) → K.alloc i ≡ true
  pub family : (i : ℕ) → ((K.source i).family ≡ af_inet) ⊎ ((K.source i).family ≡ af_inet6)
  pub setting : HasSetting K
  pub ntop : (i : ℕ) → K.ntop i ≡ true

module _ (K : Kernel) (serves : Serves K) where
  replies-served :
      (n t : ℕ)
      → let rs = replies K.rc t n in
        (all_served rs ≡ true) × (received rs ≡ n) × (returned rs ≤ n * 2 ^ 31)
  unfolding replies all_served received returned
  replies-served zero t = (refl, refl, omega arith)
  replies-served (suc n) t =
      let (k, e, small) = serves.calls t in
      let (all, count, bytes) = replies-served n (t + 1) in
      (rw e all, rw e (omega (arith, count)), rw e (omega arith))

  module _ (fd from n m most fuel flags : ℕ) (working : IsWorking K) (some_packets : 0 < n)
      (few : n < 2 ^ 31) where
    abbrev Chosen : SinkParams → Type 0
    Chosen p = IsChosen K from n m most fuel flags (fixed p)

    -- A receive function without checks that makes `n` calls.
    abbrev CountsCalls :
        (ℕ → SinkParams → TimeBench → Proc → Run (ℤ × TimeBench)) → (SinkParams → Call) → Type 0
    CountsCalls func call =
        (p : SinkParams) (r : TimeBench) (s : Proc)
        → p.count ≡ pos n
        → r.try_again ≡ 0
        → func fd p r s
          ≡ done (counted (replies K.rc (s.tick + 1) n) r) (after_calls (call p) n (allocated s))

    counts-Receives :
        (func : ℕ → SinkParams → TimeBench → Proc → Run (ℤ × TimeBench)) (call : SinkParams → Call)
        → CountsCalls func call
        → (p : SinkParams) → Chosen p
        → Receives (unchecked func) fd from p
    counts-Receives func call counts p set = record {
      run = λ k r s same fresh begun.
          let ran = counts k.p r s (ap (λ q. q.count) same ∙ set.count) fresh in
          let (all, got, bytes) = replies-served n (s.tick + 1) in
          (
            received (replies K.rc (s.tick + 1) n),
            _,
            k,
            _,
            ap (λ o. and_then o (λ out. pure (out, k))) ran,
            rw got some_packets,
            rw got few,
            same,
            omega (arith, tick-after_calls (call k.p) n (allocated s)),
          );
    }

    -- The three functions that receive without a check.
    all_counted :
        (p : SinkParams) (r : TimeBench) (s : Proc)
        → p.count ≡ pos n
        → r.try_again ≡ 0
        → let out = counted (replies K.rc (s.tick + 1) n) r in
          (sink_with_read K fd p r s
            ≡ done out (after_calls (Call.read fd p.buf_sz) n (allocated s)))
          × (sink_with_recvfrom K fd p r s
              ≡ done out (after_calls (Call.recvfrom fd p.buf_sz (recv_flags p)) n (allocated s)))
          × (sink_with_recv K fd p r s
              ≡ done out (after_calls (Call.recv fd p.buf_sz (recv_flags p)) n (allocated s)))
    all_counted p r s count fresh =
        let (all, got, bytes) = replies-served n (s.tick + 1) in
        receive-counts K fd n p r s count (serves.alloc s.tick) few some_packets fresh all
          (omega arith)

    absent :
        {A : Type 0}
        → (bit run_flag : ℕ) → run_flag ≡ flags
        → has_flag run_flag bit ≡ true
        → has_flag flags bit ≡ false
        → A
    absent bit run_flag chosen on off = cc

    recvmsg-Receives :
        (p : SinkParams)
        → Chosen p
        → has_flag p.run_flag run_recvmsg ≡ true
        → Receives (sink_with_recvmsg K) fd from p
    recvmsg-Receives p set on = elim set.messages [
      | inl off ↦ absent run_recvmsg p.run_flag set.chosen on off.1
      | inr pass ↦ record {
        run = λ k r s same fresh begun.
            let (r', k', t, run, kept, later) =
              sink_with_recvmsg-done K from most n fd pass.brings (word pass) some_packets few
                serves.alloc k r s (fixed-settings IsLenient k.p p same pass.lenient)
                (fixed-settings (HasRoom most) k.p p same pass.room)
                (ap (λ q. pos_part q.count) same ∙ ap pos_part set.count) fresh begun in
            (n, r', k', t, run, some_packets, few, kept ∙ same, later);
      }
    ]
      where
        word : MessagesPass K from n most fuel (fixed p) → most < 2 ^ 31
        word pass = omega (arith, pass.few)

    recv_mmsg-Receives :
        (p : SinkParams)
        → Chosen p
        → has_flag p.run_flag run_recvmmsg ≡ true
        → Receives (sink_with_recv_mmsg K fuel) fd from p
    recv_mmsg-Receives p set on = elim set.messages [
      | inl off ↦ absent run_recvmmsg p.run_flag set.chosen on off.0
      | inr pass ↦ record {
        run = λ k r s same fresh begun.
            let (cnt, r', k', t, run, some, within, kept, later) =
              sink_with_recv_mmsg-done K from most n fuel fd pass.brings some_packets pass.few
                pass.rounds serves.alloc k r s (fixed-settings IsLenient k.p p same pass.lenient)
                (fixed-settings (HasRoom most) k.p p same pass.room)
                (ap (λ q. pos_part q.count) same ∙ ap pos_part set.count) fresh begun in
            (cnt, r', k', t, run, some, within, kept ∙ same, later);
      }
    ]

    run_test-done :
        (bit : ℕ) (func : SinkFunc)
        → ((p : SinkParams) → Chosen p → has_flag p.run_flag bit ≡ true → Receives func fd from p)
        → (k : Sink) (s : Proc) → Chosen k.p
        → from ≤ s.tick
        → (k' : Sink) × (t : Proc) × (run_test K bit func fd k s ≡ done k' t)
          × Chosen k'.p
          × (from ≤ t.tick)
    unfolding run_test init_stats
    run_test-done bit func receives k s set begun = elim (Bool-cases (has_flag k.p.run_flag bit)) [
      | inr off ↦ (k, s, rw off refl, set, begun)
      | inl on ↦
          let q = init_stats bit k.p in
          let (c, came, small) = serves.calls s.tick in
          let (k', t, run, same, later) =
            time_function-done K func fd from q working serves.setting (receives q set on) m c
              (record k { p = q }) s refl set.repeat set.unconnected came (serves.family s.tick)
              (serves.ntop (s.tick + 1)) begun in
          (k', t, rw on run, subst Chosen (sym same) set, later)
    ]

    pub run_tests-done :
        (k : Sink) (s : Proc)
        → Chosen k.p
        → from ≤ s.tick
        → (t : Proc) × (run_tests K fuel fd k s ≡ done tt t)
    unfolding run_tests
    run_tests-done k s set begun =
        let (k1, t1, by_recvmmsg, set1, begun1) =
          run_test-done run_recvmmsg (sink_with_recv_mmsg K fuel) recv_mmsg-Receives k s set
            begun in
        let (k2, t2, by_recvmsg, set2, begun2) =
          run_test-done run_recvmsg (sink_with_recvmsg K) recvmsg-Receives k1 t1 set1 begun1 in
        let (k3, t3, by_read, set3, begun3) =
          run_test-done run_read (unchecked (sink_with_read K))
            (λ p chosen on.
              counts-Receives (sink_with_read K) _
                (λ q r u count fresh. (all_counted q r u count fresh).0) p chosen)
            k2 t2 set2 begun2 in
        let (k4, t4, by_recvfrom, set4, begun4) =
          run_test-done run_recvfrom (unchecked (sink_with_recvfrom K))
            (λ p chosen on.
              counts-Receives (sink_with_recvfrom K) _
                (λ q r u count fresh. (all_counted q r u count fresh).1) p chosen)
            k3 t3 set3 begun3 in
        let (k5, t5, by_recv, set5, begun5) =
          run_test-done run_recv (unchecked (sink_with_recv K))
            (λ p chosen on.
              counts-Receives (sink_with_recv K) _
                (λ q r u count fresh. (all_counted q r u count fresh).2) p chosen)
            k4 t4 set4 begun4 in
        (after (Call.close fd) t5, rw (by_recvmmsg, by_recvmsg, by_read, by_recvfrom, by_recv) refl)
