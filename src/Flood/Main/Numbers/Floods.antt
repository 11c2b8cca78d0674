-- ===== src/Flood/Main/Numbers/Floods.antt =====
-- The numbers of the packets that one run of udp_flood.c sends, in several floods.
use network_testing.Common.{
  ℕ, zero, suc, ◌+◌, ◌*◌, ◌%◌, ◌^◌, ◌≤◌, ◌<◌, ◌≡◌, refl, ap, ◌∙◌, ◌⊎◌, inl, inr, true, false,
  Bool-cases, if◌then◌else◌, List, ◌∷◌, pos_part, is_nonzero, arith,
}
use network_testing.Kernel.{Kernel, ret, Mem, Call, Proc, done, after, af_inet, af_inet6}
use network_testing.Pktgen.{hdr_size}
use network_testing.TimeBench.{TimeBench}
use network_testing.TimeBench.Clock.{IsWorking}
use network_testing.Getopt.{has_flag}
use network_testing.Flood.Params.{
  FloodParams, run_sendmsg, run_sendmmsg, run_sendto, run_write, run_send,
}
use network_testing.Flood.Sendmmsg.{flood_with_send_mmsg}
use network_testing.Flood.Send.{
  flood_with_send, flood_with_write, flood_with_sendto, flood_with_sendmsg,
}
use network_testing.Flood.Send.Counts.{
  buffers, after_sends, seq_after, AllSent, Sent, zeros, flood-sends, write-sends, sendto-sends,
  all_sent, send_results, sent_bytes,
}
use network_testing.Flood.Main.Ends.{started, counts-measured}
use network_testing.Flood.Main.{FloodFunc, time_function, run_flood, run_floods}
use network_testing.Flood.Main.Numbers.{
  number_of, numbers, count_down, count_down-append, seq_after-mod, after_sends-numbers,
}

-- the packets of a flood, if its bit is set
abbrev pub picked : FloodParams → (flags bit : ℕ) → ℕ
picked p flags bit = if has_flag flags bit then pos_part p.count else 0

module _ (K : Kernel) (p : FloodParams) (fd : ℕ) (working : IsWorking K)
    (on : is_nonzero p.pktgen_hdr ≡ true) (whole : hdr_size ≤ pos_part p.msg_sz)
    (some_packets : 0 < pos_part p.count) (few : pos_part p.count < 2 ^ 31)
    (alloc : (i : ℕ) → K.alloc i ≡ true)
    (family : (p.dest_addr.family ≡ af_inet) ⊎ (p.dest_addr.family ≡ af_inet6))
    (sent : (i : ℕ) → (k : ℕ) × (K.rc i ≡ ret k) × (k < 2 ^ 31)) where
  results-sent :
      (n t : ℕ)
      → (all_sent (send_results K n t) ≡ true) × (sent_bytes (send_results K n t) ≤ n * 2 ^ 31)
  unfolding all_sent send_results sent_bytes
  results-sent zero t = (refl, omega arith)
  results-sent (suc n) t =
      let (k, e, small) = sent (t + 1) in
      let (rest, bytes) = results-sent n (t + 1 + 1) in (rw e rest, rw e (omega arith))

  every-AllSent : (t : ℕ) → AllSent K p t
  every-AllSent t = let (rest, bytes) = results-sent (pos_part p.count) t in (rest, omega arith)

  -- What has been sent: `c` packets with the numbers from 0 on, behind what stood in `before`.
  At : (before : List ℕ) (c seq : ℕ) → Proc → Type 0
  At before c seq s = (seq ≡ (0 + c) % 2 ^ 32) × (numbers s.calls ≡ count_down 0 c before)

  -- A flood whose packets are sent by `send` behind the calls of `prepare`.
  record Floods (func : FloodFunc) (send : Mem → Call) (prepare : Proc → Proc) : Type 0 where
    run : (r : TimeBench) (seq : ℕ) (s : Proc) → func fd r seq s ≡ Sent K p r seq send (prepare s)
    silent : (s : Proc) → numbers (prepare s).calls ≡ numbers s.calls
    carries : (m : Mem) (calls : List Call) → numbers (send m ∷ calls) ≡ number_of m ∷ numbers calls

  time_function-numbers :
      (func : FloodFunc) (send : Mem → Call) (prepare : Proc → Proc)
      → Floods func send prepare
      → (seq : ℕ) (s : Proc) → seq < 2 ^ 32
      → (out : TimeBench) × (t : Proc) × (time_function K func fd seq s
          ≡ done (out, (seq + pos_part p.count) % 2 ^ 32) t)
        × (numbers t.calls ≡ count_down seq (pos_part p.count) (numbers s.calls))
  unfolding numbers
  time_function-numbers func send prepare f seq s small =
      let n = pos_part p.count in
      let s' = started K p fd seq s working in
      let u = prepare s' in
      let t = after_sends send (buffers K (pos_part p.msg_sz) n u.tick seq zeros) u in
      let (out, run, packets, bytes) =
        counts-measured K p fd seq s working func n (seq_after n seq)
          (sent_bytes (send_results K n u.tick)) t some_packets few (λ r. f.run r seq s') in
      (
        out,
        after Call.clock_gettime (after Call.rdtsc t),
        rw (seq_after-mod n seq small) at run,
        after_sends-numbers K (pos_part p.msg_sz) send whole f.carries n u.tick seq zeros u small
            ∙ ap (count_down seq n) (f.silent s'),
      )

  run_flood-At :
      (flags bit : ℕ) (func : FloodFunc) (send : Mem → Call) (prepare : Proc → Proc)
      → Floods func send prepare
      → (before : List ℕ) (c seq : ℕ) (s : Proc) → At before c seq s
      → (seq' : ℕ) × (t : Proc) × (run_flood K flags bit func fd seq s ≡ done seq' t)
        × At before (c + picked p flags bit) seq' t
  unfolding run_flood At
  run_flood-At flags bit func send prepare f before c seq s (number, calls) =
      elim (Bool-cases (has_flag flags bit)) [
        | inr off ↦
            let same : c + 0 ≡ c = omega arith in
            (seq, s, rw (run_flood, off) refl, (rw (off, same) number, rw (off, same) calls))
        | inl on ↦
            let n = pos_part p.count in
            let (out, t, run, went) =
              time_function-numbers func send prepare f seq s (omega arith) in
            let next : (seq + n) % 2 ^ 32 ≡ (0 + (c + n)) % 2 ^ 32 = omega arith in
            (
              (seq + n) % 2 ^ 32,
              t,
              rw (run_flood, on, run) refl,
              (rw on next, rw on (went ∙ rw (number, calls) (count_down-append 0 c n before))),
            )
      ]

  write-Floods : Floods (flood_with_write K p) (λ m. Call.write fd m p.msg_sz) (after Call.malloc)
  unfolding numbers
  write-Floods = record {
    run = λ r seq s. write-sends K p fd r seq s on alloc family (every-AllSent (s.tick + 1));
    silent = λ s. refl;
    carries = λ m calls. refl;
  }

  sendto-Floods :
      Floods
        (flood_with_sendto K p)
        (λ m. Call.sendto fd m p.msg_sz p.dest_addr)
        (after Call.malloc)
  unfolding numbers
  sendto-Floods = record {
    run = λ r seq s. sendto-sends K p fd r seq s on alloc family (every-AllSent (s.tick + 1));
    silent = λ s. refl;
    carries = λ m calls. refl;
  }

  sendmsg-Floods :
      Floods
        (flood_with_sendmsg K p)
        (λ m. Call.sendmsg fd m p.msg_sz)
        (λ s. after Call.malloc (after Call.malloc (after Call.malloc s)))
  unfolding numbers
  sendmsg-Floods = record {
    run = λ r seq s.
        (flood-sends K p fd r seq s on alloc family (every-AllSent (s.tick + 1))
          (every-AllSent (s.tick + 1 + 1 + 1))).2;
    silent = λ s. refl;
    carries = λ m calls. refl;
  }

  skipped :
      (flags bit : ℕ) (func : FloodFunc) (seq : ℕ) (s : Proc)
      → has_flag flags bit ≡ false
      → run_flood K flags bit func fd seq s ≡ done seq s
  unfolding run_flood
  skipped flags bit func seq s off = rw (run_flood, off) refl

  -- With headers, where no call fails: the floods that are chosen among the sendto, the sendmsg and
  -- the write flood all end, one behind the other, and their packets have successive numbers from 0
  -- on. Neither of the other two floods is chosen, the clock works, a header fits a packet, there is
  -- at least one packet, and no call returns 2^31 or more.
  pub run_floods-numbers :
      (flags : ℕ) (s : Proc)
      → has_flag flags run_send ≡ false
      → has_flag flags run_sendmmsg ≡ false
      → (t : Proc) × (run_floods K flags p fd s ≡ done tt t)
        × (numbers t.calls
            ≡ count_down 0
                (picked p flags run_sendto + picked p flags run_sendmsg + picked p flags run_write)
                (numbers s.calls))
  unfolding run_floods numbers count_down At
  run_floods-numbers flags s no_send no_sendmmsg =
      let before = numbers s.calls in
      let (s2, t2, run2, at2) =
        run_flood-At flags run_sendto (flood_with_sendto K p) _ _ sendto-Floods before 0 0 s
          (refl, refl) in
      let (s3, t3, run3, at3) =
        run_flood-At flags run_sendmsg (flood_with_sendmsg K p) _ _ sendmsg-Floods before _ s2 t2
          at2 in
      let (s5, t5, run5, at5) =
        run_flood-At flags run_write (flood_with_write K p) _ _ write-Floods before _ s3 t3 at3 in
      let count : 0
            + picked p flags run_sendto
            + picked p flags run_sendmsg
            + picked p flags run_write
          ≡ picked p flags run_sendto + picked p flags run_sendmsg + picked p flags run_write =
        omega arith in
      (
        after (Call.close fd) t5,
        rw
            (
              skipped flags run_send (flood_with_send K p) 0 s no_send,
              run2,
              run3,
              skipped flags run_sendmmsg (flood_with_send_mmsg K p) s3 t3 no_sendmmsg,
              run5,
            )
            refl,
        at5.1 ∙ ap (λ c. count_down 0 c before) count,
      )
