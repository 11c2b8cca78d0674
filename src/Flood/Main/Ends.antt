-- ===== src/Flood/Main/Ends.antt =====
-- What a measurement of udp_flood.c reports, and when it reports nothing.
use network_testing.Common.{
  ℕ, ◌+◌, ◌^◌, ◌<◌, ◌≡◌, refl, ◌∙◌, ◌⊎◌, inl, inr, true, false, Bool-cases, List, pos, pos_part,
  is_nonzero,
}
use network_testing.Kernel.{
  Kernel, Rc, Call, Proc, Run, done, exited, after, exit_fail_send, af_inet, af_inet6,
}
use network_testing.TimeBench.{TimeBench, zeroed}
use network_testing.TimeBench.Clock.{IsWorking, start-done, stop-done, calc_stats-some}
use network_testing.Flood.Params.{FloodParams}
use network_testing.Flood.Send.{flood_with_write, flood_with_sendto}
use network_testing.Flood.Send.Counts.{
  send_results, all_sent, sent_bytes, seq_after, write-sends, sendto-sends,
}
use network_testing.Flood.Main.{FloodFunc, time_function}
use network_testing.Flood.Main.Fails.{time_function-fails}

-- Of `n` sends with the results `rs`, the first with the number `seq`: either all went through, and
-- the record has the packets and the bytes and the next flood goes on with the next number, or one
-- failed, the socket is closed and the program ends.
pub data Ends (fd n seq : ℕ) (rs : List Rc) : Run (TimeBench × ℕ) → Type 0 where
  measured :
      (out : TimeBench) (t : Proc)
      → all_sent rs ≡ true
      → out.packets ≡ pos n
      → out.bytes ≡ sent_bytes rs
      → Ends fd n seq rs (done (out, seq_after n seq) t)
  failed :
      (t : Proc)
      → all_sent rs ≡ false
      → Ends fd n seq rs (exited exit_fail_send (after (Call.close fd) t))

module _ (K : Kernel) (p : FloodParams) (fd seq : ℕ) (s : Proc) (working : IsWorking K) where
  -- behind `time_bench_start`
  abbrev pub started : Proc
  started = after Call.rdtsc (after Call.clock_gettime s)

  pub counts-measured :
      (func : FloodFunc) (n seq' bytes : ℕ) (t : Proc)
      → 0 < n
      → n < 2 ^ 31
      → ((r : TimeBench)
          → func fd r seq started ≡ done ((pos n, record r { bytes = bytes }), seq') t)
      → (out : TimeBench) × (time_function K func fd seq s
          ≡ done (out, seq') (after Call.clock_gettime (after Call.rdtsc t)))
        × (out.packets ≡ pos n)
        × (out.bytes ≡ bytes)
  unfolding time_function
  counts-measured func n seq' bytes t some_packets few sends =
      let (r1, start, fresh) = start-done K working zeroed s in
      let (r3, stop, kept) = stop-done K working (record r1 { bytes = bytes }) t in
      let t2 = after Call.clock_gettime (after Call.rdtsc t) in
      let (r4, calc, same, same_bytes) =
        calc_stats-some (record r3 { packets = pos n }) n t2 refl some_packets few in
      (r4, rw (start, sends r1, stop, calc) refl, same, same_bytes ∙ kept)

  -- With headers and at least one packet: the measurement of the write and of the sendto flood
  -- reports `count` packets and the bytes of their sends if all of them go through, and goes on in
  -- the numbering; if one fails it closes the socket and exits with EXIT_FAIL_SEND.
  pub time_function-Ends :
      let n = pos_part p.count in
      let rs = send_results K n (s.tick + 1 + 1 + 1) in
      is_nonzero p.pktgen_hdr ≡ true
      → ((i : ℕ) → K.alloc i ≡ true)
      → (p.dest_addr.family ≡ af_inet) ⊎ (p.dest_addr.family ≡ af_inet6)
      → 0 < n
      → n < 2 ^ 31
      → sent_bytes rs < 2 ^ 64
      → Ends fd n seq rs (time_function K (flood_with_write K p) fd seq s)
        × Ends fd n seq rs (time_function K (flood_with_sendto K p) fd seq s)
  time_function-Ends on alloc family some_packets few small =
      let n = pos_part p.count in
      let rs = send_results K n (s.tick + 1 + 1 + 1) in
      elim (Bool-cases (all_sent rs)) [
        | inr lost ↦
            let ((t, w), (u, v)) = time_function-fails K p fd seq s working on alloc family lost in
            (rw w (failed t lost), rw v (failed u lost))
        | inl sent ↦
            let seq' = seq_after n seq in
            let (out, w, packets, bytes) =
              counts-measured (flood_with_write K p) n seq' (sent_bytes rs) _ some_packets few
                (λ r. write-sends K p fd r seq started on alloc family (sent, small)) in
            let (out', v, packets', bytes') =
              counts-measured (flood_with_sendto K p) n seq' (sent_bytes rs) _ some_packets few
                (λ r. sendto-sends K p fd r seq started on alloc family (sent, small)) in
            (rw w (measured out _ sent packets bytes), rw v (measured out' _ sent packets' bytes'))
      ]
