-- ===== src/Flood/Tests.antt =====
-- Runs of udp_flood.c on small inputs.
use network_testing.Common.{
  ℕ, ◌+◌, ◌*◌, ◌/◌, ◌%◌, ◌^◌, ◌≡◌, refl, ◌==◌, if◌then◌else◌, ltb, inl, pos, negsuc, arith,
}
use network_testing.Kernel.{Kernel, Rc, ret, Mem, Call, done, crashed, after, af_inet}
use network_testing.Kernel.Laws.{after_calls}
use network_testing.TimeBench.{zeroed}
use network_testing.Socket.{no_addr}
use network_testing.Kernel.Tests.{test_kernel, idle}
use network_testing.Flood.Params.{FloodParams, init_params}
use network_testing.Flood.Pmtu.{set_pmtu}
use network_testing.Flood.Pmtu.Reads.{set_pmtu-run}
use network_testing.Flood.Fill.{fill_buf, stamp, stamp_time}
use network_testing.Flood.Fill.Content.{filled, fill_buf-filled}
use network_testing.Flood.Send.{flood_with_sendto, flood_with_write, flood_with_sendmsg}
use network_testing.Flood.Send.Counts.{zeros, Sent, all_sent, sent_bytes, send_results, flood-sends}
use network_testing.Flood.Sendmmsg.{flood_with_send_mmsg}
use network_testing.Flood.Sendmmsg.Counts.{Batches, packets_sent, send_mmsg-counts}

abbrev pub sending : (ℕ → Rc) → Kernel
sending rc = test_kernel rc (λ _ _. 0)

-- 2 packets of 20 bytes with headers
abbrev stamped : FloodParams
stamped = record init_params {
  count = pos 2;
  msg_sz = pos 20;
  pktgen_hdr = pos 1;
  dest_addr = record no_addr { family = af_inet };
}

fill_buf-filled_example :
    (m' : Mem) × (fill_buf (sending (λ _. ret 20)) stamped 5 (pos 20) 3 zeros idle
      ≡ done (m', (3 + 1) % 2 ^ 32) (after Call.clock_gettime idle))
    × ((a : ℕ) → m' a ≡ filled (stamp (stamp_time (sending (λ _. ret 20)) 0) 3) 5 0 20 zeros a)
fill_buf-filled_example =
    fill_buf-filled (sending (λ _. ret 20)) stamped 5 (pos 20) 3 zeros idle refl

flood-sends_example :
    let K = sending (λ _. ret 20) in
    let s1 = after Call.malloc idle in
    let s3 = after Call.malloc (after Call.malloc s1) in
    (flood_with_write K stamped 4 zeroed 0 idle
      ≡ Sent K stamped zeroed 0 (λ m. Call.write 4 m (pos 20)) s1)
    × (flood_with_sendto K stamped 4 zeroed 0 idle
        ≡ Sent K stamped zeroed 0 (λ m. Call.sendto 4 m (pos 20) stamped.dest_addr) s1)
    × (flood_with_sendmsg K stamped 4 zeroed 0 idle
        ≡ Sent K stamped zeroed 0 (λ m. Call.sendmsg 4 m (pos 20)) s3)
unfolding all_sent sent_bytes send_results
flood-sends_example =
    flood-sends (sending (λ _. ret 20)) stamped 4 zeroed 0 idle refl (λ _. refl) (inl refl)
      (refl, omega arith) (refl, omega arith)

-- 5 packets in batches of 2
abbrev batched : FloodParams
batched = record stamped { count = pos 5; batch = pos 2; pktgen_hdr = pos 0 }

-- Call 3 sends a batch, call 4 only one packet of its batch, call 5 the last packet.
abbrev batch_results : ℕ → Rc
batch_results t = if ltb t 4 then ret 2 else ret 1

calls : Batches (sending batch_results) 2 (5 / 2) 3
unfolding Batches
calls = (2, refl, omega arith, (1, refl, omega arith, tt))

send_mmsg-counts_example :
    let K = sending batch_results in
    let s3 = after Call.malloc (after Call.malloc (after Call.malloc idle)) in
    let whole = after_calls (Call.sendmmsg 4 zeros (pos 2)) (5 / 2) s3 in
    flood_with_send_mmsg K batched 4 zeroed 0 idle
    ≡ done
        ((pos 5, record zeroed { bytes = packets_sent K 2 (5 / 2) 3 calls * 20 }), 0)
        (if 5 % 2 == 0 then whole else after (Call.sendmmsg 4 zeros (pos (5 % 2))) whole)
unfolding after_calls
send_mmsg-counts_example =
    send_mmsg-counts (sending batch_results) batched 4 2 20 5 0 zeroed idle refl refl refl refl
      (omega arith) (omega arith) (omega arith) (λ _. refl) (inl refl) calls 1 refl

-- `--verbose --pmtu=-2`
set_pmtu-run_example :
    let s = record idle { verbose = pos 1 } in
    set_pmtu (sending (λ _. ret 0)) (negsuc 1) 4 s ≡ crashed s
set_pmtu-run_example =
    set_pmtu-run (sending (λ _. ret 0)) (negsuc 1) 4 (record idle { verbose = pos 1 })
