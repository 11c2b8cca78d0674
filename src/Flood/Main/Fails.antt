-- ===== src/Flood/Main/Fails.antt =====
-- How a measurement of udp_flood.c ends when a packet cannot be sent.
use network_testing.Common.{ℕ, ◌+◌, ◌≡◌, refl, ◌⊎◌, true, false, negsuc, pos_part, is_nonzero}
use network_testing.Kernel.{
  Kernel, Call, Proc, done, exited, after, exit_fail_send, af_inet, af_inet6,
}
use network_testing.TimeBench.{TimeBench, zeroed}
use network_testing.TimeBench.Clock.{IsWorking, start-done, stop-done}
use network_testing.Socket.Wrappers.{sockaddr_len-inet}
use network_testing.Flood.Params.{FloodParams}
use network_testing.Flood.Send.{flood_with_write, flood_with_sendto}
use network_testing.Flood.Send.Counts.{send_results, all_sent, loop-fails, zeros}
use network_testing.Flood.Main.{FloodFunc, time_function}

module _ (K : Kernel) (p : FloodParams) (fd seq : ℕ) (s : Proc) (working : IsWorking K) where
  negative-fails :
      (func : FloodFunc)
      → ((r : TimeBench) (u : Proc)
          → u.tick ≡ s.tick + 1 + 1
          → (r' : TimeBench) × (seq' : ℕ) × (t : Proc) × (func fd r seq u
              ≡ done ((negsuc 0, r'), seq') t))
      → (t : Proc) × (time_function K func fd seq s
          ≡ exited exit_fail_send (after (Call.close fd) t))
  unfolding time_function
  negative-fails func fails =
      let (r1, start, fresh) = start-done K working zeroed s in
      let (r2, seq', t, failed) = fails r1 (after Call.rdtsc (after Call.clock_gettime s)) refl in
      let (r3, stop, kept_bytes) = stop-done K working r2 t in
      (after Call.clock_gettime (after Call.rdtsc t), rw (start, failed, stop) refl)

  -- With headers, where a send of the run fails, the measurement of the write and of the sendto
  -- flood closes the socket and exits with EXIT_FAIL_SEND: no rate is reported.
  pub time_function-fails :
      is_nonzero p.pktgen_hdr ≡ true
      → ((i : ℕ) → K.alloc i ≡ true)
      → (p.dest_addr.family ≡ af_inet) ⊎ (p.dest_addr.family ≡ af_inet6)
      → all_sent (send_results K (pos_part p.count) (s.tick + 1 + 1 + 1)) ≡ false
      → ((t : Proc) × (time_function K (flood_with_write K p) fd seq s
            ≡ exited exit_fail_send (after (Call.close fd) t)))
        × ((t : Proc) × (time_function K (flood_with_sendto K p) fd seq s
              ≡ exited exit_fail_send (after (Call.close fd) t)))
  unfolding flood_with_write flood_with_sendto
  time_function-fails on alloc family lost =
      let (l, len) = sockaddr_len-inet p.dest_addr family in
      (
        negative-fails (flood_with_write K p) (λ r u e.
            let (seq', t, run) =
              loop-fails K p on (λ m. Call.write fd m p.msg_sz) (pos_part p.count) 0 seq zeros
                (after Call.malloc u) (rw e lost) in
            (r, seq', t, rw (alloc u.tick, run) refl)),
        negative-fails (flood_with_sendto K p) (λ r u e.
            let (seq', t, run) =
              loop-fails K p on (λ m. Call.sendto fd m p.msg_sz p.dest_addr) (pos_part p.count) 0
                seq zeros (after Call.malloc u) (rw e lost) in
            (r, seq', t, rw (len, alloc u.tick, run) refl)),
      )
