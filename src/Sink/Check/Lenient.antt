-- ===== src/Sink/Check/Lenient.antt =====
-- check_pkt of udp_sink.c at the levels at which no mistake ends the program.
use network_testing.Common.{ℕ, ◌/◌, ◌≤◌, ◌<◌, ◌^◌, ◌≡◌, List, ◌∷◌}
use network_testing.Kernel.{Mem, Proc, done}
use network_testing.Pktgen.{hdr_size}
use network_testing.Sink.Params.{Sink}
use network_testing.Sink.Check.{Iov, check_pkt}
use network_testing.Sink.Check.Flat.{payload, headers, check_headers, capacity, IsRoomy}
use network_testing.Sink.Check.Refine.{check_pkt-check_packet}
use network_testing.Sink.Check.Setup.{
  settings, check_headers-same, IsChecking, check_packet-lenient,
}

-- At level 1 or 2, for every packet that fits into buckets of at least one header each,
-- `check_pkt` returns, whatever the packet holds, and has changed only the error statistics and
-- `last`, and none of the settings. Neither a TTL nor packet information nor a sender is asked for.
pub check_pkt-returns :
    (m : Mem) (b : Iov) (bs : List Iov) (len : ℕ) (s : Sink) (t : Proc)
    → IsRoomy (b ∷ bs)
    → len ≤ capacity (b ∷ bs)
    → len < 2 ^ 31
    → IsChecking s.p
    → (s' : Sink) × (check_pkt m (b ∷ bs) len s t ≡ done s' t) × (settings s'.p ≡ settings s.p)
check_pkt-returns m b bs len s t roomy fits small v =
    let hs = headers (len / hdr_size) (payload m (b ∷ bs)) in
    (
      check_headers hs s,
      rw (check_pkt-check_packet m b bs len s roomy fits small) (check_packet-lenient hs s t v),
      check_headers-same hs s,
    )
