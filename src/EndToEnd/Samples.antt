-- ===== src/EndToEnd/Samples.antt =====
-- A flood whose clock stands still and a sink that checks it, for the runs of the tests.
use network_testing.Common.{ℕ, ◌<◌, ◌≡◌, refl, ap, true, ltb, some, inr, ℤ, pos, arith}
use network_testing.Kernel.{Kernel, Mem, ret}
use network_testing.Kernel.Tests.{test_kernel}
use network_testing.Pktgen.{zero_hdr}
use network_testing.Sink.Params.{Sink, init_params}
use network_testing.Sink.Check.Flat.{payload}
use network_testing.Sink.Check.Setup.{IsChecking}
use network_testing.Sink.Message.{buckets}
use network_testing.Sink.Recvmsg.{msg_iov}
use network_testing.Flood.Send.Counts.{zeros}
use network_testing.EndToEnd.Stream.{IsSteady}

-- At level 2, with the count of packets.
abbrev pub checking_sink : ℤ → Sink
checking_sink n = record { p = record init_params { check = pos 2; count = n }; last = zero_hdr }

pub checking : (n : ℤ) → IsChecking (checking_sink n).p
checking n = record {
  on = refl;
  lenient = refl;
  recv_ttl = refl;
  recv_pktinfo = refl;
  any_sender = refl;
}

-- The clock stands still at 9 seconds.
abbrev pub flood_kernel : Kernel
flood_kernel = record (test_kernel (λ _. ret 20) (λ _. zeros)) {
  clock = λ _. some (record { sec = 9; nsec = 5000 });
}

pub steady : IsSteady flood_kernel
steady = record {
  sec = λ _. omega arith;
  nsec = λ _. omega arith;
  forward = λ _. inr (refl, omega arith);
}

pub flat_payload :
    (n : ℤ) (m : Mem) (j : ℕ) → j < 4096 → payload m (msg_iov (checking_sink n).p) j ≡ m j
unfolding payload buckets
flat_payload n m j h =
    let inside : ltb j 4096 ≡ true = ground arith in rw inside (ap m (omega arith))
