-- ===== src/Sink/Recvmmsg/Tests.antt =====
-- A run of `sink_with_recv_mmsg` that checks three packets: the first call finds none, the second
-- gives two, the third the last.
use network_testing.Common.{
  ℕ, zero, suc, ◌-◌, ◌%◌, ◌<◌, ◌≡◌, refl, ◌==◌, if◌then◌else◌, pos, arith, sum_range, pos_part,
}
use network_testing.Kernel.{Kernel, Rc, ret, err, Call, done, eagain}
use network_testing.Kernel.Tests.{idle, test_kernel}
use network_testing.Kernel.Laws.{after_calls}
use network_testing.TimeBench.{zeroed}
use network_testing.Pktgen.{hdr_size, pktgen_magic, htonl, hdr_byte, zero_hdr}
use network_testing.Sink.Params.{Sink, init_params}
use network_testing.Sink.Check.Flat.{capacity}
use network_testing.Sink.Check.Setup.{IsChecking}
use network_testing.Sink.Receive.Counts.{replies, all_served, returned, empty_queue}
use network_testing.Sink.Message.{buckets, bucket_size}
use network_testing.Sink.Recvmsg.Counts.{check_stream}
use network_testing.Sink.Recvmmsg.{recvmmsg_flags, sink_with_recv_mmsg}
use network_testing.Sink.Recvmmsg.Loop.{message_bytes}
use network_testing.Sink.Recvmmsg.Counts.{set_up, after_buffers}
use network_testing.Sink.Recvmmsg.Checks.{IsFitting, all_packets, recv_mmsg-checks}

abbrev calls_of_two : ℕ → Rc
calls_of_two t = if t == 35 then err eagain else if t == 36 then ret 2 else ret 1

abbrev kernel : Kernel
kernel = test_kernel calls_of_two (λ _ j.
    hdr_byte (record { pgh_magic = htonl pktgen_magic; seq_num = 7; tv_sec = 1; tv_usec = 2 })
      (j % hdr_size))

abbrev checking_sink : Sink
checking_sink = record { p = record init_params { check = pos 2; count = pos 3 }; last = zero_hdr }

checking : IsChecking checking_sink.p
checking = record {
  on = refl;
  lenient = refl;
  recv_ttl = refl;
  recv_pktinfo = refl;
  any_sender = refl;
}

fitting :
    IsFitting kernel (buckets 0 (bucket_size checking_sink.p) (pos_part checking_sink.p.iov_elems))
unfolding buckets capacity
fitting = record { fits = λ _ _. omega arith; small = λ _ _. omega arith; bare = λ _ _. refl }

two_calls_short : (m : ℕ) → m < 3 → returned (replies calls_of_two 35 m) < 3
unfolding replies returned
two_calls_short zero h = omega arith
two_calls_short (suc zero) h = omega arith
two_calls_short (suc (suc zero)) h = omega arith
two_calls_short (suc (suc (suc m))) h = omega arith

recv_mmsg-checks_example :
    let k = checking_sink in
    let iov = buckets 0 (bucket_size k.p) (pos_part k.p.iov_elems) in
    let t = (set_up k.p idle).tick in
    let rs = replies kernel.rc t 3 in
    sink_with_recv_mmsg kernel 9 4 k zeroed idle
    ≡ done
        (
          (
            pos (returned rs - empty_queue rs),
            record zeroed { bytes = message_bytes kernel t 3; try_again = empty_queue rs },
          ),
          check_stream (all_packets kernel iov t 3) k,
        )
        (after_calls (Call.recvmmsg 4 k.p.batch (recvmmsg_flags k.p)) 3 (set_up k.p idle))
unfolding replies all_served returned empty_queue set_up after_buffers message_bytes sum_range
recv_mmsg-checks_example =
    recv_mmsg-checks kernel 4 checking_sink 3 9 zeroed idle (omega arith) (omega arith)
      (omega arith) fitting (λ _. refl) checking refl two_calls_short (omega arith) refl
      (omega arith) (omega arith) (omega arith) (omega arith)
