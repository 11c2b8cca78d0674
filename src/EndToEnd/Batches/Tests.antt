-- ===== src/EndToEnd/Batches/Tests.antt =====
-- A flood of two packets that the sink takes from the queue with its second call.
use network_testing.Common.{
  ℕ, zero, suc, ◌-◌, ◌*◌, ◌<◌, ◌≡◌, refl, List, [], inl, inr, pos, ◌==◌, if◌then◌else◌, arith,
  pos_part,
}
use network_testing.Kernel.{Kernel, Rc, ret, err, Mem, Call, done, eagain}
use network_testing.Kernel.Tests.{idle, test_kernel, bare_message}
use network_testing.Kernel.Laws.{after_calls}
use network_testing.TimeBench.{zeroed}
use network_testing.Sink.Params.{Sink}
use network_testing.Sink.Check.{Iov}
use network_testing.Sink.Check.Flat.{payload, capacity}
use network_testing.Sink.Receive.Counts.{replies, returned, empty_queue}
use network_testing.Sink.Message.{buckets, bucket_size}
use network_testing.Sink.Recvmmsg.{recvmmsg_flags, sink_with_recv_mmsg}
use network_testing.Sink.Recvmmsg.Counts.{set_up, after_buffers}
use network_testing.Sink.Recvmmsg.Checks.{IsFitting}
use network_testing.Flood.Fill.Content.{stamped_buffer}
use network_testing.Flood.Send.Counts.{buffers, zeros}
use network_testing.EndToEnd.Samples.{checking_sink, checking, flood_kernel, steady, flat_payload}
use network_testing.EndToEnd.Batches.{Batch, Batches, flood-recv_mmsg}

abbrev iov : List Iov
iov =
    buckets 0 (bucket_size (checking_sink (pos 2)).p) (pos_part (checking_sink (pos 2)).p.iov_elems)

abbrev first_packet : Mem
first_packet = stamped_buffer flood_kernel 16 0 0 zeros

abbrev second_packet : Mem
second_packet = stamped_buffer flood_kernel 16 2 1 first_packet

abbrev both_at_once : ℕ → Rc
both_at_once t = if t == 36 then ret 2 else err eagain

abbrev sink_kernel : Kernel
sink_kernel = record (test_kernel both_at_once (λ _. zeros)) {
  message = λ _ i. bare_message (if i == 0 then first_packet else second_packet);
}

packet_payload : (m : Mem) (j : ℕ) → j < 16 → payload m iov j ≡ m j
packet_payload m j h = flat_payload (pos 2) m j (omega arith)

delivered : Batches sink_kernel iov 16 (buffers flood_kernel 16 2 0 0 zeros) 35 2
unfolding Batches Batch buffers
delivered = inl (
  refl,
  inr (
    2,
    [],
    refl,
    (refl, packet_payload first_packet, (refl, packet_payload second_packet, refl)),
    refl,
  ),
)

fitting : IsFitting sink_kernel iov
unfolding buckets capacity
fitting = record { fits = λ _ _. omega arith; small = λ _ _. omega arith; bare = λ _ _. refl }

one_call_short : (m : ℕ) → m < 2 → returned (replies both_at_once 35 m) < 2
unfolding replies returned
one_call_short zero h = omega arith
one_call_short (suc zero) h = omega arith
one_call_short (suc (suc m)) h = omega arith

flood-recv_mmsg_example :
    let k = checking_sink (pos 2) in
    let u = (set_up k.p idle).tick in
    (k' : Sink) × (sink_with_recv_mmsg sink_kernel 9 4 k zeroed idle
      ≡ done
          (
            (
              pos (2 - empty_queue (replies sink_kernel.rc u 2)),
              record zeroed {
                bytes = 2 * 16;
                try_again = empty_queue (replies sink_kernel.rc u 2);
              },
            ),
            k',
          )
          (after_calls (Call.recvmmsg 4 k.p.batch (recvmmsg_flags k.p)) 2 (set_up k.p idle)))
    × (k'.p ≡ k.p)
unfolding replies empty_queue set_up after_buffers
flood-recv_mmsg_example =
    flood-recv_mmsg flood_kernel sink_kernel 16 0 0 4 2 9 (checking_sink (pos 2)) zeroed idle
      (omega arith) (omega arith) (omega arith) fitting (λ _. refl) (checking (pos 2)) refl steady
      (omega arith) (omega arith) (omega arith) (omega arith) (omega arith) (inl refl)
      one_call_short delivered (omega arith)
