-- ===== src/EndToEnd/AnyOrder/Arrives/Tests.antt =====
-- A flood of three packets: the last comes first, the first twice behind it, and one is lost.
use network_testing.Common.{
  ℕ, ◌+◌, ◌*◌, ◌<◌, ◌≡◌, refl, List, [], ◌∷◌, get_or, pos, ◌==◌, if◌then◌else◌, arith,
}
use network_testing.Kernel.{Kernel, ret, Mem, Call, done, after}
use network_testing.Kernel.Tests.{idle, test_kernel}
use network_testing.Kernel.Laws.{after_calls}
use network_testing.TimeBench.{zeroed}
use network_testing.Sink.Params.{Sink}
use network_testing.Sink.Check.Flat.{capacity, payload}
use network_testing.Sink.Message.{buckets}
use network_testing.Sink.Receive.{recv_flags}
use network_testing.Sink.Recvmsg.{msg_iov, sink_with_recvmsg}
use network_testing.Sink.Recvmsg.Counts.{AllFit}
use network_testing.Flood.Send.Counts.{buffers, zeros}
use network_testing.EndToEnd.Samples.{checking_sink, checking, flood_kernel, steady, flat_payload}
use network_testing.EndToEnd.AnyOrder.{descents}
use network_testing.EndToEnd.AnyOrder.Arrives.{Arrives, flood-any_order}

abbrev three_packets : List Mem
three_packets = buffers flood_kernel 20 3 0 0 zeros

abbrev sink_kernel : Kernel
sink_kernel = test_kernel (λ _. ret 20) (λ t. get_or three_packets (if t == 3 then 2 else 0) zeros)

arrived :
    Arrives sink_kernel (msg_iov (checking_sink (pos 3)).p) 20 three_packets (2 ∷ 0 ∷ 0 ∷ []) 3
unfolding Arrives
arrived = (refl, came 2, (refl, came 0, (refl, came 0, tt)))
  where
    came :
        (i j : ℕ)
        → j < 20
        → payload (get_or three_packets i zeros) (msg_iov (checking_sink (pos 3)).p) j
          ≡ get_or three_packets i zeros j
    came i j h = flat_payload (pos 3) (get_or three_packets i zeros) j (omega arith)

packets_fit : AllFit sink_kernel (msg_iov (checking_sink (pos 3)).p)
unfolding capacity buckets
packets_fit t len e = (ground arith, ground arith)

descents_one : descents 2 (0 ∷ 0 ∷ []) ≡ 1
unfolding descents
descents_one = refl

flood-any_order_example :
    let k = checking_sink (pos 3) in
    (k' : Sink) × (sink_with_recvmsg sink_kernel 4 k zeroed idle
      ≡ done
          ((pos (3), record zeroed { bytes = 3 * 20; try_again = 0 }), k')
          (after_calls
            (Call.recvmsg 4 (recv_flags k.p))
            3
            (after Call.malloc (after Call.malloc (after Call.malloc idle)))))
    × (k'.p ≡ record k.p { ooo = k.p.ooo + descents 2 (0 ∷ 0 ∷ []) })
flood-any_order_example =
    flood-any_order flood_kernel sink_kernel 20 3 0 0 4 2 (0 ∷ 0 ∷ []) (checking_sink (pos 3))
      zeroed idle refl (omega arith) refl (omega arith) packets_fit (λ _. refl) (λ _. refl)
      (checking (pos 3)) refl steady (omega arith) (omega arith) (omega arith) refl (omega arith)
      arrived
