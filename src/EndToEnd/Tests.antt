-- ===== src/EndToEnd/Tests.antt =====
-- A flood of two packets and the sink that receives them.
use network_testing.Common.{
  ℕ, ◌+◌, ◌-◌, ◌/◌, ◌%◌, ◌*◌, ◌^◌, ◌≤◌, ◌<◌, ◌≡◌, refl, ap, [], ◌∷◌, inl, pos, map, ◌==◌,
  if◌then◌else◌, arith,
}
use network_testing.Kernel.{Kernel, ret, Mem, Call, done, exited, after, exit_fail_recv}
use network_testing.Kernel.Tests.{idle, test_kernel}
use network_testing.Kernel.Laws.{after_calls}
use network_testing.TimeBench.{zeroed}
use network_testing.Pktgen.{PktgenHdr, hdr_size, hdr_byte, htonl, hdr_of}
use network_testing.Sink.Params.{Sink, init_params}
use network_testing.Sink.Check.{Iov, check_pkt}
use network_testing.Sink.Check.Flat.{payload, capacity}
use network_testing.Sink.Message.{buckets}
use network_testing.Sink.Receive.{recv_flags}
use network_testing.Sink.Recvmsg.{msg_iov, sink_with_recvmsg}
use network_testing.Sink.Recvmsg.Counts.{check_stream}
use network_testing.Flood.Fill.Content.{copies, stamped_buffer, stamp-IsHdr}
use network_testing.Flood.Send.Counts.{buffers, zeros}
use network_testing.EndToEnd.Samples.{checking_sink, checking, flood_kernel, steady, flat_payload}
use network_testing.EndToEnd.Stream.{stamps, check_stream-stamps}
use network_testing.EndToEnd.Delivery.{Delivered, flood-sink}
use network_testing.EndToEnd.Damage.{damaged_blocks, check_pkt-damaged}
use network_testing.Flood.Fill.{stamp}
use network_testing.EndToEnd.Loss.{check_pkt-gap}

abbrev flood_packet : Mem
flood_packet = stamped_buffer flood_kernel 20 0 0 zeros

abbrev second_packet : Mem
second_packet = stamped_buffer flood_kernel 20 2 1 flood_packet

-- The calls 3 and 4 of the sink receive the two packets.
abbrev sink_kernel : Kernel
sink_kernel = test_kernel (λ _. ret 20) (λ t. if t == 3 then flood_packet else second_packet)

packet_payload : (m : Mem) (j : ℕ) → j < 20 → payload m (msg_iov (checking_sink (pos 2)).p) j ≡ m j
packet_payload m j h = flat_payload (pos 2) m j (omega arith)

delivered :
    Delivered sink_kernel
      (msg_iov (checking_sink (pos 2)).p)
      20
      (buffers flood_kernel 20 2 0 0 zeros)
      3
unfolding Delivered buffers
delivered = (refl, packet_payload flood_packet, (refl, packet_payload second_packet, tt))

packets_fit :
    (t len : ℕ)
    → sink_kernel.rc t ≡ ret len
    → (len ≤ capacity (msg_iov (checking_sink (pos 2)).p)) × (len < 2 ^ 31)
unfolding capacity buckets
packets_fit t len e = (ground arith, ground arith)

flood-sink_example :
    (k' : Sink) × (sink_with_recvmsg sink_kernel 4 (checking_sink (pos 2)) zeroed idle
      ≡ done
          ((pos 2, record zeroed { bytes = 2 * 20; try_again = 0 }), k')
          (after_calls
            (Call.recvmsg 4 (recv_flags (checking_sink (pos 2)).p))
            2
            (after Call.malloc (after Call.malloc (after Call.malloc idle)))))
    × (k'.p ≡ (checking_sink (pos 2)).p)
flood-sink_example =
    flood-sink flood_kernel sink_kernel 20 0 0 4 (checking_sink (pos 2)) zeroed idle (omega arith)
      (omega arith) refl (omega arith) packets_fit (λ _. refl) (λ _. refl) (checking (pos 2)) refl
      steady (omega arith) (omega arith) (omega arith) (inl refl) delivered

check_stream-stamps_example :
    (check_stream (map (copies 2) (stamps flood_kernel 3 0 7)) (checking_sink (pos 2))).p
    ≡ (checking_sink (pos 2)).p
check_stream-stamps_example =
    check_stream-stamps flood_kernel 1 3 0 7 (checking_sink (pos 2)) steady (omega arith) (inl refl)

-- The sink has seen packet 1, and now gets packet 5.
abbrev strict_sink : Sink
strict_sink = record {
  p = record init_params { check = pos 3 };
  last = record { pgh_magic = 7; seq_num = 1; tv_sec = 0; tv_usec = 0 };
}

abbrev bucket : Iov
bucket = record { base = 0; len = 64 }

abbrev late_packet : Mem
late_packet j = if j == 4 then 5 else 0

check_pkt-gap_example :
    check_pkt late_packet (bucket ∷ []) 20 strict_sink idle ≡ exited exit_fail_recv idle
unfolding capacity payload hdr_of
check_pkt-gap_example =
    check_pkt-gap late_packet bucket [] 20 strict_sink idle (omega arith, tt) (omega arith)
      (omega arith) refl (omega arith) (omega arith) (omega arith)

-- The second packet of the flood, with a byte changed in the second header and in the third.
abbrev due : PktgenHdr
due = stamp (record { sec = 9; nsec = 5000 }) 1

abbrev damaged_packet : Mem
damaged_packet j = if j == 20 then 9 else if j == 47 then 9 else hdr_byte due (j % hdr_size)

hdr_byte-lt : (h : PktgenHdr) (j : ℕ) → hdr_byte h j < 256
unfolding hdr_byte
hdr_byte-lt h j = ground arith

first_header : (j : ℕ) → j < hdr_size → payload damaged_packet (bucket ∷ []) j ≡ hdr_byte due j
unfolding payload
first_header j h = let e : j % hdr_size ≡ j = omega arith in ground (arith, ap (hdr_byte due) e)

all_bytes : (j : ℕ) → j < 64 → payload damaged_packet (bucket ∷ []) j < 256
unfolding payload
all_bytes j h = ground (arith, hdr_byte-lt due (j % hdr_size))

check_pkt-damaged_example :
    let f = payload damaged_packet (bucket ∷ []) in
    let s = checking_sink (pos 2) in
    check_pkt damaged_packet (bucket ∷ []) 64 s idle
    ≡ done
        (record s {
          p = record s.p {
            bad_repeat =
                s.p.bad_repeat + damaged_blocks due (64 / hdr_size - 1) (λ j. f (hdr_size + j));
          };
          last = due;
        })
        idle
unfolding capacity payload stamp
check_pkt-damaged_example =
    check_pkt-damaged damaged_packet bucket [] 64 due (checking_sink (pos 2)) idle (omega arith, tt)
      (omega arith) (omega arith) refl (stamp-IsHdr flood_kernel 0 1 (omega arith)) refl (inl refl)
      (omega arith) first_header all_bytes

damaged_blocks_two :
    damaged_blocks due
      (64 / hdr_size - 1)
      (λ j. payload damaged_packet (bucket ∷ []) (hdr_size + j))
    ≡ 2
unfolding damaged_blocks payload stamp hdr_byte htonl
damaged_blocks_two = refl
