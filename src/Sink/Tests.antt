-- ===== src/Sink/Tests.antt =====
-- Runs of udp_sink.c on small inputs.
use network_testing.Common.{
  ◌&&◌, is_nonzero, true, false, ℕ, zero, suc, sum_range, ◌-◌, ◌/◌, ◌%◌, ◌^◌, ◌≤◌, ◌<◌, ◌≡◌, refl,
  [], ◌∷◌, ◌==◌, if◌then◌else◌, ltb, ℤ, pos, arith,
}
use network_testing.Kernel.{
  Message, Rc, ret, err, Mem, Call, done, exited, after, exit_fail_sock, eagain,
}
use network_testing.Kernel.Tests.{bare_message, idle, test_kernel}
use network_testing.Kernel.Laws.{after_calls}
use network_testing.TimeBench.{zeroed}
use network_testing.Pktgen.{hdr_size, pktgen_magic, htonl, hdr_byte, zero_hdr}
use network_testing.Sink.Params.{Sink, init_params}
use network_testing.Sink.Check.{Iov, check_pkt}
use network_testing.Sink.Check.Flat.{capacity, payload, headers, check_packet}
use network_testing.Sink.Check.Refine.{check_pkt-check_packet}
use network_testing.Sink.Check.Setup.{IsChecking, settings}
use network_testing.Sink.Check.Lenient.{check_pkt-returns}
use network_testing.Sink.Receive.{recv_flags, sink_with_read, sink_with_recvfrom, sink_with_recv}
use network_testing.Sink.Receive.Counts.{
  replies, until_failure, all_served, returned, received, empty_queue, counted, allocated,
  receive-counts, receive-fails,
}
use network_testing.Sink.Message.{check_cmsg, buckets}
use network_testing.Sink.Message.Control.{any_pktinfo, last_ttl, same, check_cmsg-accepts}
use network_testing.Sink.Message.Accept.{IsPlain}
use network_testing.Sink.Recvmsg.{msg_iov, sink_with_recvmsg}
use network_testing.Sink.Recvmsg.Counts.{packets, check_stream, recvmsg-checks}
use network_testing.Sink.Recvmmsg.{recvmmsg_flags, sink_with_recv_mmsg}
use network_testing.Sink.Recvmmsg.Loop.{message_bytes}
use network_testing.Sink.Recvmmsg.Counts.{set_up, after_buffers, recv_mmsg-counts}

abbrev header_bytes : Mem
header_bytes j =
    hdr_byte (record { pgh_magic = htonl pktgen_magic; seq_num = 7; tv_sec = 1; tv_usec = 2 })
      (j % hdr_size)

abbrev with_check : ℤ → Sink
with_check level = record {
  p = record init_params { check = level; count = pos 3 };
  last = zero_hdr;
}

abbrev odd_bucket : ℕ → Iov
odd_bucket base = record { base = base; len = 24 }

check_pkt-check_packet_example :
    check_pkt header_bytes (odd_bucket 0 ∷ odd_bucket 24 ∷ []) 40 (with_check (pos 2))
    ≡ check_packet
        (headers (40 / hdr_size) (payload header_bytes (odd_bucket 0 ∷ odd_bucket 24 ∷ [])))
        (with_check (pos 2))
unfolding capacity
check_pkt-check_packet_example =
    check_pkt-check_packet header_bytes (odd_bucket 0) (odd_bucket 24 ∷ []) 40 (with_check (pos 2))
      (omega arith, (omega arith, tt)) (omega arith) (omega arith)

-- Every second call finds the queue empty.
abbrev half_empty : ℕ → Rc
half_empty t = if t % 2 == 0 then err eagain else ret 100

receive-counts_example :
    let K = test_kernel half_empty (λ _. header_bytes) in
    let p = record init_params { count = pos 3 } in
    let rs = replies K.rc 1 3 in
    (sink_with_read K 4 p zeroed idle
      ≡ done (counted rs zeroed) (after_calls (Call.read 4 p.buf_sz) 3 (allocated idle)))
    × (sink_with_recvfrom K 4 p zeroed idle
        ≡ done
            (counted rs zeroed)
            (after_calls (Call.recvfrom 4 p.buf_sz (recv_flags p)) 3 (allocated idle)))
    × (sink_with_recv K 4 p zeroed idle
        ≡ done
            (counted rs zeroed)
            (after_calls (Call.recv 4 p.buf_sz (recv_flags p)) 3 (allocated idle)))
unfolding replies all_served returned
receive-counts_example =
    receive-counts (test_kernel half_empty (λ _. header_bytes)) 4 3
      (record init_params { count = pos 3 }) zeroed idle refl refl (omega arith) (omega arith) refl
      refl (omega arith)

-- The third call fails.
abbrev third_fails : ℕ → Rc
third_fails t = if ltb t 3 then ret 100 else err 111

receive-fails_run :
    let K = test_kernel third_fails (λ _. header_bytes) in
    let p = record init_params { count = pos 3 } in
    let rs = replies K.rc 1 3 in
    let gone =
      λ (c : Call). after (Call.close 4) (after_calls c (until_failure rs) (allocated idle)) in
    (sink_with_read K 4 p zeroed idle ≡ exited exit_fail_sock (gone (Call.read 4 p.buf_sz)))
    × (sink_with_recvfrom K 4 p zeroed idle
        ≡ exited exit_fail_sock (gone (Call.recvfrom 4 p.buf_sz (recv_flags p))))
    × (sink_with_recv K 4 p zeroed idle
        ≡ exited exit_fail_sock (gone (Call.recv 4 p.buf_sz (recv_flags p))))
unfolding replies all_served
receive-fails_run =
    receive-fails (test_kernel third_fails (λ _. header_bytes)) 4 3
      (record init_params { count = pos 3 }) zeroed idle refl refl refl

checking : IsChecking (with_check (pos 2)).p
checking = record {
  on = refl;
  lenient = refl;
  recv_ttl = refl;
  recv_pktinfo = refl;
  any_sender = refl;
}

check_pkt-returns_example :
    (s' : Sink) × (check_pkt header_bytes
        (odd_bucket 0 ∷ odd_bucket 24 ∷ [])
        40
        (with_check (pos 2))
        idle
      ≡ done s' idle)
    × (settings s'.p ≡ settings (with_check (pos 2)).p)
unfolding capacity
check_pkt-returns_example =
    check_pkt-returns header_bytes (odd_bucket 0) (odd_bucket 24 ∷ []) 40 (with_check (pos 2)) idle
      (omega arith, (omega arith, tt)) (omega arith) (omega arith) checking

half_empty-small : (t len : ℕ) → half_empty t ≡ ret len → len ≡ 100
half_empty-small t len e = ground arith

half_empty-fits :
    (t len : ℕ)
    → half_empty t ≡ ret len
    → (len ≤ capacity (msg_iov (with_check (pos 2)).p)) × (len < 2 ^ 31)
unfolding capacity buckets
half_empty-fits t len e = let small = half_empty-small t len e in (omega arith, omega arith)

recvmsg-checks_example :
    let K = test_kernel half_empty (λ _. header_bytes) in
    let k = with_check (pos 2) in
    let rs = replies K.rc 3 3 in
    sink_with_recvmsg K 4 k zeroed idle
    ≡ done
        (
          (pos (received rs), record zeroed { bytes = returned rs; try_again = empty_queue rs }),
          check_stream (packets K (msg_iov k.p) 3 3) k,
        )
        (after_calls
          (Call.recvmsg 4 (recv_flags k.p))
          3
          (after Call.malloc (after Call.malloc (after Call.malloc idle))))
unfolding replies all_served returned
recvmsg-checks_example =
    recvmsg-checks (test_kernel half_empty (λ _. header_bytes)) 4 (with_check (pos 2)) zeroed idle
      (omega arith) (omega arith) refl (omega arith) half_empty-fits (λ _. refl) (λ _. refl)
      checking refl refl (omega arith)

-- The first call finds no packet, the second gives two, the third the last.
abbrev by_two : ℕ → Rc
by_two t = if t == 35 then err eagain else if t == 36 then ret 2 else ret 1

short_until : (m : ℕ) → m < 3 → returned (replies by_two 35 m) < 3
unfolding replies returned
short_until zero h = omega arith
short_until (suc zero) h = omega arith
short_until (suc (suc zero)) h = omega arith
short_until (suc (suc (suc m))) h = omega arith

plain : IsPlain (with_check (pos 0)).p
plain = record { recv_ttl = refl; recv_pktinfo = refl; any_sender = refl }

recv_mmsg-counts_run :
    let K = test_kernel by_two (λ _. header_bytes) in
    let k = with_check (pos 0) in
    let t = (set_up k.p idle).tick in
    let rs = replies K.rc t 3 in
    sink_with_recv_mmsg K 9 4 k zeroed idle
    ≡ done
        (
          (
            pos (returned rs - empty_queue rs),
            record zeroed { bytes = message_bytes K t 3; try_again = empty_queue rs },
          ),
          k,
        )
        (after_calls (Call.recvmmsg 4 k.p.batch (recvmmsg_flags k.p)) 3 (set_up k.p idle))
unfolding replies all_served returned empty_queue set_up after_buffers message_bytes sum_range
recv_mmsg-counts_run =
    recv_mmsg-counts (test_kernel by_two (λ _. header_bytes)) 4 (with_check (pos 0)) refl plain
      (λ _ _. refl) 3 9 zeroed idle (omega arith) refl (λ _. refl) refl short_until (omega arith)
      refl (omega arith) (omega arith) (omega arith) (omega arith)

-- A message with a TTL of 64, where packet information was not asked for.
abbrev with_ttl : Message
with_ttl = record (bare_message header_bytes) {
  controllen = 24;
  control = record { level = 0; kind = 2; len = 20; value = pos 64 } ∷ [];
}

check_cmsg-accepts_example :
    check_cmsg with_ttl (record init_params { recv_ttl = pos 1 }) 512 idle ≡ (
      if same true (is_nonzero (last_ttl with_ttl.control (pos 0)))
        && same false (any_pktinfo with_ttl.control)
      then done tt idle
      else exited exit_fail_sock idle)
check_cmsg-accepts_example =
    check_cmsg-accepts with_ttl (record init_params { recv_ttl = pos 1 }) 512 true false idle refl
      refl refl (omega arith)
