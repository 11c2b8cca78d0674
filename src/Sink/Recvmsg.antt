-- ===== src/Sink/Recvmsg.antt =====
-- udp_sink.c: `sink_with_recvmsg`.
pub mod Counts
pub mod Ends
use network_testing.Common.{
  ℕ, zero, suc, ◌+◌, ◌-◌, ◌==◌, if◌then◌else◌, List, ℤ, pos, pos_part, is_nonzero, add64, Bool,
  ◌||◌, true, false,
}
use network_testing.Kernel.{Kernel, Rc, ret, err, Call, M, pure, crash, ask, ◌>>=◌, ◌>>◌, eagain}
use network_testing.TimeBench.{TimeBench, malloc_payload_buffer}
use network_testing.Socket.{malloc_array}
use network_testing.Sink.Params.{Sink, SinkParams}
use network_testing.Sink.Check.{Iov, check_pkt}
use network_testing.Sink.Message.{check_msg_name, check_cmsg, buckets, bucket_size, reply}
use network_testing.Sink.Receive.{fail_sock, recv_flags, report}

-- `msg_iov`, its addresses counted from the start of the buffer. `msg_iov[0]` is set in any case.
abbrev pub msg_iov : SinkParams → List Iov
msg_iov p = buckets 0 (bucket_size p) (suc (pos_part p.iov_elems - 1))

module _ (K : Kernel) where
  pub recvmsg_loop : ℕ → ℕ → List Iov → ℕ → ℕ → Sink → TimeBench → M (ℕ × Sink × TimeBench)
  recvmsg_loop fd flags iov zero total k r = pure (total, k, r)
  recvmsg_loop fd flags iov (suc n) total k r = do
    res ← ask (reply K) (Call.recvmsg fd flags)
    elim res.0 [
      | ret len ↦ do
        k' ← check_pkt res.1.memory iov len k
        check_msg_name res.1 k.p.sender_addr
        check_cmsg res.1 k.p 512
        recvmsg_loop fd flags iov n (add64 total len) k' r
      | err e ↦
          if e == eagain
          then recvmsg_loop fd flags iov n total k (record r { try_again = add64 r.try_again 1 })
          else fail_sock K fd
    ]

  -- The receive loop and what follows it.
  pub receive_all : ℕ → Sink → TimeBench → M ((ℤ × TimeBench) × Sink)
  unfolding recvmsg_loop report
  receive_all fd k r = do
    let n = pos_part k.p.count
    (total, k', r') ← recvmsg_loop fd (recv_flags k.p) (msg_iov k.p) n 0 k r
    out ← report K n total r'
    pure (out, k')

  unfoldable pub sink_with_recvmsg : ℕ → Sink → TimeBench → M ((ℤ × TimeBench) × Sink)
  unfolding receive_all malloc_payload_buffer malloc_array
  sink_with_recvmsg fd k r = do
    malloc_payload_buffer K k.p.buf_sz
    malloc_array K
    malloc_array K
    if is_nonzero k.p.iov_elems then receive_all fd k r else crash
