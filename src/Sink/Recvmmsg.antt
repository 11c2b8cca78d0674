-- ===== src/Sink/Recvmmsg.antt =====
-- udp_sink.c: `sink_with_recv_mmsg`, which takes several packets from the queue with one call.
pub mod Loop
pub mod Counts
pub mod Checks
pub mod Ends
mod Tests
use network_testing.Common.{
  ℕ, zero, suc, ◌+◌, ◌-◌, ◌*◌, ◌%◌, ◌^◌, ◌==◌, ltb, leb, if◌then◌else◌, List, ℤ, pos, negsuc,
  pos_part, is_nonzero, add64, sub64, signed32, Bool, true, false, ◌||◌, ◌||◌,
}
use network_testing.Kernel.{
  Kernel, Rc, ret, err, Call, Message, after, M, pure, crash, ask, ◌>>=◌, ◌>>◌, eagain, out_of_fuel,
}
use network_testing.TimeBench.{TimeBench, malloc_payload_buffer}
use network_testing.Socket.{malloc_array}
use network_testing.Sink.Params.{Sink, SinkParams}
use network_testing.Sink.Check.{Iov, check_pkt}
use network_testing.Sink.Message.{check_msg_name, check_cmsg, buckets, bucket_size, replies}
use network_testing.Sink.Receive.{fail_sock, recv_flags, packet_count}

-- `flags |= p->waitforone ? MSG_WAITFORONE : 0`
abbrev pub recvmmsg_flags : SinkParams → ℕ
recvmmsg_flags p = recv_flags p + (if is_nonzero p.waitforone then 0x10000 else 0)

-- The messages `pkt`, `pkt + 1`, … of one call, `n` of them.
pub take_messages : (ℕ → Message) → List Iov → ℕ → ℕ → ℕ → Sink → M (ℕ × Sink)
take_messages msg iov pkt zero total k = pure (total, k)
take_messages msg iov pkt (suc n) total k = do
  k' ← check_pkt (msg pkt).memory iov (msg pkt).len k
  check_msg_name (msg pkt) k.p.sender_addr
  check_cmsg (msg pkt) k.p 512
  take_messages msg iov (pkt + 1) n (add64 total (msg pkt).len) k'

-- `p->bad_addr && (pkt == (p->bad_addr - 1))`
abbrev pub is_bad : ℤ → ℕ → Bool
is_bad (pos b) pkt = b == pkt + 1
is_bad (negsuc b) pkt = false

-- A buffer for each packet but that of `--use-bad-ptr`. `malloc` is not checked here.
pub malloc_buffers : ℕ → ℤ → ℕ → M (Unit {0})
malloc_buffers zero bad_addr pkt s = pure tt s
malloc_buffers (suc n) bad_addr pkt s =
    malloc_buffers n bad_addr (pkt + 1) (if is_bad bad_addr pkt then s else after Call.malloc s)

module _ (K : Kernel) where
  -- `for (cnt = 0; cnt < p->count; )`. A call that finds no packet leaves `cnt` as it is.
  pub recvmmsg_loop : ℕ → ℕ → List Iov → ℕ → ℕ → Sink → TimeBench → M (ℕ × ℕ × Sink × TimeBench)
  recvmmsg_loop zero fd iov cnt total k r = out_of_fuel
  recvmmsg_loop (suc fuel) fd iov cnt total k r = elim (ltb cnt (pos_part k.p.count)) [
    | false ↦ pure (cnt, total, k, r)
    | true ↦ do
      res ← ask (replies K) (Call.recvmmsg fd k.p.batch (recvmmsg_flags k.p))
      elim res.0 [
        | ret n ↦ do
          (total', k') ← take_messages res.1 iov 0 n total k
          recvmmsg_loop fuel fd iov (cnt + n) total' k' r
        | err e ↦
            if e == eagain
            then recvmmsg_loop fuel fd iov cnt total k
                (record r { try_again = add64 r.try_again 1 })
            else fail_sock K fd
      ]
  ]

  -- The loop over the packets that sets up the io-vectors, the receive loop, and the result.
  pub receive_all : ℕ → ℕ → Sink → TimeBench → M ((ℤ × TimeBench) × Sink)
  unfolding recvmmsg_loop take_messages malloc_buffers
  receive_all fuel fd k r = do
    malloc_buffers (pos_part k.p.batch) k.p.bad_addr 0
    let iov = buckets 0 (bucket_size k.p) (pos_part k.p.iov_elems)
    (cnt, total, k', r') ← recvmmsg_loop fuel fd iov 0 0 k r
    pure ((packet_count cnt r'.try_again, record r' { bytes = total }), k')

  unfoldable pub sink_with_recv_mmsg : ℕ → ℕ → Sink → TimeBench → M ((ℤ × TimeBench) × Sink)
  unfolding receive_all malloc_payload_buffer malloc_array
  sink_with_recv_mmsg fuel fd k r = do
    malloc_payload_buffer K k.p.buf_sz
    malloc_array K
    malloc_array K
    if is_nonzero k.p.iov_elems || leb (pos_part k.p.batch) 0
        then receive_all fuel fd k r
        else crash
