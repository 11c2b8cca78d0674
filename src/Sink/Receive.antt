-- ===== src/Sink/Receive.antt =====
-- udp_sink.c: `sink_with_read`, `sink_with_recvfrom` and `sink_with_recv`.
pub mod Counts
use network_testing.Common.{
  ℕ, zero, suc, ◌+◌, ◌-◌, ◌%◌, ◌^◌, ◌==◌, ltb, if◌then◌else◌, ℤ, pos, pos_part, ltb_ℤ, is_nonzero,
  add64, sub64, signed32, Bool, true, false, ◌&&◌,
}
use network_testing.Kernel.{
  Kernel, Rc, ret, err, Call, Proc, M, Run, pure, exit, crash, ask, ◌>>=◌, ◌>>◌, exit_fail_sock,
  eagain,
}
use network_testing.TimeBench.{TimeBench, malloc_payload_buffer}
use network_testing.Socket.{close_fd}
use network_testing.Sink.Params.{SinkParams}

-- `p->dontwait ? MSG_DONTWAIT : 0`
abbrev pub recv_flags : SinkParams → ℕ
recv_flags p = if is_nonzero p.dontwait then 0x40 else 0

-- `return (i - r->try_again)`: computed as `uint64_t`, returned as `int`
abbrev pub packet_count : ℕ → ℕ → ℤ
packet_count i try_again = signed32 (sub64 i try_again % 2 ^ 32)

module _ (K : Kernel) where
  -- the label `error:`
  abbrev pub fail_sock : {A : Type 0} → ℕ → M A
  fail_sock fd = close_fd K fd >> exit exit_fail_sock

  -- `for (i = 0; i < p->count; i++)` around one call, with the rounds left.
  pub receive_loop : ℕ → Call → ℕ → ℕ → TimeBench → M (ℕ × TimeBench)
  receive_loop fd call zero total r = pure (total, r)
  receive_loop fd call (suc n) total r = do
    res ← ask K.rc call
    elim res [
      | ret k ↦ receive_loop fd call n (add64 total k) r
      | err e ↦
          if e == eagain
          then receive_loop fd call n total (record r { try_again = add64 r.try_again 1 })
          else fail_sock fd
    ]

  unfoldable pub sink_with_read : ℕ → SinkParams → TimeBench → M (ℤ × TimeBench)
  unfolding receive_loop malloc_payload_buffer
  sink_with_read fd p r = do
    malloc_payload_buffer K p.buf_sz
    let n = pos_part p.count
    (total, r') ← receive_loop fd (Call.read fd p.buf_sz) n 0 r
    pure (packet_count n r'.try_again, record r' { bytes = total })

  -- What `sink_with_recvfrom` and `sink_with_recv` do behind the loop: the message of the verbose
  -- mode divides by the rounds.
  unfoldable pub report : ℕ → ℕ → TimeBench → M (ℤ × TimeBench)
  report n total r s =
      if ltb_ℤ (pos 0) s.verbose && n == 0
      then crash s
      else pure (packet_count n r.try_again, record r { bytes = total }) s

  unfoldable pub sink_with_recvfrom : ℕ → SinkParams → TimeBench → M (ℤ × TimeBench)
  unfolding receive_loop report malloc_payload_buffer
  sink_with_recvfrom fd p r = do
    malloc_payload_buffer K p.buf_sz
    let n = pos_part p.count
    (total, r') ← receive_loop fd (Call.recvfrom fd p.buf_sz (recv_flags p)) n 0 r
    report n total r'

  unfoldable pub sink_with_recv : ℕ → SinkParams → TimeBench → M (ℤ × TimeBench)
  unfolding receive_loop report malloc_payload_buffer
  sink_with_recv fd p r = do
    malloc_payload_buffer K p.buf_sz
    let n = pos_part p.count
    (total, r') ← receive_loop fd (Call.recv fd p.buf_sz (recv_flags p)) n 0 r
    report n total r'
