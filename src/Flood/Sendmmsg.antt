-- ===== src/Flood/Sendmmsg.antt =====
-- udp_flood.c: `flood_with_send_mmsg`, which hands the kernel a batch of packets with one call.
pub mod Counts
pub mod Numbers
mod Tests
use network_testing.Common.{
  ℕ, zero, suc, ◌+◌, ◌-◌, ◌*◌, ◌/◌, ◌%◌, ◌^◌, Bool, true, false, not, ◌&&◌, leb, is_neg, ◌==◌,
  if◌then◌else◌, Option, none, some, ℤ, pos, negsuc, pos_part, is_nonzero, add64, to_u64, to_int,
  quot_ℤ, div_ℤ, ◌*ℤ◌, ◌-ℤ◌, ◌+ℤ◌,
}
use network_testing.Kernel.{Kernel, Mem, Rc, ret, err, Call, M, pure, crash, ask, ◌>>=◌, ◌>>◌}
use network_testing.TimeBench.{TimeBench, malloc_payload_buffer}
use network_testing.Socket.{sockaddr_len, malloc_array}
use network_testing.Flood.Params.{FloodParams}
use network_testing.Flood.Fill.{fill_buf}
use network_testing.Flood.Send.{Flooded}

module _ (K : Kernel) (p : FloodParams) where
  -- The bytes of the buffer, as an `int`.
  abbrev pub total_size : ℤ
  total_size = to_int (p.batch *ℤ p.msg_sz)

  -- `pkt * p->msg_sz`, an `int` that may overflow
  abbrev pub offset : ℕ → ℤ
  offset pkt = to_int (pos pkt *ℤ p.msg_sz)

  -- The packet lies within the buffer.
  abbrev pub is_inside : ℕ → Bool
  is_inside pkt =
      not (is_neg (offset pkt))
      && leb (pos_part (offset pkt) + pos_part p.msg_sz) (pos_part total_size)

  -- `for (pkt = 0; pkt < p->batch; pkt++) fill_buf(…)`, with the packets left. A packet that is
  -- filled outside of the buffer is modelled as a crash.
  pub fill_batch : ℕ → ℕ → ℕ → Mem → M (Mem × ℕ)
  fill_batch zero pkt seq m = pure (m, seq)
  fill_batch (suc n) pkt seq m = elim (is_inside pkt) [
    | false ↦ crash
    | true ↦ do
      (m', seq') ← fill_buf K p (pos_part (offset pkt)) p.msg_sz seq m
      fill_batch n (pkt + 1) seq' m'
  ]

  abbrev pub fill_if_asked : ℕ → Mem → M (Mem × ℕ)
  fill_if_asked seq m =
      if is_nonzero p.pktgen_hdr then fill_batch (pos_part p.batch) 0 seq m else pure (m, seq)

  -- "Flood loop" over the whole batches.
  pub batch_loop : ℕ → ℕ → ℕ → ℕ → Mem → M (Option ℕ × Mem × ℕ)
  batch_loop fd zero total seq m = pure (some total, m, seq)
  batch_loop fd (suc n) total seq m = do
    (m', seq') ← fill_if_asked seq m
    res ← ask K.rc (Call.sendmmsg fd m' p.batch)
    elim res [
      | ret k ↦ batch_loop fd n (add64 total (to_u64 (to_int (pos k *ℤ p.msg_sz)))) seq' m'
      | err _ ↦ pure (none, m', seq')
    ]

  -- The rest that fills no batch. Its bytes are not added to the total.
  pub send_last : ℕ → ℤ → TimeBench → Option ℕ × Mem × ℕ → M Flooded
  send_last fd last r (none, m, seq) = pure ((negsuc 0, r), seq)
  send_last fd last r (some total, m, seq) =
      let r' = record r { bytes = total } in
      if is_nonzero last
      then (do
        (m', seq') ← fill_if_asked seq m
        res ← ask K.rc (Call.sendmmsg fd m' last)
        elim res [ ret _ ↦ pure ((p.count, r'), seq') | err _ ↦ pure ((negsuc 0, r'), seq') ])
      else pure ((p.count, r'), seq)

  abbrev pub batches : ℤ
  batches = div_ℤ p.count p.batch

  -- `p->count / p->batch` traps if `batch` is 0.
  unfoldable pub flood_with_send_mmsg : ℕ → TimeBench → ℕ → M Flooded
  unfolding batch_loop send_last sockaddr_len malloc_payload_buffer malloc_array
  flood_with_send_mmsg fd r seq =
      if is_nonzero p.batch
      then (do
        sockaddr_len p.dest_addr
        buf ← malloc_payload_buffer K total_size
        malloc_array K
        malloc_array K
        out ← batch_loop fd (pos_part batches) 0 seq buf
        send_last fd (p.count -ℤ batches *ℤ p.batch) r out)
      else crash
