-- ===== src/Flood/Send.antt =====
-- udp_flood.c: `flood_with_sendto`, `flood_with_send`, `flood_with_write`, `flood_with_sendmsg`.
pub mod Counts
use network_testing.Common.{
  ℕ, zero, suc, ◌+◌, Bool, true, false, if◌then◌else◌, Option, none, some, ℤ, pos, negsuc, pos_part,
  add64,
}
use network_testing.Kernel.{Kernel, Mem, Rc, ret, err, Call, M, pure, ask, ◌>>=◌, ◌>>◌}
use network_testing.TimeBench.{TimeBench, malloc_payload_buffer}
use network_testing.Socket.{sockaddr_len, malloc_array}
use network_testing.Flood.Params.{FloodParams}
use network_testing.Flood.Fill.{fill_buf}

-- What a flood function returns, with the record and the static `sequence`.
abbrev pub Flooded : Type 0
Flooded = (ℤ × TimeBench) × ℕ

module _ (K : Kernel) (p : FloodParams) where
  -- "Flood loop", with the rounds left. `stamped` says whether the loop calls `fill_buf`, and
  -- `send` makes the system call. The total is `none` if a call failed.
  pub flood_loop : Bool → (Mem → Call) → ℕ → ℕ → ℕ → Mem → M (Option ℕ × ℕ)
  flood_loop stamped send zero total seq m = pure (some total, seq)
  flood_loop stamped send (suc n) total seq m = do
    (m', seq') ← if stamped then fill_buf K p 0 p.msg_sz seq m else pure (m, seq)
    res ← ask K.rc (send m')
    elim res [
      | ret k ↦ flood_loop stamped send n (add64 total k) seq' m'
      | err _ ↦ pure (none, seq')
    ]

  -- Behind the loop: `r->bytes = total; res = cnt;`, or the -1 of the call that failed.
  pub flood_end : TimeBench → Option ℕ × ℕ → M Flooded
  flood_end r (some total, seq) = pure ((pos (pos_part p.count), record r { bytes = total }), seq)
  flood_end r (none, seq) = pure ((negsuc 0, r), seq)

  unfoldable pub flood_with_sendto : ℕ → TimeBench → ℕ → M Flooded
  unfolding flood_loop flood_end sockaddr_len malloc_payload_buffer
  flood_with_sendto fd r seq = do
    sockaddr_len p.dest_addr
    buf ← malloc_payload_buffer K p.msg_sz
    out ← flood_loop true (λ m. Call.sendto fd m p.msg_sz p.dest_addr) (pos_part p.count) 0 seq buf
    flood_end r out

  unfoldable pub flood_with_send : ℕ → TimeBench → ℕ → M Flooded
  unfolding flood_loop flood_end malloc_payload_buffer
  flood_with_send fd r seq = do
    buf ← malloc_payload_buffer K p.msg_sz
    out ← flood_loop false (λ m. Call.send fd m p.msg_sz) (pos_part p.count) 0 seq buf
    flood_end r out

  unfoldable pub flood_with_write : ℕ → TimeBench → ℕ → M Flooded
  unfolding flood_loop flood_end malloc_payload_buffer
  flood_with_write fd r seq = do
    buf ← malloc_payload_buffer K p.msg_sz
    out ← flood_loop true (λ m. Call.write fd m p.msg_sz) (pos_part p.count) 0 seq buf
    flood_end r out

  -- The io-vector has one bucket, the whole buffer.
  unfoldable pub flood_with_sendmsg : ℕ → TimeBench → ℕ → M Flooded
  unfolding flood_loop flood_end sockaddr_len malloc_payload_buffer malloc_array
  flood_with_sendmsg fd r seq = do
    sockaddr_len p.dest_addr
    buf ← malloc_payload_buffer K p.msg_sz
    malloc_array K
    malloc_array K
    out ← flood_loop true (λ m. Call.sendmsg fd m p.msg_sz) (pos_part p.count) 0 seq buf
    flood_end r out
