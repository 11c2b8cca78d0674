-- ===== src/Flood/Send/Counts.antt =====
-- What the flood loops count and send.
use network_testing.Common.{
  ℕ, zero, suc, ◌+◌, ◌%◌, ◌^◌, ◌<◌, ◌≡◌, List, [], ◌∷◌, Bool, true, false, none, some, pos,
  pos_part, is_nonzero, add64, arith, ◌⊎◌, inl, inr,
}
use network_testing.Kernel.{
  Kernel, Mem, Rc, ret, err, Call, Proc, Run, and_then, done, after, af_inet, af_inet6,
}
use network_testing.Kernel.Laws.{Rc-cases}
use network_testing.TimeBench.{TimeBench}
use network_testing.Socket.Wrappers.{sockaddr_len-inet}
use network_testing.Flood.Params.{FloodParams}
use network_testing.Flood.Fill.Content.{stamped_buffer, fill_buf-stamped}
use network_testing.Flood.Send.{
  Flooded, flood_loop, flood_end, flood_with_sendto, flood_with_write, flood_with_sendmsg,
}

-- The buffers of `n` stamped packets, from the call `t` on: each packet takes a call of the clock
-- and one that sends it.
unfoldable pub buffers : Kernel → ℕ → ℕ → ℕ → ℕ → Mem → List Mem
buffers K len zero t seq m = []
buffers K len (suc n) t seq m =
    let m' = stamped_buffer K len t seq m in
    m' ∷ buffers K len n (t + 1 + 1) ((seq + 1) % 2 ^ 32) m'

-- the results of the sends among those calls, and the process behind them
unfoldable pub send_results : Kernel → ℕ → ℕ → List Rc
send_results K zero t = []
send_results K (suc n) t = K.rc (t + 1) ∷ send_results K n (t + 1 + 1)

unfoldable pub after_sends : (Mem → Call) → List Mem → Proc → Proc
after_sends send [] s = s
after_sends send (m ∷ ms) s = after_sends send ms (after (send m) (after Call.clock_gettime s))

-- every send went through, and the bytes sent
unfoldable pub all_sent : List Rc → Bool
all_sent [] = true
all_sent (ret k ∷ rs) = all_sent rs
all_sent (err e ∷ rs) = false

unfoldable pub sent_bytes : List Rc → ℕ
sent_bytes [] = 0
sent_bytes (ret k ∷ rs) = k + sent_bytes rs
sent_bytes (err e ∷ rs) = sent_bytes rs

-- the number behind `n` packets
unfoldable pub seq_after : ℕ → ℕ → ℕ
seq_after zero seq = seq
seq_after (suc n) seq = seq_after n ((seq + 1) % 2 ^ 32)

module _ (K : Kernel) (p : FloodParams) (on : is_nonzero p.pktgen_hdr ≡ true)
    (send : Mem → Call) where
  loop-sends :
      (n total seq : ℕ) (m : Mem) (s : Proc)
      → all_sent (send_results K n s.tick) ≡ true
      → total + sent_bytes (send_results K n s.tick) < 2 ^ 64
      → flood_loop K p true send n total seq m s
        ≡ done
            (some (total + sent_bytes (send_results K n s.tick)), seq_after n seq)
            (after_sends send (buffers K (pos_part p.msg_sz) n s.tick seq m) s)
  unfolding flood_loop buffers send_results after_sends all_sent sent_bytes seq_after
  loop-sends zero total seq m s sent small = let e : total + 0 ≡ total = omega arith in rw e
  loop-sends (suc n) total seq m s sent small =
      let m' = stamped_buffer K (pos_part p.msg_sz) s.tick seq m in
      rw (fill_buf-stamped K p p.msg_sz seq m s on, flood_loop)
        (elim (Rc-cases (K.rc (s.tick + 1))) [
          | inl (k, e) ↦ rw e (
              ground (
                arith,
                e,
                loop-sends n (add64 total k) ((seq + 1) % 2 ^ 32) m'
                    (after (send m') (after Call.clock_gettime s)),
              ))
          | inr (c, e) ↦ ground arith
        ])

  -- The first send that fails ends the loop.
  pub loop-fails :
      (n total seq : ℕ) (m : Mem) (s : Proc)
      → all_sent (send_results K n s.tick) ≡ false
      → (seq' : ℕ) × (t : Proc) × (flood_loop K p true send n total seq m s ≡ done (none, seq') t)
  unfolding flood_loop send_results all_sent
  loop-fails zero total seq m s sent = cc
  loop-fails (suc n) total seq m s sent =
      let m' = stamped_buffer K (pos_part p.msg_sz) s.tick seq m in
      let s' = after (send m') (after Call.clock_gettime s) in
      elim (Rc-cases (K.rc (s.tick + 1))) [
        | inl (k, e) ↦
            let (seq', t, h) =
              loop-fails n (add64 total k) ((seq + 1) % 2 ^ 32) m' s' (rw e at sent) in
            (seq', t, rw (fill_buf-stamped K p p.msg_sz seq m s on, flood_loop, e) h)
        | inr (c, e) ↦
            ((seq + 1) % 2 ^ 32, s', rw (fill_buf-stamped K p p.msg_sz seq m s on, flood_loop, e))
      ]

-- the memory that `malloc_payload_buffer` hands out
abbrev pub zeros : Mem
zeros = λ _. 0

-- the state after a flood whose first send is the call behind `s`
abbrev pub Sent : Kernel → FloodParams → TimeBench → ℕ → (Mem → Call) → Proc → Run Flooded
Sent K p r seq send s =
    let n = pos_part p.count in
    done ((pos n, record r { bytes = sent_bytes (send_results K n s.tick) }), seq_after n seq)
      (after_sends send (buffers K (pos_part p.msg_sz) n s.tick seq zeros) s)

abbrev pub AllSent : Kernel → FloodParams → ℕ → Type 0
AllSent K p t =
    let rs = send_results K (pos_part p.count) t in (all_sent rs ≡ true) × (sent_bytes rs < 2 ^ 64)

module _ (K : Kernel) (p : FloodParams) (fd : ℕ) (r : TimeBench) (seq : ℕ) (s : Proc)
    (on : is_nonzero p.pktgen_hdr ≡ true) (alloc : (i : ℕ) → K.alloc i ≡ true)
    (family : (p.dest_addr.family ≡ af_inet) ⊎ (p.dest_addr.family ≡ af_inet6)) where
  loop-Sent :
      (send : Mem → Call) (t : Proc)
      → AllSent K p t.tick
      → and_then
          (flood_loop K p true send (pos_part p.count) 0 seq zeros t)
          (λ out. flood_end K p r out)
        ≡ Sent K p r seq send t
  unfolding flood_end
  loop-Sent send t h =
      rw (loop-sends K p on send (pos_part p.count) 0 seq zeros t h.0 (omega (arith, h.1)))
        (ground arith)

  pub write-sends :
      AllSent K p (s.tick + 1)
      → flood_with_write K p fd r seq s
        ≡ Sent K p r seq (λ m. Call.write fd m p.msg_sz) (after Call.malloc s)
  unfolding flood_with_write
  write-sends h =
      rw (alloc s.tick) (loop-Sent (λ m. Call.write fd m p.msg_sz) (after Call.malloc s) h)

  pub sendto-sends :
      AllSent K p (s.tick + 1)
      → flood_with_sendto K p fd r seq s
        ≡ Sent K p r seq (λ m. Call.sendto fd m p.msg_sz p.dest_addr) (after Call.malloc s)
  unfolding flood_with_sendto
  sendto-sends h =
      let (l, len) = sockaddr_len-inet p.dest_addr family in
      rw (len, alloc s.tick)
        (loop-Sent (λ m. Call.sendto fd m p.msg_sz p.dest_addr) (after Call.malloc s) h)

  -- With `--pktgen-header`, where no send fails, `flood_with_write`, `flood_with_sendto` and
  -- `flood_with_sendmsg` send `count` packets with successive numbers, each a buffer of copies of
  -- its stamped header, record their bytes and return `count`.
  pub flood-sends :
      AllSent K p (s.tick + 1)
      → AllSent K p (s.tick + 1 + 1 + 1)
      → let s1 = after Call.malloc s in
        let s3 = after Call.malloc (after Call.malloc s1) in
        (flood_with_write K p fd r seq s ≡ Sent K p r seq (λ m. Call.write fd m p.msg_sz) s1)
        × (flood_with_sendto K p fd r seq s
            ≡ Sent K p r seq (λ m. Call.sendto fd m p.msg_sz p.dest_addr) s1)
        × (flood_with_sendmsg K p fd r seq s ≡ Sent K p r seq (λ m. Call.sendmsg fd m p.msg_sz) s3)
  unfolding flood_with_sendmsg
  flood-sends h h3 =
      let s3 = after Call.malloc (after Call.malloc (after Call.malloc s)) in
      let (l, len) = sockaddr_len-inet p.dest_addr family in
      (
        write-sends h,
        sendto-sends h,
        rw (len, alloc s.tick, alloc (s.tick + 1), alloc (s.tick + 1 + 1))
            (loop-Sent (λ m. Call.sendmsg fd m p.msg_sz) s3 h3),
      )
