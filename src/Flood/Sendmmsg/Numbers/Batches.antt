-- ===== src/Flood/Sendmmsg/Numbers/Batches.antt =====
-- The numbers of the packets that flood_with_send_mmsg hands to the kernel.
use network_testing.Common.{
  ℕ, zero, suc, ◌+◌, ◌*◌, ◌/◌, ◌%◌, ◌^◌, ◌≤◌, ◌<◌, ◌≡◌, refl, ap, ◌∙◌, sym, ◌⊎◌, true, false, Bool,
  ◌==◌, if◌then◌else◌, Option, some, ℤ, pos, pos_part, is_nonzero, leb, add64, to_u64, to_int, ◌*ℤ◌,
  ◌-ℤ◌, arith,
}
use native.Mathlib.Nat.{mul-le-mul_left}
use network_testing.Kernel.{Kernel, Mem, ret, Call, Proc, Run, done, after, af_inet, af_inet6}
use network_testing.Kernel.Laws.{after_calls}
use network_testing.Pktgen.{hdr_size}
use network_testing.TimeBench.{TimeBench}
use network_testing.Socket.Wrappers.{sockaddr_len-inet}
use network_testing.Flood.Params.{FloodParams}
use network_testing.Flood.Fill.{fill_buf}
use network_testing.Flood.Send.{Flooded}
use network_testing.Flood.Send.Counts.{seq_after, zeros}
use network_testing.Flood.Sendmmsg.{
  is_inside, offset, fill_batch, fill_if_asked, batch_loop, send_last, batches,
  flood_with_send_mmsg,
}
use network_testing.Flood.Sendmmsg.Counts.{int_product, last_batch, positive}
use network_testing.Flood.Sendmmsg.Numbers.{
  packet_filled, batch_filled, number_of-batch_filled, batch_numbers-count_down, handed,
  handed-clock,
}
use network_testing.Flood.Main.Numbers.{count_down, count_down-append, seq_after-mod}

begun_batches :
    (n b seq : ℕ) (exact : Bool)
    → ((seq + n * b) % 2 ^ 32 + (if exact then 0 else b)) % 2 ^ 32
      ≡ (seq + (n + (if exact then 0 else 1)) * b) % 2 ^ 32
begun_batches n b seq true = omega arith
begun_batches n b seq false = omega arith

module _ (K : Kernel) (p : FloodParams) (fd b m : ℕ) (on : is_nonzero p.pktgen_hdr ≡ true)
    (batch : p.batch ≡ pos b) (size : p.msg_sz ≡ pos m) (whole : hdr_size ≤ m)
    (fits : b * m < 2 ^ 31) (sent : (i : ℕ) → (k : ℕ) × (K.rc i ≡ ret k)) where
  -- A packet of the batch lies within the buffer, at its place.
  place : (pkt : ℕ) → pkt < b → (is_inside K p pkt ≡ true) × (pos_part (offset K p pkt) ≡ pkt * m)
  place pkt inside =
      let next : m * (pkt + 1) ≤ m * b = mul-le-mul_left m (omega arith) in
      let end : pkt * m + m ≤ b * m = omega (arith, next) in
      let at = int_product pkt m (omega (arith, end, fits)) in
      let all = int_product b m fits in
      let enough : leb (pkt * m + m) (b * m) ≡ true = ground arith in
      (rw (size, batch, at, all) enough, rw (size, at) refl)

  fill_batch-run :
      (n pkt seq : ℕ) (buf : Mem) (s : Proc)
      → pkt + n ≤ b
      → fill_batch K p n pkt seq buf s
        ≡ done
            (batch_filled K m n pkt s.tick seq buf, seq_after n seq)
            (after_calls Call.clock_gettime n s)
  unfolding fill_batch fill_buf batch_filled packet_filled seq_after after_calls
  fill_batch-run zero pkt seq buf s le = refl
  fill_batch-run (suc n) pkt seq buf s le =
      let (inside, at) = place pkt (omega arith) in
      rw (fill_batch, inside, at, on, size)
        (fill_batch-run n (pkt + 1) ((seq + 1) % 2 ^ 32)
          (packet_filled K m (pkt * m) s.tick seq buf) (after Call.clock_gettime s) (omega arith))

  -- behind the packets filled for a batch, and the call that hands the first `k` of them over
  abbrev full : (seq : ℕ) → Mem → Proc → Mem
  full seq buf s = batch_filled K m b 0 s.tick seq buf

  abbrev handed_over : ℤ → (seq : ℕ) → Mem → Proc → Proc
  handed_over k seq buf s =
      after (Call.sendmmsg fd (full seq buf s) k) (after_calls Call.clock_gettime b s)

  fill-run :
      (seq : ℕ) (buf : Mem) (s : Proc)
      → seq < 2 ^ 32
      → fill_if_asked K p seq buf s
        ≡ done (full seq buf s, (seq + b) % 2 ^ 32) (after_calls Call.clock_gettime b s)
  fill-run seq buf s small =
      let count : pos_part p.batch ≡ b = ap pos_part batch in
      rw (on, count)
        (rw (seq_after-mod b seq small) at (fill_batch-run b 0 seq buf s (omega arith)))

  handed-handed_over :
      (z : ℤ) (k seq : ℕ) (buf : Mem) (s : Proc)
      → pos_part z ≡ k
      → seq < 2 ^ 32
      → k ≤ b
      → handed m (handed_over z seq buf s).calls ≡ count_down seq k (handed m s.calls)
  unfolding handed
  handed-handed_over z k seq buf s count small le =
      rw (count, handed-clock m b s)
        (batch_numbers-count_down m seq k (full seq buf s) (handed m s.calls) (λ i inside.
          let here : 0 + i ≡ i = omega arith in
          rw here at (number_of-batch_filled K m b 0 s.tick seq i buf whole small (omega arith))))

  batch_loop-numbers :
      (n total seq : ℕ) (buf : Mem) (s : Proc)
      → seq < 2 ^ 32
      → (total' : ℕ) × (buf' : Mem) × (t : Proc) × (batch_loop K p fd n total seq buf s
          ≡ done (some total', buf', (seq + n * b) % 2 ^ 32) t)
        × (handed m t.calls ≡ count_down seq (n * b) (handed m s.calls))
  unfolding batch_loop count_down
  batch_loop-numbers zero total seq buf s small =
      let same : (seq + 0 * b) % 2 ^ 32 ≡ seq = omega arith in
      let none_yet : 0 * b ≡ 0 = omega arith in (total, buf, s, rw same refl, rw none_yet refl)
  batch_loop-numbers (suc n) total seq buf s small =
      let (k, went) = sent (after_calls Call.clock_gettime b s).tick in
      let (total', buf', t, run, numbers) =
        batch_loop-numbers n (add64 total (to_u64 (to_int (pos k *ℤ p.msg_sz))))
          ((seq + b) % 2 ^ 32) (full seq buf s) (handed_over p.batch seq buf s) (omega arith) in
      let next : ((seq + b) % 2 ^ 32 + n * b) % 2 ^ 32 ≡ (seq + suc n * b) % 2 ^ 32 = omega arith in
      let more : b + n * b ≡ suc n * b = omega arith in
      let handed_now =
        handed-handed_over p.batch b seq buf s (ap pos_part batch) small (omega arith) in
      (
        total',
        buf',
        t,
        rw (fill-run seq buf s small, went) (rw next at run),
        rw (sym more) (
            numbers
            ∙ ap (count_down ((seq + b) % 2 ^ 32) (n * b)) handed_now
            ∙ count_down-append seq b (n * b) (handed m s.calls)),
      )

  -- The rest: a whole batch is filled, and its first packets are handed over.
  send_last-numbers :
      (rest total seq : ℕ) (r : TimeBench) (buf : Mem) (s : Proc)
      → seq < 2 ^ 32
      → rest < b
      → (t : Proc) × (send_last K p fd (pos rest) r (some total, buf, seq) s
          ≡ done
              ((p.count, record r { bytes = total }), (seq + (if rest == 0 then 0 else b)) % 2 ^ 32)
              t)
        × (handed m t.calls ≡ count_down seq rest (handed m s.calls))
  unfolding send_last count_down
  send_last-numbers zero total seq r buf s small less =
      let same : (seq + 0) % 2 ^ 32 ≡ seq = omega arith in (s, rw same refl, refl)
  send_last-numbers (suc rest) total seq r buf s small less =
      let (k, went) = sent (after_calls Call.clock_gettime b s).tick in
      let some_left : is_nonzero (pos (suc rest)) ≡ true = ground arith in
      let nonzero : (suc rest == 0) ≡ false = ground arith in
      (
        handed_over (pos (suc rest)) seq buf s,
        rw (some_left, send_last, fill-run seq buf s small, went, nonzero) refl,
        handed-handed_over (pos (suc rest)) (suc rest) seq buf s refl small (omega arith),
      )

  module _ (c seq : ℕ) (r : TimeBench) (s : Proc) (count : p.count ≡ pos c) (some_batch : 0 < b)
      (alloc : (i : ℕ) → K.alloc i ≡ true)
      (family : (p.dest_addr.family ≡ af_inet) ⊎ (p.dest_addr.family ≡ af_inet6)) where
    -- the process behind the allocations
    abbrev allocated : Proc
    allocated = after Call.malloc (after Call.malloc (after Call.malloc s))

    flood-parts :
        (looped : Option ℕ × Mem × ℕ) (t : Proc) (out : Run Flooded)
        → batch_loop K p fd (c / b) 0 seq zeros allocated ≡ done looped t
        → send_last K p fd (pos (c % b)) r looped t ≡ out
        → flood_with_send_mmsg K p fd r seq s ≡ out
    unfolding flood_with_send_mmsg
    flood-parts looped t out loop last =
        let (l, len) = sockaddr_len-inet p.dest_addr family in
        let nonzero : is_nonzero p.batch ≡ true = rw batch (positive b some_batch) in
        let rounds : pos_part (batches K p) ≡ c / b = rw (count, batch) refl in
        let rest : p.count -ℤ batches K p *ℤ p.batch ≡ pos (c % b) =
          rw (count, batch) (last_batch c b some_batch) in
        rw
          (
            nonzero,
            len,
            alloc s.tick,
            alloc (s.tick + 1),
            alloc (s.tick + 1 + 1),
            rounds,
            loop,
            rest,
          )
          last

    -- With headers, where no call fails, `flood_with_send_mmsg` returns `count`, and the packets
    -- that it hands to the kernel have `count` successive numbers. It goes on in the numbering
    -- behind the last batch as if that were a whole one. A header fits a packet, a batch has a packet
    -- and its bytes fit an `int`, and no memory is missing.
    pub send_mmsg-numbers :
        seq < 2 ^ 32
        → let begun = c / b + (if c % b == 0 then 0 else 1) in
          (total : ℕ) × (t : Proc) × (flood_with_send_mmsg K p fd r seq s
            ≡ done ((pos c, record r { bytes = total }), (seq + begun * b) % 2 ^ 32) t)
          × (handed m t.calls ≡ count_down seq c (handed m s.calls))
    unfolding handed
    send_mmsg-numbers small =
        let (total, buf, t, whole_batches, numbers) =
          batch_loop-numbers (c / b) 0 seq zeros allocated small in
        let seq1 = (seq + c / b * b) % 2 ^ 32 in
        let seq2 = (seq1 + (if c % b == 0 then 0 else b)) % 2 ^ 32 in
        let (u, last, more) =
          send_last-numbers (c % b) total seq1 r buf t (omega arith) (omega arith) in
        let end = begun_batches (c / b) b seq (c % b == 0) in
        let all : c / b * b + c % b ≡ c = omega arith in
        (
          total,
          u,
          flood-parts _ _ _ whole_batches last
              ∙ ap (λ n. done ((n, record r { bytes = total }), seq2) u) count
              ∙ ap (λ q. done ((pos c, record r { bytes = total }), q) u) end,
          more
              ∙ ap (count_down seq1 (c % b)) numbers
              ∙ count_down-append seq (c / b * b) (c % b) (handed m s.calls)
              ∙ ap (λ k. count_down seq k (handed m s.calls)) all,
        )
