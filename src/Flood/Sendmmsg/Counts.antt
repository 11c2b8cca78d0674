-- ===== src/Flood/Sendmmsg/Counts.antt =====
-- What flood_with_send_mmsg counts.
use network_testing.Common.{
  ℕ, zero, suc, ◌+◌, ◌*◌, ◌/◌, ◌%◌, ◌^◌, ◌≤◌, ◌<◌, ◌≡◌, refl, ap, true, false, some, ◌⊎◌, inl, inr,
  pos, pos_part, is_nonzero, add64, to_u64, to_int, ◌*ℤ◌, ◌-ℤ◌, div_ℤ, ◌==◌, if◌then◌else◌, arith,
  Bool-cases,
}
use native.Mathlib.Nat.{mul-le-mul_left}
use network_testing.Kernel.{Kernel, Mem, ret, Call, Proc, done, after, af_inet, af_inet6}
use network_testing.Kernel.Laws.{after_calls}
use network_testing.TimeBench.{TimeBench}
use network_testing.Socket.Wrappers.{sockaddr_len-inet}
use network_testing.Flood.Params.{FloodParams}
use network_testing.Flood.Send.Counts.{zeros}
use network_testing.Flood.Sendmmsg.{batch_loop, send_last, batches, flood_with_send_mmsg}

-- `n` calls from the `t`-th on that each send at most the batch they are given
unfoldable pub Batches : Kernel → ℕ → ℕ → ℕ → Type 0
Batches K b zero t = Unit {0}
Batches K b (suc n) t = (k : ℕ) × (K.rc t ≡ ret k) × (k ≤ b) × Batches K b n (t + 1)

-- the packets that they send
unfoldable pub packets_sent : (K : Kernel) (b n t : ℕ) → Batches K b n t → ℕ
unfolding Batches
packets_sent K b zero t calls = 0
packets_sent K b (suc n) t (k, e, le, calls) = k + packets_sent K b n (t + 1) calls

packets_sent-le :
    (K : Kernel) (b n t : ℕ) (calls : Batches K b n t) → packets_sent K b n t calls ≤ n * b
unfolding Batches packets_sent
packets_sent-le K b zero t calls = omega arith
packets_sent-le K b (suc n) t (k, e, le, calls) = omega (arith, packets_sent-le K b n (t + 1) calls)

-- A product that fits an `int`.
pub int_product : (a m : ℕ) → a * m < 2 ^ 31 → to_int (pos a *ℤ pos m) ≡ pos (a * m)
unfolding ◌*ℤ◌
int_product a m h = ground arith

batch_bytes : (b m k : ℕ) → b * m < 2 ^ 31 → k ≤ b → to_u64 (to_int (pos k *ℤ pos m)) ≡ k * m
unfolding ◌*ℤ◌
batch_bytes b m k h le =
    let bound : k * m ≤ b * m = omega (arith, mul-le-mul_left m le) in ground arith

module _ (K : Kernel) (p : FloodParams) (fd b m : ℕ) (off : is_nonzero p.pktgen_hdr ≡ false)
    (size : p.msg_sz ≡ pos m) (fits : b * m < 2 ^ 31) where
  loop-batches :
      (n total seq : ℕ) (buf : Mem) (s : Proc) (calls : Batches K b n s.tick)
      → total + packets_sent K b n s.tick calls * m < 2 ^ 64
      → batch_loop K p fd n total seq buf s
        ≡ done
            (some (total + packets_sent K b n s.tick calls * m), buf, seq)
            (after_calls (Call.sendmmsg fd buf p.batch) n s)
  unfolding batch_loop Batches packets_sent after_calls
  loop-batches zero total seq buf s calls small = ap (λ t. done (some t, buf, seq) s) (omega arith)
  loop-batches (suc n) total seq buf s (k, e, le, calls) small =
      let rest = packets_sent K b n (s.tick + 1) calls in
      let split : total + (k + rest) * m ≡ total + k * m + rest * m = omega arith in
      rw (off, batch_loop, e, size, batch_bytes b m k fits le, split)
        (ground (
          arith,
          loop-batches n (add64 total (k * m)) seq buf (after (Call.sendmmsg fd buf p.batch) s)
              calls,
        ))

-- What is left of `c` packets after the whole batches of `b`.
pub last_batch : (c b : ℕ) → 0 < b → pos c -ℤ div_ℤ (pos c) (pos b) *ℤ pos b ≡ pos (c % b)
unfolding ◌-ℤ◌ ◌*ℤ◌
last_batch c b h = ground arith

total_fits : (c b m x : ℕ) → x ≤ c / b * b → c < 2 ^ 31 → b * m < 2 ^ 31 → x * m < 2 ^ 64
total_fits c b m x le small fits =
    let whole : c / b ≤ c = omega arith in
    let bytes : x * m ≤ c / b * b * m = omega (arith, mul-le-mul_left m le) in
    let bound : b * m ≤ 2 ^ 31 = omega arith in omega (arith, mul-le-mul_left (c / b) bound)

pub positive : (b : ℕ) → 0 < b → is_nonzero (pos b) ≡ true
positive b h = ground arith

module _ (K : Kernel) (p : FloodParams) (fd b m c seq : ℕ) (r : TimeBench) (s : Proc)
    (off : is_nonzero p.pktgen_hdr ≡ false) (batch : p.batch ≡ pos b) (size : p.msg_sz ≡ pos m)
    (count : p.count ≡ pos c) (some_batch : 0 < b) (small : c < 2 ^ 31) (fits : b * m < 2 ^ 31)
    (alloc : (i : ℕ) → K.alloc i ≡ true)
    (family : (p.dest_addr.family ≡ af_inet) ⊎ (p.dest_addr.family ≡ af_inet6)) where
  rounds : pos_part (batches K p) ≡ c / b
  rounds = rw (count, batch) refl

  rest_size : p.count -ℤ batches K p *ℤ p.batch ≡ pos (c % b)
  rest_size = rw (count, batch) (last_batch c b some_batch)

  whole_batches :
      (t : Proc) (calls : Batches K b (c / b) t.tick)
      → batch_loop K p fd (c / b) 0 seq zeros t
        ≡ done
            (some (packets_sent K b (c / b) t.tick calls * m), zeros, seq)
            (after_calls (Call.sendmmsg fd zeros p.batch) (c / b) t)
  whole_batches t calls =
      let sent = packets_sent K b (c / b) t.tick calls in
      let small_total : 0 + sent * m < 2 ^ 64 =
        omega
          (arith, total_fits c b m sent (packets_sent-le K b (c / b) t.tick calls) small fits) in
      let from_0 : 0 + sent * m ≡ sent * m = omega arith in
      rw from_0 at (loop-batches K p fd b m off size fits (c / b) 0 seq zeros t calls small_total)

  last-counts :
      (total k : ℕ) (t : Proc)
      → K.rc t.tick ≡ ret k
      → send_last K p fd (pos (c % b)) r (some total, zeros, seq) t
        ≡ done
            ((pos c, record r { bytes = total }), seq)
            (if c % b == 0 then t else after (Call.sendmmsg fd zeros (pos (c % b))) t)
  unfolding send_last
  last-counts total k t e = elim (Bool-cases (c % b == 0)) [
    | inl h ↦ rw (h, count) refl
    | inr h ↦ rw (h, off, e, count) refl
  ]

  -- Without headers, where no call fails, `flood_with_send_mmsg` makes one call for each whole
  -- batch and one for the rest, if there is one, and returns `count`, even if calls send fewer
  -- packets than they are given. The bytes it records are those of the packets that the calls for
  -- the whole batches sent.
  pub send_mmsg-counts :
      let s3 = after Call.malloc (after Call.malloc (after Call.malloc s)) in
      let whole = after_calls (Call.sendmmsg fd zeros p.batch) (c / b) s3 in
      (calls : Batches K b (c / b) s3.tick) (k : ℕ)
      → K.rc whole.tick ≡ ret k
      → flood_with_send_mmsg K p fd r seq s
        ≡ done
            ((pos c, record r { bytes = packets_sent K b (c / b) s3.tick calls * m }), seq)
            (if c % b == 0 then whole else after (Call.sendmmsg fd zeros (pos (c % b))) whole)
  unfolding flood_with_send_mmsg
  send_mmsg-counts calls k rest =
      let s3 = after Call.malloc (after Call.malloc (after Call.malloc s)) in
      let whole = after_calls (Call.sendmmsg fd zeros p.batch) (c / b) s3 in
      let (l, len) = sockaddr_len-inet p.dest_addr family in
      let nonzero : is_nonzero p.batch ≡ true = rw batch (positive b some_batch) in
      rw
        (
          nonzero,
          len,
          alloc s.tick,
          alloc (s.tick + 1),
          alloc (s.tick + 1 + 1),
          rounds,
          whole_batches s3 calls,
          rest_size,
        )
        (last-counts (packets_sent K b (c / b) s3.tick calls * m) k whole rest)
