-- ===== src/Flood/Sendmmsg/Numbers.antt =====
-- The packets of a batch of flood_with_send_mmsg and their numbers.
pub mod Batches
use network_testing.Common.{
  ℕ, zero, suc, ◌+◌, ◌-◌, ◌*◌, ◌/◌, ◌%◌, ◌^◌, ◌≤◌, ◌<◌, ◌≡◌, refl, ap, ◌∙◌, ◌⊎◌, true, false,
  Bool-cases, inl, inr, ◌==◌, if◌then◌else◌, List, [], ◌∷◌, Option, some, ℤ, pos, pos_part,
  is_nonzero, add64, to_u64, to_int, ◌*ℤ◌, dec_lt, arith,
}
use network_testing.Kernel.{Kernel, Mem, ret, Call, Proc, done, after, af_inet, af_inet6}
use network_testing.Kernel.Laws.{after_calls, tick-after_calls}
use network_testing.Pktgen.{PktgenHdr, hdr_size, hdr_byte, hdr_of}
use network_testing.Pktgen.Layout.{hdr_of-congr, hdr_of-hdr_byte}
use network_testing.TimeBench.{TimeBench}
use network_testing.Flood.Params.{FloodParams}
use network_testing.Flood.Fill.{fill_loop, fill_buf, stamp, stamp_time}
use network_testing.Flood.Fill.Content.{filled, fill_loop-filled, stamp-IsHdr}
use network_testing.Flood.Send.Counts.{seq_after, zeros}
use network_testing.Flood.Sendmmsg.{
  fill_batch, batch_loop, send_last, batches, flood_with_send_mmsg,
}
use network_testing.Flood.Main.Numbers.{number_of, count_down, count_down-append, seq_after-mod}

-- The buffer at the address `buf` with copies of the header stamped by the call `t`.
unfoldable pub packet_filled : Kernel → (len buf t seq : ℕ) → Mem → Mem
packet_filled K len buf t seq m =
    fill_loop (len / hdr_size + 2) (stamp (stamp_time K t) seq) buf 0 len m

-- `n` packets of a batch filled, from the packet `pkt` and the call `t` on.
unfoldable pub batch_filled : Kernel → (len n pkt t seq : ℕ) → Mem → Mem
unfolding packet_filled
batch_filled K len zero pkt t seq m = m
batch_filled K len (suc n) pkt t seq m =
    batch_filled K len n (pkt + 1) (t + 1) ((seq + 1) % 2 ^ 32)
      (packet_filled K len (pkt * len) t seq m)

packet_filled-filled :
    (K : Kernel) (len buf t seq : ℕ) (m : Mem) (a : ℕ)
    → packet_filled K len buf t seq m a ≡ filled (stamp (stamp_time K t) seq) buf 0 len m a
unfolding packet_filled
packet_filled-filled K len buf t seq m a =
    fill_loop-filled (len / hdr_size + 2) (stamp (stamp_time K t) seq) buf 0 len m a refl
      (omega arith)

-- A packet does not reach into those in front of it,
packet_filled-front :
    (K : Kernel) (len buf t seq : ℕ) (m : Mem) (a : ℕ)
    → a < buf
    → packet_filled K len buf t seq m a ≡ m a
packet_filled-front K len buf t seq m a front =
    packet_filled-filled K len buf t seq m a ∙ ground arith

-- and has its header at its front.
number_of-packet_filled :
    (K : Kernel) (len buf t seq : ℕ) (m : Mem)
    → hdr_size ≤ len
    → seq < 2 ^ 32
    → number_of (λ j. packet_filled K len buf t seq m (buf + j)) ≡ seq
unfolding stamp
number_of-packet_filled K len buf t seq m whole small =
    let h = stamp (stamp_time K t) seq in
    let byte = λ (j : ℕ) (inside : j < hdr_size).
      packet_filled-filled K len buf t seq m (buf + j) ∙ ground arith in
    ap PktgenHdr.seq_num (
      hdr_of-congr (λ j. packet_filled K len buf t seq m (buf + j)) (hdr_byte h) byte
      ∙ hdr_of-hdr_byte h (stamp-IsHdr K t seq small))
    ∙ refl

batch_filled-front :
    (K : Kernel) (len n pkt t seq : ℕ) (m : Mem) (a : ℕ)
    → a < pkt * len
    → batch_filled K len n pkt t seq m a ≡ m a
unfolding batch_filled
batch_filled-front K len zero pkt t seq m a front = refl
batch_filled-front K len (suc n) pkt t seq m a front =
    batch_filled-front K len n (pkt + 1) (t + 1) ((seq + 1) % 2 ^ 32)
      (packet_filled K len (pkt * len) t seq m) a (omega arith)
    ∙ packet_filled-front K len (pkt * len) t seq m a front

-- The packets of a batch have successive numbers.
pub number_of-batch_filled :
    (K : Kernel) (len n pkt t seq i : ℕ) (m : Mem)
    → hdr_size ≤ len
    → seq < 2 ^ 32
    → i < n
    → number_of (λ j. batch_filled K len n pkt t seq m ((pkt + i) * len + j)) ≡ (seq + i) % 2 ^ 32
unfolding batch_filled
number_of-batch_filled K len zero pkt t seq i m whole small inside = ground arith
number_of-batch_filled K len (suc n) pkt t seq zero m whole small inside =
    let m' = packet_filled K len (pkt * len) t seq m in
    let here : (pkt + 0) * len ≡ pkt * len = omega arith in
    let same =
      hdr_of-congr
        (λ j. batch_filled K len n (pkt + 1) (t + 1) ((seq + 1) % 2 ^ 32) m' ((pkt + 0) * len + j))
        (λ j. m' (pkt * len + j))
        (λ j h. rw here (
          batch_filled-front K len n (pkt + 1) (t + 1) ((seq + 1) % 2 ^ 32) m' (pkt * len + j)
            (omega arith))) in
    ap PktgenHdr.seq_num same
    ∙ number_of-packet_filled K len (pkt * len) t seq m whole small
    ∙ omega arith
number_of-batch_filled K len (suc n) pkt t seq (suc i) m whole small inside =
    let m' = packet_filled K len (pkt * len) t seq m in
    let there : (pkt + suc i) * len ≡ (pkt + 1 + i) * len = omega arith in
    rw there (
      number_of-batch_filled K len n (pkt + 1) (t + 1) ((seq + 1) % 2 ^ 32) i m' whole (omega arith)
        (omega arith)
      ∙ omega arith)

-- The numbers of the `n` packets at the front of a batch, the last first, before `rest`.
unfoldable pub batch_numbers : (len : ℕ) → Mem → ℕ → List ℕ → List ℕ
batch_numbers len m zero rest = rest
batch_numbers len m (suc n) rest = number_of (λ j. m (n * len + j)) ∷ batch_numbers len m n rest

pub batch_numbers-count_down :
    (len seq n : ℕ) (m : Mem) (rest : List ℕ)
    → ((i : ℕ) → i < n → number_of (λ j. m (i * len + j)) ≡ (seq + i) % 2 ^ 32)
    → batch_numbers len m n rest ≡ count_down seq n rest
unfolding batch_numbers count_down
batch_numbers-count_down len seq zero m rest each = refl
batch_numbers-count_down len seq (suc n) m rest each =
    rw
      (
        each n (omega arith),
        batch_numbers-count_down len seq n m rest (λ i inside. each i (omega arith)),
      )
      refl

-- The numbers of the packets handed to the kernel in batches, the latest first.
unfoldable pub handed : (len : ℕ) → List Call → List ℕ
unfolding batch_numbers
handed len [] = []
handed len (Call.sendmmsg fd m n ∷ calls) = batch_numbers len m (pos_part n) (handed len calls)
handed len (_ ∷ calls) = handed len calls

pub handed-clock :
    (len n : ℕ) (s : Proc)
    → handed len (after_calls Call.clock_gettime n s).calls ≡ handed len s.calls
unfolding handed after_calls
handed-clock len zero s = refl
handed-clock len (suc n) s = handed-clock len n (after Call.clock_gettime s)
