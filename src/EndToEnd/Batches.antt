-- ===== src/EndToEnd/Batches.antt =====
-- A flood whose packets are all received in the order sent, several of them with one call.
mod Tests
use network_testing.Common.{
  ℕ, zero, suc, ◌+◌, ◌-◌, ◌*◌, ◌/◌, ◌%◌, ◌^◌, ◌≤◌, ◌<◌, ◌≡◌, refl, ap, ◌∙◌, sym, ◌⊎◌, inl, inr,
  List, [], ◌∷◌, ◌++◌, length, true, map, arith, pos, pos_part, sum_range,
}
use network_testing.Kernel.{Kernel, Mem, Message, Call, Proc, done, ret, err, eagain}
use network_testing.Kernel.Laws.{after_calls}
use network_testing.Pktgen.{PktgenHdr, hdr_size}
use network_testing.Pktgen.Layout.{hdr_of-congr}
use network_testing.TimeBench.{TimeBench}
use network_testing.Sink.Params.{Sink}
use network_testing.Sink.Check.{Iov}
use network_testing.Sink.Check.Flat.{payload, headers}
use network_testing.Sink.Check.Setup.{IsChecking}
use network_testing.Sink.Message.{buckets, bucket_size}
use network_testing.Sink.Receive.Counts.{replies, returned, empty_queue, all_served}
use network_testing.Sink.Recvmsg.Counts.{check_stream}
use network_testing.Sink.Recvmmsg.{recvmmsg_flags, sink_with_recv_mmsg}
use network_testing.Sink.Recvmmsg.Loop.{lens, message_bytes}
use network_testing.Sink.Recvmmsg.Counts.{set_up}
use network_testing.Sink.Recvmmsg.Checks.{call_packets, all_packets, IsFitting, recv_mmsg-checks}
use network_testing.Flood.Fill.{stamp, stamp_time}
use network_testing.Flood.Fill.Content.{copies, stamped_buffer, headers-stamped_buffer}
use network_testing.Flood.Send.Counts.{buffers, zeros}
use network_testing.EndToEnd.Reading.{read, headers-congr, length-buffers, buffers-read}
use network_testing.EndToEnd.Stream.{stamps, IsSteady, Ready, check_stream-stamps}

-- Of one call, the messages `pkt`, …, `n` of them, are the first of the buffers, with `len` bytes
-- each; `rest` is left.
unfoldable pub Batch : (ℕ → Message) → List Iov → ℕ → ℕ → ℕ → List Mem → List Mem → Type 0
Batch msg iov len zero pkt ms rest = ms ≡ rest
Batch msg iov len (suc n) pkt [] rest = ⊥
Batch msg iov len (suc n) pkt (m ∷ ms) rest =
    ((msg pkt).len ≡ len)
    × ((j : ℕ) → j < len → payload (msg pkt).memory iov j ≡ m j)
    × Batch msg iov len n (pkt + 1) ms rest

-- `n` calls of the sink from the `t`-th on receive the buffers, in order and no other packet; a call
-- may find the queue empty.
unfoldable pub Batches : Kernel → List Iov → ℕ → List Mem → ℕ → ℕ → Type 0
unfolding Batch
Batches K iov len ms t zero = ms ≡ []
Batches K iov len ms t (suc n) =
    ((K.rc t ≡ err eagain) × Batches K iov len ms (t + 1) n)
    ⊎ ((got : ℕ) × (rest : List Mem) × (K.rc t ≡ ret got)
        × Batch (K.message t) iov len got 0 ms rest
        × Batches K iov len rest (t + 1) n)

module _ (msg : ℕ → Message) (iov : List Iov) (len : ℕ) where
  Batch-read :
      (n pkt : ℕ) (ms rest : List Mem)
      → Batch msg iov len n pkt ms rest
      → map (read len) ms ≡ call_packets msg iov pkt n ++ map (read len) rest
  unfolding Batch call_packets
  Batch-read zero pkt ms rest b = ap (map (read len)) b
  Batch-read (suc n) pkt [] rest b = absurd b
  Batch-read (suc n) pkt (m ∷ ms) rest (e, same, b) =
      rw
        (
          e,
          call_packets,
          headers-congr (len / hdr_size) (payload (msg pkt).memory iov) m
              (λ j h. same j (omega arith)),
          Batch-read n (pkt + 1) ms rest b,
        )
        refl

  Batch-counts :
      (n pkt : ℕ) (ms rest : List Mem)
      → Batch msg iov len n pkt ms rest
      → (length ms ≡ n + length rest) × (lens msg pkt n ≡ n * len)
  unfolding Batch sum_range
  Batch-counts zero pkt ms rest b = (ap length b ∙ omega arith, omega arith)
  Batch-counts (suc n) pkt [] rest b = absurd b
  Batch-counts (suc n) pkt (m ∷ ms) rest (e, same, b) =
      let (c, d) = Batch-counts n (pkt + 1) ms rest b in (omega (arith, c), omega (arith, d, e))

module _ (K : Kernel) (iov : List Iov) (len : ℕ) where
  Batches-read :
      (ms : List Mem) (t n : ℕ)
      → Batches K iov len ms t n
      → all_packets K iov t n ≡ map (read len) ms
  unfolding Batches all_packets call_packets
  Batches-read ms t zero d = sym (ap (map (read len)) d)
  Batches-read ms t (suc n) (inl (e, d)) = rw (e, all_packets) (Batches-read ms (t + 1) n d)
  Batches-read ms t (suc n) (inr (got, rest, e, b, d)) =
      rw (e, all_packets, Batches-read rest (t + 1) n d)
        (sym (Batch-read (K.message t) iov len got 0 ms rest b))

  Batches-counts :
      (ms : List Mem) (t n : ℕ)
      → Batches K iov len ms t n
      → (all_served (replies K.rc t n) ≡ true)
        × (returned (replies K.rc t n) ≡ length ms)
        × (message_bytes K t n ≡ length ms * len)
  unfolding Batches replies all_served returned message_bytes sum_range
  Batches-counts ms t zero d = rw d (refl, refl, omega arith)
  Batches-counts ms t (suc n) (inl (e, d)) =
      let (a, b, c) = Batches-counts ms (t + 1) n d in rw e (a, b, omega (arith, c))
  Batches-counts ms t (suc n) (inr (got, rest, e, p, d)) =
      let (a, b, c) = Batches-counts rest (t + 1) n d in
      let (l, s) = Batch-counts (K.message t) iov len got 0 ms rest p in
      let split : length ms * len ≡ got * len + length rest * len =
        ap (λ x. x * len) l ∙ omega arith in
      rw e (a, omega (arith, b, l), omega (arith, c, split, s))

-- Where `F` is the kernel of the flood and `K` that of the sink, and `n` calls receive every packet
-- of the flood in order: `sink_with_recv_mmsg` at check level 1 or 2 has counted the bytes of the
-- flood, returns its packets less the calls that found none, if there were not more of those, and
-- all its error statistics are as they were before. The conditions: the sink counts as many packets
-- as are sent, and no earlier call reaches them; it is given more rounds than calls; a header fits a
-- bucket and every packet the buckets; no control data comes, and neither that nor a sender is asked for;
-- no allocation of an array fails; the clock of the flood does not step back, and its seconds fit 32
-- bits; the packets have at least a header; all numbers fit their words; and the sink has seen no header, or the one before the first.
pub flood-recv_mmsg :
    (F K : Kernel) (len t seq fd n fuel : ℕ) (k : Sink) (r : TimeBench) (s : Proc)
    → let count = pos_part k.p.count in
      let iov = buckets 0 (bucket_size k.p) (pos_part k.p.iov_elems) in
      let u = (set_up k.p s).tick in
      n < fuel
      → 0 < pos_part k.p.iov_elems
      → hdr_size ≤ bucket_size k.p
      → IsFitting K iov
      → ((i : ℕ) → K.alloc i ≡ true)
      → IsChecking k.p
      → r.try_again ≡ 0
      → IsSteady F
      → seq < 2 ^ 32
      → hdr_size ≤ len
      → count * len < 2 ^ 64
      → n < 2 ^ 31
      → count < 2 ^ 31
      → Ready (stamp (stamp_time F t) seq) k
      → ((m : ℕ) → m < n → returned (replies K.rc u m) < count)
      → Batches K iov len (buffers F len count t seq zeros) u n
      → empty_queue (replies K.rc u n) ≤ count
      → (k' : Sink) × (sink_with_recv_mmsg K fuel fd k r s
          ≡ done
              (
                (
                  pos (count - empty_queue (replies K.rc u n)),
                  record r { bytes = count * len; try_again = empty_queue (replies K.rc u n) },
                ),
                k',
              )
              (after_calls (Call.recvmmsg fd k.p.batch (recvmmsg_flags k.p)) n (set_up k.p s)))
        × (k'.p ≡ k.p)
flood-recv_mmsg F K len t seq fd n fuel k r s enough some wide fit alloc v fresh steady seq_small
      size fits rounds few ready short d more =
    let count = pos_part k.p.count in
    let iov = buckets 0 (bucket_size k.p) (pos_part k.p.iov_elems) in
    let u = (set_up k.p s).tick in
    let ms = buffers F len count t seq zeros in
    let (served, got, bytes) = Batches-counts K iov len ms u n d in
    let all : length ms ≡ count = length-buffers F len count t seq zeros in
    let got' = got ∙ all in
    let bytes' : message_bytes K u n ≡ count * len = bytes ∙ ap (λ l. l * len) all in
    let run =
      recv_mmsg-checks K fd k n fuel r s enough some wide fit alloc v fresh short
        (omega (arith, got')) served (omega (arith, bytes')) rounds (omega (arith, got'))
        (omega (arith, got', more)) in
    let seen = Batches-read K iov len ms u n d ∙ buffers-read F len count t seq zeros seq_small in
    (
      check_stream (all_packets K iov u n) k,
      run ∙ rw (got', bytes'),
      rw (seen, whole)
          (check_stream-stamps F (len / hdr_size - 1) count t seq k steady seq_small ready),
    )
  where
    whole : len / hdr_size ≡ suc (len / hdr_size - 1)
    whole = omega arith
