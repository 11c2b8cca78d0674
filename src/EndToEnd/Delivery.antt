-- ===== src/EndToEnd/Delivery.antt =====
-- A flood whose packets are all received in the order sent.
use network_testing.Common.{
  ℕ, zero, suc, ◌+◌, ◌-◌, ◌*◌, ◌/◌, ◌%◌, ◌^◌, ◌≤◌, ◌<◌, ◌≡◌, refl, ap, ◌∙◌, List, [], ◌∷◌, true,
  map, arith, is_nonzero, pos, pos_part,
}
use network_testing.Kernel.{Kernel, Mem, Call, Proc, done, ret, after}
use network_testing.Kernel.Laws.{after_calls}
use network_testing.Pktgen.{hdr_size}
use network_testing.TimeBench.{TimeBench}
use network_testing.Sink.Params.{Sink}
use network_testing.Sink.Check.{Iov}
use network_testing.Sink.Check.Flat.{payload}
use network_testing.Sink.Check.Setup.{IsChecking}
use network_testing.Sink.Message.{bucket_size}
use network_testing.Sink.Receive.Counts.{replies, received, returned, empty_queue, all_served}
use network_testing.Sink.Receive.{recv_flags}
use network_testing.Sink.Recvmsg.{msg_iov, sink_with_recvmsg}
use network_testing.Sink.Recvmsg.Counts.{packets, check_stream, AllFit, recvmsg-checks}
use network_testing.Flood.Fill.{stamp, stamp_time}
use network_testing.Flood.Fill.Content.{copies, stamped_buffer, headers-stamped_buffer}
use network_testing.Flood.Send.Counts.{buffers, zeros}
use network_testing.EndToEnd.Stream.{stamps, IsSteady, Ready, check_stream-stamps}

-- The calls of the sink from the `t`-th on receive the buffers, one packet of `len` bytes each:
-- the network neither loses, repeats, reorders nor changes a packet.
unfoldable pub Delivered : Kernel → List Iov → ℕ → List Mem → ℕ → Type 0
Delivered K iov len [] t = Unit {0}
Delivered K iov len (m ∷ ms) t =
    (K.rc t ≡ ret len)
    × ((j : ℕ) → j < len → payload (K.message t 0).memory iov j ≡ m j)
    × Delivered K iov len ms (t + 1)

module _ (F K : Kernel) (iov : List Iov) (len : ℕ) where
  -- What the sink reads as headers are the stamps of the flood.
  pub packets-delivered :
      (n t u seq : ℕ) (m : Mem)
      → seq < 2 ^ 32
      → Delivered K iov len (buffers F len n t seq m) u
      → packets K iov u n ≡ map (copies (len / hdr_size)) (stamps F n t seq)
  unfolding Delivered buffers packets stamps
  packets-delivered zero t u seq m small d = refl
  packets-delivered (suc n) t u seq m small (e, same, rest) =
      rw
        (
          e,
          headers-stamped_buffer F len t seq m (payload (K.message u 0).memory iov) small same,
          packets,
        )
        (ap (λ l. copies (len / hdr_size) (stamp (stamp_time F t) seq) ∷ l)
          (packets-delivered n (t + 1 + 1) (u + 1) ((seq + 1) % 2 ^ 32)
            (stamped_buffer F len t seq m) (omega arith) rest))

  delivered-counts :
      (n t u seq : ℕ) (m : Mem)
      → Delivered K iov len (buffers F len n t seq m) u
      → (all_served (replies K.rc u n) ≡ true)
        × (received (replies K.rc u n) ≡ n)
        × (returned (replies K.rc u n) ≡ n * len)
        × (empty_queue (replies K.rc u n) ≡ 0)
  unfolding Delivered buffers replies all_served received returned empty_queue
  delivered-counts zero t u seq m d = (refl, refl, omega arith, refl)
  delivered-counts (suc n) t u seq m (e, same, rest) =
      let (a, b, c, d) =
        delivered-counts n (t + 1 + 1) (u + 1) ((seq + 1) % 2 ^ 32) (stamped_buffer F len t seq m)
          rest in
      rw e (a, omega (arith, b), omega (arith, c), d)

-- Where `F` is the kernel of the flood and `K` that of the sink, and every packet of the flood is
-- received in order: `sink_with_recvmsg` at check level 1 or 2 returns their number, has counted
-- their bytes, and all its error statistics are as they were before. The conditions: the sink counts
-- as many packets as are sent, at least one; a header fits a bucket and every packet the buckets; no
-- control data comes, and neither that nor a sender is asked for; no allocation fails; the clock of
-- the flood does not step back, and its seconds fit 32 bits; the packets have at least a header; and
-- the sink has seen no header, or the one before the first.
pub flood-sink :
    (F K : Kernel) (len t seq fd : ℕ) (k : Sink) (r : TimeBench) (s : Proc)
    → let n = pos_part k.p.count in
      let u = s.tick + 1 + 1 + 1 in
      0 < n
      → n < 2 ^ 31
      → is_nonzero k.p.iov_elems ≡ true
      → hdr_size ≤ bucket_size k.p
      → AllFit K (msg_iov k.p)
      → ((i : ℕ) → (K.message i 0).controllen ≡ 0)
      → ((i : ℕ) → K.alloc i ≡ true)
      → IsChecking k.p
      → r.try_again ≡ 0
      → IsSteady F
      → seq < 2 ^ 32
      → hdr_size ≤ len
      → n * len < 2 ^ 64
      → Ready (stamp (stamp_time F t) seq) k
      → Delivered K (msg_iov k.p) len (buffers F len n t seq zeros) u
      → (k' : Sink) × (sink_with_recvmsg K fd k r s
          ≡ done
              ((pos n, record r { bytes = n * len; try_again = 0 }), k')
              (after_calls
                (Call.recvmsg fd (recv_flags k.p))
                n
                (after Call.malloc (after Call.malloc (after Call.malloc s)))))
        × (k'.p ≡ k.p)
flood-sink F K len t seq fd k r s some small elems wide fit bare alloc v fresh steady seq_small size
      fits ready d =
    let n = pos_part k.p.count in
    let u = s.tick + 1 + 1 + 1 in
    let (served, got, bytes, empty) = delivered-counts F K (msg_iov k.p) len n t u seq zeros d in
    let run =
      recvmsg-checks K fd k r s some small elems wide fit bare alloc v fresh served
        (omega (arith, bytes)) in
    let read = packets-delivered F K (msg_iov k.p) len n t u seq zeros seq_small d in
    (
      check_stream (packets K (msg_iov k.p) u n) k,
      run ∙ rw (got, bytes, empty),
      rw (read, whole)
          (check_stream-stamps F (len / hdr_size - 1) n t seq k steady seq_small ready),
    )
  where
    whole : len / hdr_size ≡ suc (len / hdr_size - 1)
    whole = omega arith
