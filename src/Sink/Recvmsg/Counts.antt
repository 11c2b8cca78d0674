-- ===== src/Sink/Recvmsg/Counts.antt =====
-- What the loop of `sink_with_recvmsg` counts, and that it checks every packet.
use network_testing.Common.{
  ℕ, zero, suc, ◌+◌, ◌/◌, ◌^◌, ◌≤◌, ◌<◌, ◌≡◌, List, [], ◌∷◌, true, Bool-cases, ◌==◌, inl, inr, ◌-◌,
  pos_part, pos, arith, add64, is_nonzero,
}
use network_testing.Kernel.{Kernel, ret, err, after, Call, Proc, done, eagain}
use network_testing.Kernel.Laws.{Rc-cases, after_calls}
use network_testing.Pktgen.{PktgenHdr, hdr_size}
use network_testing.TimeBench.{TimeBench}
use network_testing.Sink.Params.{Sink}
use network_testing.Sink.Check.{Iov}
use network_testing.Sink.Check.Flat.{payload, headers, check_headers, capacity, IsRoomy}
use network_testing.Sink.Check.Refine.{check_pkt-check_packet}
use network_testing.Sink.Check.Setup.{
  IsChecking, IsChecking-IsPlain, check_headers-IsChecking, check_packet-lenient,
}
use network_testing.Sink.Message.Accept.{check_msg_name-plain, check_cmsg-plain}
use network_testing.Sink.Receive.Counts.{
  replies, received, received-add-empty_queue, returned, empty_queue, all_served,
}
use network_testing.Sink.Message.{buckets, bucket_size}
use network_testing.Sink.Receive.{recv_flags}
use network_testing.Sink.Recvmsg.{recvmsg_loop, msg_iov, sink_with_recvmsg}

-- the headers of the packets that `n` calls from the `t`-th on received
unfoldable pub packets : Kernel → List Iov → ℕ → ℕ → List (List PktgenHdr)
packets K iov t zero = []
packets K iov t (suc n) = elim (K.rc t) [
  | ret len ↦
      headers (len / hdr_size) (payload (K.message t 0).memory iov) ∷ packets K iov (t + 1) n
  | err e ↦ packets K iov (t + 1) n
]

-- One packet after the other is checked.
unfoldable pub check_stream : List (List PktgenHdr) → Sink → Sink
check_stream [] k = k
check_stream (hs ∷ rest) k = check_stream rest (check_headers hs k)

-- No packet is larger than the buckets.
abbrev pub AllFit : Kernel → List Iov → Type 0
AllFit K iov = (t len : ℕ) → K.rc t ≡ ret len → (len ≤ capacity iov) × (len < 2 ^ 31)

module _ (K : Kernel) (fd flags : ℕ) (b : Iov) (bs : List Iov) (roomy : IsRoomy (b ∷ bs))
    (fit : AllFit K (b ∷ bs)) (bare : (t : ℕ) → (K.message t 0).controllen ≡ 0) where
  abbrev call : Call
  call = Call.recvmsg fd flags

  loop-checks :
      (n total : ℕ) (k : Sink) (r : TimeBench) (s : Proc)
      → IsChecking k.p
      → let rs = replies K.rc s.tick n in
        all_served rs ≡ true
        → total + returned rs < 2 ^ 64
        → r.try_again + n < 2 ^ 64
        → recvmsg_loop K fd flags (b ∷ bs) n total k r s
          ≡ done
              (
                total + returned rs,
                check_stream (packets K (b ∷ bs) s.tick n) k,
                record r { try_again = r.try_again + empty_queue rs },
              )
              (after_calls call n s)
  unfolding recvmsg_loop replies returned empty_queue all_served after_calls packets check_stream
  loop-checks zero total k r s v served small few =
      let e1 : total + 0 ≡ total = omega arith in
      let e2 : r.try_again + 0 ≡ r.try_again = omega arith in rw (e1, e2)
  loop-checks (suc n) total k r s v served small few = elim (Rc-cases (K.rc s.tick)) [
    | inl (len, e) ↦
        let hs = headers (len / hdr_size) (payload (K.message s.tick 0).memory (b ∷ bs)) in
        let ok = fit s.tick len e in
        let s1 = after call s in
        rw
          (
            e,
            recvmsg_loop,
            check_pkt-check_packet (K.message s.tick 0).memory b bs len k roomy ok.0 ok.1,
            check_packet-lenient hs k s1 v,
            check_msg_name-plain (K.message s.tick 0) k.p (IsChecking-IsPlain v) s1,
            check_cmsg-plain (K.message s.tick 0) k.p (IsChecking-IsPlain v) s1 512 (bare s.tick),
          )
          (ground (
            arith,
            loop-checks n (add64 total len) (check_headers hs k) r s1
                (check_headers-IsChecking hs k v),
          ))
    | inr (c, e) ↦ rw e (elim (Bool-cases (c == eagain)) [
      | inl polled ↦
          let r' = record r { try_again = add64 r.try_again 1 } in
          rw polled (ground (arith, e, loop-checks n total k r' (after call s) v))
      | inr failed ↦ ground arith
    ])
  ]

pub buckets-IsRoomy : (base size n : ℕ) → hdr_size ≤ size → IsRoomy (buckets base size n)
unfolding buckets
buckets-IsRoomy base size zero h = tt
buckets-IsRoomy base size (suc n) h = (h, buckets-IsRoomy (base + size) size n h)

-- At level 1 or 2, where no call fails but for an empty queue, `sink_with_recvmsg` returns the
-- number of packets received, and every one of them has been checked, in the order received, as
-- the list of the headers of its payload, however the payload was scattered over the buckets. A
-- header fits a bucket and every packet the buckets; no control data comes, and neither that nor a
-- sender is asked for; no allocation fails; the record is fresh; there is a packet to wait for; and
-- the bytes fit 64 bits.
pub recvmsg-checks :
    (K : Kernel) (fd : ℕ) (k : Sink) (r : TimeBench) (s : Proc)
    → let n = pos_part k.p.count in
      0 < n
      → n < 2 ^ 31
      → is_nonzero k.p.iov_elems ≡ true
      → hdr_size ≤ bucket_size k.p
      → AllFit K (msg_iov k.p)
      → ((t : ℕ) → (K.message t 0).controllen ≡ 0)
      → ((i : ℕ) → K.alloc i ≡ true)
      → IsChecking k.p
      → r.try_again ≡ 0
      → let t = s.tick + 1 + 1 + 1 in
        let rs = replies K.rc t n in
        all_served rs ≡ true
        → returned rs < 2 ^ 64
        → sink_with_recvmsg K fd k r s
          ≡ done
              (
                (pos (received rs), record r { bytes = returned rs; try_again = empty_queue rs }),
                check_stream (packets K (msg_iov k.p) t n) k,
              )
              (after_calls
                (Call.recvmsg fd (recv_flags k.p))
                n
                (after Call.malloc (after Call.malloc (after Call.malloc s))))
unfolding sink_with_recvmsg buckets
recvmsg-checks K fd k r s some small elems wide fit bare alloc v fresh served bytes =
    let size = bucket_size k.p in
    let m = pos_part k.p.iov_elems - 1 in
    let s3 = after Call.malloc (after Call.malloc (after Call.malloc s)) in
    let n = pos_part k.p.count in
    let total = received-add-empty_queue K.rc (s.tick + 1 + 1 + 1) n in
    rw
      (
        alloc s.tick,
        alloc (s.tick + 1),
        alloc (s.tick + 1 + 1),
        elems,
        loop-checks K fd (recv_flags k.p) (record { base = 0; len = size })
            (buckets (0 + size) size m) (wide, buckets-IsRoomy (0 + size) size m wide) fit bare n 0
            k r s3 v served (omega arith) (omega arith),
      )
      (ground (arith, total))
