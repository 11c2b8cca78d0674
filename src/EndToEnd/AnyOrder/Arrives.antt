-- ===== src/EndToEnd/AnyOrder/Arrives.antt =====
-- What `sink_with_recvmsg` says of a flood that arrives in any order.
mod Tests
use network_testing.Common.{
  ℕ, zero, suc, ◌+◌, ◌-◌, ◌*◌, ◌/◌, ◌%◌, ◌^◌, ◌≤◌, ◌<◌, ◌≡◌, refl, ap, ◌∙◌, List, [], ◌∷◌, true,
  map, arith, get_or, length, ltb_ℤ, ℤ, pos, pos_part, is_nonzero, inl, inr, Bool-cases,
}
use network_testing.Kernel.{Kernel, Mem, Call, Proc, done, ret, after}
use network_testing.Kernel.Laws.{after_calls}
use network_testing.Pktgen.{PktgenHdr, hdr_size}
use network_testing.TimeBench.{TimeBench}
use network_testing.Sink.Params.{Sink, SinkParams}
use network_testing.Sink.Check.{Iov}
use network_testing.Sink.Check.Flat.{payload}
use network_testing.Sink.Check.Setup.{IsChecking}
use network_testing.Sink.Message.{bucket_size}
use network_testing.Sink.Receive.{recv_flags}
use network_testing.Sink.Receive.Counts.{replies, received, returned, empty_queue, all_served}
use network_testing.Sink.Recvmsg.{msg_iov, sink_with_recvmsg}
use network_testing.Sink.Recvmsg.Counts.{packets, check_stream, AllFit, recvmsg-checks}
use network_testing.Flood.Fill.{stamp, stamp_time}
use network_testing.Flood.Fill.Content.{copies, stamped_buffer, headers-stamped_buffer}
use network_testing.Flood.Send.Counts.{buffers, zeros}
use network_testing.EndToEnd.Stream.{IsSteady}
use network_testing.EndToEnd.Reading.{read, headers-congr}
use network_testing.EndToEnd.Order.{behind_count, check_stream-behind_count}
use network_testing.EndToEnd.AnyOrder.{
  header_at, descents, AllBelow, AllMagic-header_at, behind_count-descents,
}

-- The calls of the sink from the `t`-th on receive the buffers with the numbers of the list, one
-- packet of `len` bytes each.
unfoldable pub Arrives : Kernel → List Iov → ℕ → List Mem → List ℕ → ℕ → Type 0
Arrives K iov len ms [] t = Unit {0}
Arrives K iov len ms (i ∷ is) t =
    (K.rc t ≡ ret len)
    × ((j : ℕ) → j < len → payload (K.message t 0).memory iov j ≡ get_or ms i zeros j)
    × Arrives K iov len ms is (t + 1)

-- What is read in the `i`-th buffer of a flood.
read-buffers :
    (F : Kernel) (len n i t seq : ℕ) (m : Mem)
    → seq + n ≤ 3_000_000_000
    → i < n
    → read len (get_or (buffers F len n t seq m) i zeros)
      ≡ copies (len / hdr_size) (header_at F t seq i)
unfolding buffers
read-buffers F len zero i t seq m small low = absurd (omega arith)
read-buffers F len (suc n) zero t seq m small low =
    let e : t + 2 * 0 ≡ t = omega arith in
    let e' : seq + 0 ≡ seq = omega arith in
    rw (e, e')
      (headers-stamped_buffer F len t seq m (stamped_buffer F len t seq m) (omega arith)
        (λ j h. refl))
read-buffers F len (suc n) (suc i) t seq m small low =
    let next : (seq + 1) % 2 ^ 32 ≡ seq + 1 = omega arith in
    let e : t + 1 + 1 + 2 * i ≡ t + 2 * suc i = omega arith in
    let e' : seq + 1 + i ≡ seq + suc i = omega arith in
    rw next (
      read-buffers F len n i (t + 1 + 1) (seq + 1) (stamped_buffer F len t seq m) (omega arith)
        (omega arith)
      ∙ rw (e, e') refl)

module _ (F K : Kernel) (iov : List Iov) (len n t seq : ℕ) (small : seq + n ≤ 3_000_000_000) where
  packets-Arrives :
      (is : List ℕ) (u : ℕ)
      → AllBelow n is
      → Arrives K iov len (buffers F len n t seq zeros) is u
      → packets K iov u (length is) ≡ map (copies (len / hdr_size)) (map (header_at F t seq) is)
  unfolding Arrives packets
  packets-Arrives [] u all d = refl
  packets-Arrives (i ∷ is) u (low, all) (e, same, rest) =
      let m = payload (K.message u 0).memory iov in
      let first =
        headers-congr (len / hdr_size) m (get_or (buffers F len n t seq zeros) i zeros)
          (λ j h. same j (omega arith))
        ∙ read-buffers F len n i t seq zeros small low in
      rw (e, first, packets)
        (ap (λ l. copies (len / hdr_size) (header_at F t seq i) ∷ l)
          (packets-Arrives is (u + 1) all rest))

  Arrives-counts :
      (is : List ℕ) (u : ℕ) (ms : List Mem)
      → Arrives K iov len ms is u
      → let rs = replies K.rc u (length is) in
        (all_served rs ≡ true)
        × (received rs ≡ length is)
        × (returned rs ≡ length is * len)
        × (empty_queue rs ≡ 0)
  unfolding Arrives replies all_served received returned empty_queue
  Arrives-counts [] u ms d = (refl, refl, omega arith, refl)
  Arrives-counts (i ∷ is) u ms (e, same, rest) =
      let (a, b, c, d) = Arrives-counts is (u + 1) ms rest in
      rw e (a, omega (arith, b), omega (arith, c), d)

-- Nothing has been seen before the first packet.
fresh-behind_count :
    (last h : PktgenHdr) (hs : List PktgenHdr)
    → last.pgh_magic ≡ 0
    → behind_count last (h ∷ hs) ≡ behind_count h hs
unfolding behind_count
fresh-behind_count last h hs fresh = rw fresh (omega arith)

-- Where `F` is the kernel of a flood of `n` packets and `K` that of the sink, and the network loses,
-- repeats and reorders packets as it likes, so that those with the numbers in `i ∷ is` arrive:
-- `sink_with_recvmsg` at check level 1 or 2 returns how many arrived, has counted their bytes, and
-- has added to `ooo` exactly the packets with a smaller number than the one received before them; no
-- other parameter or statistic changes. The conditions: the sink counts as many packets as arrive; a
-- header fits a bucket and every packet the buckets; no control data comes, and neither that nor a
-- sender is asked for; no allocation fails; the clock of the flood does not step back, and its
-- seconds fit 32 bits; the packets have at least a header; their numbers stay within 3000000000; and
-- the sink has seen no header before.
pub flood-any_order :
    (F K : Kernel) (len n t seq fd i : ℕ) (is : List ℕ) (k : Sink) (r : TimeBench) (s : Proc)
    → let got = length (i ∷ is) in
      got ≡ pos_part k.p.count
      → got < 2 ^ 31
      → is_nonzero k.p.iov_elems ≡ true
      → hdr_size ≤ bucket_size k.p
      → AllFit K (msg_iov k.p)
      → ((j : ℕ) → (K.message j 0).controllen ≡ 0)
      → ((j : ℕ) → K.alloc j ≡ true)
      → IsChecking k.p
      → r.try_again ≡ 0
      → IsSteady F
      → seq + n ≤ 3_000_000_000
      → hdr_size ≤ len
      → got * len < 2 ^ 64
      → k.last.pgh_magic ≡ 0
      → AllBelow n (i ∷ is)
      → Arrives K (msg_iov k.p) len (buffers F len n t seq zeros) (i ∷ is) (s.tick + 1 + 1 + 1)
      → (k' : Sink) × (sink_with_recvmsg K fd k r s
          ≡ done
              ((pos got, record r { bytes = got * len; try_again = 0 }), k')
              (after_calls
                (Call.recvmsg fd (recv_flags k.p))
                got
                (after Call.malloc (after Call.malloc (after Call.malloc s)))))
        × (k'.p ≡ record k.p { ooo = k.p.ooo + descents i is })
flood-any_order F K len n t seq fd i is k r s count few elems wide fit bare alloc v again steady
      small size fits fresh all d =
    let got = length (i ∷ is) in
    let u = s.tick + 1 + 1 + 1 in
    let iov = msg_iov k.p in
    let (served, came, bytes, empty) =
      Arrives-counts F K iov len n t seq small (i ∷ is) u (buffers F len n t seq zeros) d in
    let run =
      recvmsg-checks K fd k r s (omega (arith, count)) (omega (arith, count)) elems wide fit bare
        alloc v again (rw (← count) served) (rw (← count) (omega (arith, bytes))) in
    let seen = packets-Arrives F K iov len n t seq small (i ∷ is) u all d in
    let hs = map (header_at F t seq) (i ∷ is) in
    let whole : len / hdr_size ≡ suc (len / hdr_size - 1) = omega arith in
    let checked =
      check_stream-behind_count (len / hdr_size - 1) hs k v.lenient
        (AllMagic-header_at F t seq steady (i ∷ is)) in
    let back =
      fresh-behind_count k.last (header_at F t seq i) (map (header_at F t seq) is) fresh
      ∙ behind_count-descents F t seq steady n i is small all.0 all.1 in
    (
      check_stream (packets K iov u got) k,
      rw (← count) at run ∙ rw (came, bytes, empty),
      ap (λ l. (check_stream l k).p) (seen ∙ ap (λ c. map (copies c) hs) whole)
          ∙ checked
          ∙ ap (λ x. record k.p { ooo = k.p.ooo + x }) back,
    )
