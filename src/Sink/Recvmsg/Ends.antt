-- ===== src/Sink/Recvmsg/Ends.antt =====
-- `sink_with_recvmsg` ends where every call brings a packet.
use network_testing.Common.{
  ℕ, zero, suc, ◌+◌, ◌-◌, ◌^◌, ◌≤◌, ◌<◌, ◌≡◌, refl, ◌∙◌, List, ◌∷◌, true, pos, pos_part, add64,
  arith,
}
use network_testing.Kernel.{Kernel, after, Call, Proc, done}
use network_testing.TimeBench.{TimeBench}
use network_testing.Sink.Params.{Sink}
use network_testing.Sink.Check.{Iov}
use network_testing.Sink.Check.Flat.{capacity, IsRoomy}
use network_testing.Sink.Check.Setup.{settings}
use network_testing.Sink.Message.{buckets, bucket_size}
use network_testing.Sink.Receive.{recv_flags}
use network_testing.Sink.Recvmsg.{recvmsg_loop, sink_with_recvmsg}
use network_testing.Sink.Recvmsg.Counts.{buckets-IsRoomy}
use network_testing.Sink.Recvmmsg.Checks.{is_nonzero-pos_part}
use network_testing.Sink.Message.Passes.{
  fixed, Brings, IsLenient, HasRoom, fixed-settings, passes, packet_count-all,
}

module _ (K : Kernel) (from most : ℕ) (brings : Brings K from most) (word : most < 2 ^ 31) (b : Iov)
    (bs : List Iov) (roomy : IsRoomy (b ∷ bs)) (room : most ≤ capacity (b ∷ bs)) where
  recvmsg_loop-done :
      (fd flags n total : ℕ) (k : Sink) (r : TimeBench) (s : Proc)
      → IsLenient (fixed k.p)
      → from ≤ s.tick
      → (total' : ℕ) × (k' : Sink) × (t : Proc) × (recvmsg_loop K fd flags (b ∷ bs) n total k r s
          ≡ done (total', k', r) t)
        × (settings k'.p ≡ settings k.p)
        × (from ≤ t.tick)
  unfolding recvmsg_loop
  recvmsg_loop-done fd flags zero total k r s v begun = (total, k, s, refl, refl, begun)
  recvmsg_loop-done fd flags (suc n) total k r s v begun =
      let (len, came, some, small) = brings.calls s.tick begun in
      let s1 = after (Call.recvmsg fd flags) s in
      let (k1, checked, same, name, control) =
        passes K from most brings word b bs roomy room (K.message s.tick 0) len k s1 v small
          (brings.bare s.tick 0) in
      let (total', k', t, rest, same', later) =
        recvmsg_loop-done fd flags n (add64 total len) k1 r s1
          (fixed-settings IsLenient k1.p k.p same v) (omega arith) in
      (total', k', t, rw (recvmsg_loop, came, checked, name, control) rest, same' ∙ same, later)

-- Where every call brings a packet that passes the checks, `sink_with_recvmsg` returns `count`.
pub sink_with_recvmsg-done :
    (K : Kernel) (from most n fd : ℕ)
    → Brings K from most
    → most < 2 ^ 31
    → 0 < n
    → n < 2 ^ 31
    → ((i : ℕ) → K.alloc i ≡ true)
    → (k : Sink) (r : TimeBench) (s : Proc) → IsLenient (fixed k.p)
    → HasRoom most (fixed k.p)
    → pos_part k.p.count ≡ n
    → r.try_again ≡ 0
    → from ≤ s.tick
    → (r' : TimeBench) × (k' : Sink) × (t : Proc) × (sink_with_recvmsg K fd k r s
        ≡ done ((pos n, r'), k') t)
      × (settings k'.p ≡ settings k.p)
      × (from ≤ t.tick)
unfolding sink_with_recvmsg buckets
sink_with_recvmsg-done K from most n fd brings word some few alloc k r s v fits count fresh begun =
    let size = bucket_size k.p in
    let m = pos_part k.p.iov_elems - 1 in
    let b : Iov = record { base = 0; len = size } in
    let s3 = after Call.malloc (after Call.malloc (after Call.malloc s)) in
    let (total, k', t, run, same, later) =
      recvmsg_loop-done K from most brings word b (buckets (0 + size) size m)
        (fits.wide, buckets-IsRoomy (0 + size) size m fits.wide) fits.room fd (recv_flags k.p) n 0 k
        r s3 v (omega arith) in
    let elems = is_nonzero-pos_part k.p.iov_elems fits.elems in
    (
      record r { bytes = total },
      k',
      t,
      rw
          (
            alloc s.tick,
            alloc (s.tick + 1),
            alloc (s.tick + 1 + 1),
            elems,
            count,
            run,
            packet_count-all n r.try_again few fresh,
          )
          (ground arith),
      same,
      later,
    )
