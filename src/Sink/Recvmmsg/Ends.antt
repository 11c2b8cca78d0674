-- ===== src/Sink/Recvmmsg/Ends.antt =====
-- `sink_with_recv_mmsg` ends where every call brings packets.
use network_testing.Common.{
  ℕ, zero, suc, ◌+◌, ◌-◌, ◌^◌, ◌≤◌, ◌<◌, ◌≡◌, refl, ap, ◌∙◌, inl, inr, List, ◌∷◌, true, false, Bool,
  Bool-cases, if◌then◌else◌, ℤ, pos, pos_part, add64, arith, ltb, le→ltb_false,
}
use network_testing.Kernel.{Kernel, after, Call, Proc, done}
use network_testing.TimeBench.{TimeBench}
use network_testing.Sink.Params.{Sink}
use network_testing.Sink.Check.{Iov}
use network_testing.Sink.Check.Flat.{capacity, IsRoomy}
use network_testing.Sink.Check.Setup.{settings}
use network_testing.Sink.Message.{buckets, bucket_size}
use network_testing.Sink.Recvmsg.Counts.{buckets-IsRoomy}
use network_testing.Sink.Recvmmsg.Checks.{buckets-cons, is_nonzero-pos_part}
use network_testing.Sink.Recvmmsg.Counts.{after_buffers, set_up, malloc_buffers-after}
use network_testing.Sink.Recvmmsg.{
  is_bad, take_messages, recvmmsg_loop, recvmmsg_flags, sink_with_recv_mmsg,
}
use network_testing.Sink.Message.Passes.{
  fixed, Brings, IsLenient, HasRoom, fixed-settings, passes, packet_count-all,
}

module _ (K : Kernel) (from most : ℕ) (brings : Brings K from most) (word : most < 2 ^ 31) (b : Iov)
    (bs : List Iov) (roomy : IsRoomy (b ∷ bs)) (room : most ≤ capacity (b ∷ bs)) where
  take_messages-done :
      (t n pkt total : ℕ) (k : Sink) (s : Proc)
      → IsLenient (fixed k.p)
      → (total' : ℕ) × (k' : Sink) × (take_messages (K.message t) (b ∷ bs) pkt n total k s
          ≡ done (total', k') s)
        × (settings k'.p ≡ settings k.p)
  unfolding take_messages
  take_messages-done t zero pkt total k s v = (total, k, refl, refl)
  take_messages-done t (suc n) pkt total k s v =
      let m = K.message t pkt in
      let (k1, checked, same, name, control) =
        passes K from most brings word b bs roomy room m m.len k s v (brings.fits t pkt)
          (brings.bare t pkt) in
      let (total', k', rest, same') =
        take_messages-done t n (pkt + 1) (add64 total m.len) k1 s
          (fixed-settings IsLenient k1.p k.p same v) in
      (total', k', rw (take_messages, checked, name, control) rest, same' ∙ same)

  -- Each call brings a packet, so `n` more rounds than are missing packets are enough.
  recvmmsg_loop-done :
      (fd count n fuel cnt total : ℕ) (k : Sink) (r : TimeBench) (s : Proc)
      → IsLenient (fixed k.p)
      → from ≤ s.tick
      → pos_part k.p.count ≡ count
      → n < fuel
      → count ≤ cnt + n
      → cnt ≤ count + most
      → (cnt' : ℕ) × (total' : ℕ) × (k' : Sink) × (t : Proc) × (recvmmsg_loop K fuel fd
            (b ∷ bs)
            cnt
            total
            k
            r
            s
          ≡ done (cnt', total', k', r) t)
        × (settings k'.p ≡ settings k.p)
        × (from ≤ t.tick)
        × (count ≤ cnt')
        × (cnt' ≤ count + most)
  unfolding recvmmsg_loop
  recvmmsg_loop-done fd count n zero cnt total k r s v begun same_count enough missing within =
      absurd (omega arith)
  recvmmsg_loop-done fd count zero (suc fuel) cnt total k r s v begun same_count enough missing
        within =
      let reached = le→ltb_false cnt count (omega arith) in
      (
        cnt,
        total,
        k,
        s,
        rw (recvmmsg_loop, ap (λ c. ltb cnt c) same_count ∙ reached) refl,
        refl,
        begun,
        omega arith,
        within,
      )
  recvmmsg_loop-done fd count (suc n) (suc fuel) cnt total k r s v begun same_count enough missing
        within =
      elim (Bool-cases (ltb cnt count)) [
        | inr reached ↦ (
          cnt,
          total,
          k,
          s,
          rw (recvmmsg_loop, ap (λ c. ltb cnt c) same_count ∙ reached) refl,
          refl,
          begun,
          ground arith,
          within,
        )
        | inl short ↦
            let (got, came, some, small) = brings.calls s.tick begun in
            let s1 = after (Call.recvmmsg fd k.p.batch (recvmmsg_flags k.p)) s in
            let (total1, k1, taken, same) = take_messages-done s.tick got 0 total k s1 v in
            let (cnt', total', k', t, rest, same', later, most', least) =
              recvmmsg_loop-done fd count n fuel (cnt + got) total1 k1 r s1
                (fixed-settings IsLenient k1.p k.p same v) (omega arith)
                (ap (λ q. pos_part q.count) same ∙ same_count) (omega arith) (omega arith)
                (ground arith) in
            (
              cnt',
              total',
              k',
              t,
              rw (recvmmsg_loop, ap (λ c. ltb cnt c) same_count ∙ short, came, taken) rest,
              same' ∙ same,
              later,
              most',
              least,
            )
      ]

unless_bad-later : (bad : Bool) (s : Proc) → s.tick ≤ (if bad then s else after Call.malloc s).tick
unless_bad-later true s = omega arith
unless_bad-later false s = omega arith

after_buffers-later :
    (n : ℕ) (bad_addr : ℤ) (pkt : ℕ) (s : Proc) → s.tick ≤ (after_buffers n bad_addr pkt s).tick
unfolding after_buffers
after_buffers-later zero bad_addr pkt s = omega arith
after_buffers-later (suc n) bad_addr pkt s =
    let bad = is_bad bad_addr pkt in
    let s' = if bad then s else after Call.malloc s in
    omega (arith, unless_bad-later bad s, after_buffers-later n bad_addr (pkt + 1) s')

-- Where every call brings packets that pass the checks, and it is given more rounds than packets,
-- `sink_with_recv_mmsg` returns a number from `count` to `most` more.
pub sink_with_recv_mmsg-done :
    (K : Kernel) (from most n fuel fd : ℕ)
    → Brings K from most
    → 0 < n
    → n + most < 2 ^ 31
    → n < fuel
    → ((i : ℕ) → K.alloc i ≡ true)
    → (k : Sink) (r : TimeBench) (s : Proc) → IsLenient (fixed k.p)
    → HasRoom most (fixed k.p)
    → pos_part k.p.count ≡ n
    → r.try_again ≡ 0
    → from ≤ s.tick
    → (cnt : ℕ) × (r' : TimeBench) × (k' : Sink) × (t : Proc) × (sink_with_recv_mmsg K fuel fd k r s
        ≡ done ((pos cnt, r'), k') t)
      × (0 < cnt)
      × (cnt < 2 ^ 31)
      × (settings k'.p ≡ settings k.p)
      × (from ≤ t.tick)
unfolding sink_with_recv_mmsg set_up buckets
sink_with_recv_mmsg-done K from most n fuel fd brings some few enough alloc k r s v fits count fresh
      begun =
    let size = bucket_size k.p in
    let m = pos_part k.p.iov_elems - 1 in
    let b : Iov = record { base = 0; len = size } in
    let s3 = after Call.malloc (after Call.malloc (after Call.malloc s)) in
    let begun' : from ≤ (set_up k.p s).tick =
      omega (arith, after_buffers-later (pos_part k.p.batch) k.p.bad_addr 0 s3) in
    let (cnt, total, k', t, run, same, later, reached, within) =
      recvmmsg_loop-done K from most brings (omega arith) b (buckets (0 + size) size m)
        (fits.wide, buckets-IsRoomy (0 + size) size m fits.wide) fits.room fd n n fuel 0 0 k r
        (set_up k.p s) v begun' count enough (omega arith) (omega arith) in
    let elems = is_nonzero-pos_part k.p.iov_elems fits.elems in
    let few' : cnt < 2 ^ 31 = omega arith in
    (
      cnt,
      record r { bytes = total },
      k',
      t,
      rw
          (
            alloc s.tick,
            alloc (s.tick + 1),
            alloc (s.tick + 1 + 1),
            elems,
            malloc_buffers-after (pos_part k.p.batch) 0 k.p.bad_addr s3,
            buckets-cons size (pos_part k.p.iov_elems) fits.elems,
            run,
            packet_count-all cnt r.try_again few' fresh,
          )
          refl,
      omega arith,
      omega arith,
      same,
      later,
    )
