-- ===== src/Sink/Recvmmsg/Counts.antt =====
-- What the loop of `sink_with_recv_mmsg` counts, where no packet is checked.
use network_testing.Common.{
  ℕ, zero, suc, ◌+◌, ◌-◌, ◌^◌, ◌≤◌, ◌<◌, ◌≡◌, refl, ap, List, true, false, ℤ, pos, arith, pos_part,
  if◌then◌else◌, add64, sum_range, is_nonzero,
}
use network_testing.Kernel.{Kernel, after, Call, Message, Proc, done}
use network_testing.Kernel.Laws.{after_calls}
use network_testing.TimeBench.{TimeBench}
use network_testing.Sink.Params.{Sink, SinkParams}
use network_testing.Sink.Check.{Iov}
use network_testing.Sink.Check.Setup.{settings}
use network_testing.Sink.Check.Refine.{check_pkt-off}
use network_testing.Sink.Message.Accept.{IsPlain, check_msg_name-plain, check_cmsg-plain}
use network_testing.Sink.Receive.Counts.{replies, returned, empty_queue, all_served}
use network_testing.Sink.Message.{buckets, bucket_size}
use network_testing.Sink.Recvmmsg.Loop.{
  lens, message_bytes, Account, seen_all, IsAccount, loop-sees,
}
use network_testing.Sink.Recvmmsg.{
  is_bad, malloc_buffers, sink_with_recv_mmsg, take_messages, recvmmsg_flags,
}

module _ (msg : ℕ → Message) (iov : List Iov) (k : Sink) (off : is_nonzero k.p.check ≡ false)
    (plain : IsPlain k.p) (bare : (i : ℕ) → (msg i).controllen ≡ 0) where
  take_messages-plain :
      (n pkt total : ℕ) (s : Proc)
      → total + lens msg pkt n < 2 ^ 64
      → take_messages msg iov pkt n total k s ≡ done (total + lens msg pkt n, k) s
  unfolding take_messages sum_range
  take_messages-plain zero pkt total s small = ap (λ t. done (t, k) s) (omega arith)
  take_messages-plain (suc n) pkt total s small =
      rw
        (
          take_messages,
          check_pkt-off (msg pkt).memory iov (msg pkt).len k s off,
          check_msg_name-plain (msg pkt) k.p plain s,
          check_cmsg-plain (msg pkt) k.p plain s 512 (bare pkt),
        )
        (ground (arith, take_messages-plain n (pkt + 1) (add64 total (msg pkt).len) s))

-- Where nothing is checked the account of the calls is the sink itself.
abbrev unchanged : Account
unchanged t got k = k

seen_all-unchanged : (K : Kernel) (t n : ℕ) (k : Sink) → seen_all K unchanged t n k ≡ k
unfolding seen_all
seen_all-unchanged K t zero k = refl
seen_all-unchanged K t (suc n) k = seen_all-unchanged K (t + 1) n k

-- A sink with the settings of `p` that checks nothing and asks for no control data.
record IsSilent (p : SinkParams) (k : Sink) : Type 0 where
  same : settings k.p ≡ settings p
  off : is_nonzero k.p.check ≡ false
  plain : IsPlain k.p

unchanged-IsAccount :
    (K : Kernel) (iov : List Iov) (p : SinkParams)
    → ((t i : ℕ) → (K.message t i).controllen ≡ 0)
    → IsAccount K iov p (IsSilent p) unchanged
unchanged-IsAccount K iov p bare = record {
  same = λ k v. v.same;
  kept = λ t got k v. v;
  nothing = λ t k. refl;
  takes = λ t got total k s v small.
      take_messages-plain (K.message t) iov k v.off v.plain (bare t) got 0 total s small;
}

-- the process when the buffers have been allocated
unfoldable pub after_buffers : ℕ → ℤ → ℕ → Proc → Proc
after_buffers zero bad_addr pkt s = s
after_buffers (suc n) bad_addr pkt s =
    after_buffers n bad_addr (pkt + 1) (if is_bad bad_addr pkt then s else after Call.malloc s)

pub malloc_buffers-after :
    (n pkt : ℕ) (bad_addr : ℤ) (s : Proc)
    → malloc_buffers n bad_addr pkt s ≡ done tt (after_buffers n bad_addr pkt s)
unfolding malloc_buffers after_buffers
malloc_buffers-after zero pkt bad_addr s = refl
malloc_buffers-after (suc n) pkt bad_addr s =
    malloc_buffers-after n (pkt + 1) bad_addr
      (if is_bad bad_addr pkt then s else after Call.malloc s)

unfoldable pub set_up : SinkParams → Proc → Proc
set_up p s =
    after_buffers (pos_part p.batch) p.bad_addr 0
      (after Call.malloc (after Call.malloc (after Call.malloc s)))

module _ (K : Kernel) (fd : ℕ) (k : Sink) (off : is_nonzero k.p.check ≡ false) (plain : IsPlain k.p)
    (bare : (t i : ℕ) → (K.message t i).controllen ≡ 0) where
  -- Where no packet is checked, no call fails but for an empty queue, and the `n`-th call is the one
  -- that brings the packets to `count`, `sink_with_recv_mmsg` makes exactly `n` calls, if it is given
  -- more rounds. What it returns is the number of packets received less the calls that found none,
  -- if there were not more of those. No allocation of an array fails, and all numbers fit their words.
  pub recv_mmsg-counts :
      (n fuel : ℕ) (r : TimeBench) (s : Proc)
      → n < fuel
      → is_nonzero k.p.iov_elems ≡ true
      → ((i : ℕ) → K.alloc i ≡ true)
      → r.try_again ≡ 0
      → let t = (set_up k.p s).tick in
        let rs = replies K.rc t n in
        ((m : ℕ) → m < n → returned (replies K.rc t m) < pos_part k.p.count)
        → pos_part k.p.count ≤ returned rs
        → all_served rs ≡ true
        → message_bytes K t n < 2 ^ 64
        → n < 2 ^ 31
        → returned rs < 2 ^ 31
        → empty_queue rs ≤ returned rs
        → sink_with_recv_mmsg K fuel fd k r s
          ≡ done
              (
                (
                  pos (returned rs - empty_queue rs),
                  record r { bytes = message_bytes K t n; try_again = empty_queue rs },
                ),
                k,
              )
              (after_calls (Call.recvmmsg fd k.p.batch (recvmmsg_flags k.p)) n (set_up k.p s))
  unfolding sink_with_recv_mmsg set_up
  recv_mmsg-counts n fuel r s enough elems alloc fresh short long served small rounds few more =
      let iov = buckets 0 (bucket_size k.p) (pos_part k.p.iov_elems) in
      let silent : IsSilent k.p k = record { same = refl; off = off; plain = plain } in
      let m3 = after Call.malloc (after Call.malloc (after Call.malloc s)) in
      rw
        (
          alloc s.tick,
          alloc (s.tick + 1),
          alloc (s.tick + 1 + 1),
          elems,
          malloc_buffers-after (pos_part k.p.batch) 0 k.p.bad_addr m3,
          loop-sees K fd iov k.p (IsSilent k.p) unchanged (unchanged-IsAccount K iov k.p bare) n
              fuel 0 0 k r (set_up k.p s) enough silent (λ m h. omega (arith, short m h))
              (omega arith) served (omega arith) (omega arith),
          seen_all-unchanged K (set_up k.p s).tick n k,
        )
        (ground arith)
