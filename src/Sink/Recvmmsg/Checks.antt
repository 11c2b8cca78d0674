-- ===== src/Sink/Recvmmsg/Checks.antt =====
-- `sink_with_recv_mmsg` checks every packet of every call.
use network_testing.Common.{
  ℕ, zero, suc, ◌+◌, ◌-◌, ◌/◌, ◌^◌, ◌≤◌, ◌<◌, ◌≡◌, refl, ap, ◌∙◌, List, [], ◌∷◌, ◌++◌, true, ℤ,
  negsuc, pos, arith, pos_part, add64, sum_range, is_nonzero,
}
use mathlib.Core.Path.{subst}
use network_testing.Kernel.{Kernel, after, Call, Message, Proc, done}
use network_testing.Kernel.Laws.{after_calls}
use network_testing.Pktgen.{PktgenHdr, hdr_size}
use network_testing.TimeBench.{TimeBench}
use network_testing.Sink.Params.{Sink, SinkParams}
use network_testing.Sink.Check.{Iov}
use network_testing.Sink.Check.Flat.{payload, headers, check_headers, capacity, IsRoomy}
use network_testing.Sink.Check.Refine.{check_pkt-check_packet}
use network_testing.Sink.Check.Setup.{
  settings, check_headers-same, IsChecking, IsChecking-IsPlain, check_headers-IsChecking,
  check_packet-lenient,
}
use network_testing.Sink.Message.Accept.{check_msg_name-plain, check_cmsg-plain}
use network_testing.Sink.Receive.Counts.{replies, returned, empty_queue, all_served}
use network_testing.Sink.Message.{buckets, bucket_size}
use network_testing.Sink.Recvmsg.Counts.{check_stream, buckets-IsRoomy}
use network_testing.Sink.Recvmmsg.{sink_with_recv_mmsg, take_messages, recvmmsg_flags}
use network_testing.Sink.Recvmmsg.Loop.{
  lens, delivered, message_bytes, Account, seen_all, IsAccount, loop-sees,
}
use network_testing.Sink.Recvmmsg.Counts.{malloc_buffers-after, set_up}

-- the headers of the messages `pkt`, … of one call, `n` of them
unfoldable pub call_packets : (ℕ → Message) → List Iov → ℕ → ℕ → List (List PktgenHdr)
call_packets msg iov pkt zero = []
call_packets msg iov pkt (suc n) =
    headers ((msg pkt).len / hdr_size) (payload (msg pkt).memory iov)
    ∷ call_packets msg iov (pkt + 1) n

-- the headers of the packets that `n` calls from the `t`-th on received
unfoldable pub all_packets : Kernel → List Iov → ℕ → ℕ → List (List PktgenHdr)
all_packets K iov t zero = []
all_packets K iov t (suc n) =
    call_packets (K.message t) iov 0 (delivered (K.rc t)) ++ all_packets K iov (t + 1) n

check_stream-append :
    (xs ys : List (List PktgenHdr)) (k : Sink)
    → check_stream (xs ++ ys) k ≡ check_stream ys (check_stream xs k)
unfolding check_stream
check_stream-append [] ys k = refl
check_stream-append (hs ∷ xs) ys k = check_stream-append xs ys (check_headers hs k)

check_stream-IsChecking :
    (xs : List (List PktgenHdr)) (k : Sink) → IsChecking k.p → IsChecking (check_stream xs k).p
unfolding check_stream
check_stream-IsChecking [] k v = v
check_stream-IsChecking (hs ∷ xs) k v =
    check_stream-IsChecking xs (check_headers hs k) (check_headers-IsChecking hs k v)

check_stream-same :
    (xs : List (List PktgenHdr)) (k : Sink) → settings (check_stream xs k).p ≡ settings k.p
unfolding check_stream
check_stream-same [] k = refl
check_stream-same (hs ∷ xs) k = check_stream-same xs (check_headers hs k) ∙ check_headers-same hs k

-- No message is larger than the buckets, and none brings control data.
pub record IsFitting (K : Kernel) (iov : List Iov) : Type 0 where
  pub fits : (t i : ℕ) → (K.message t i).len ≤ capacity iov
  pub small : (t i : ℕ) → (K.message t i).len < 2 ^ 31
  pub bare : (t i : ℕ) → (K.message t i).controllen ≡ 0

module _ (K : Kernel) (b : Iov) (bs : List Iov) (roomy : IsRoomy (b ∷ bs))
    (fit : IsFitting K (b ∷ bs)) where
  take_messages-checks :
      (t n pkt total : ℕ) (k : Sink) (s : Proc)
      → IsChecking k.p
      → total + lens (K.message t) pkt n < 2 ^ 64
      → take_messages (K.message t) (b ∷ bs) pkt n total k s
        ≡ done
            (
              total + lens (K.message t) pkt n,
              check_stream (call_packets (K.message t) (b ∷ bs) pkt n) k,
            )
            s
  unfolding take_messages sum_range call_packets check_stream
  take_messages-checks t zero pkt total k s v small = ap (λ x. done (x, k) s) (omega arith)
  take_messages-checks t (suc n) pkt total k s v small =
      let m = K.message t pkt in
      let hs = headers (m.len / hdr_size) (payload m.memory (b ∷ bs)) in
      rw
        (
          take_messages,
          check_pkt-check_packet m.memory b bs m.len k roomy (fit.fits t pkt) (fit.small t pkt),
          check_packet-lenient hs k s v,
          check_msg_name-plain m k.p (IsChecking-IsPlain v) s,
          check_cmsg-plain m k.p (IsChecking-IsPlain v) s 512 (fit.bare t pkt),
        )
        (ground (
          arith,
          take_messages-checks t n (pkt + 1) (add64 total m.len) (check_headers hs k) s
              (check_headers-IsChecking hs k v),
        ))

  -- What the messages of a call make of the sink is the check of their headers.
  abbrev checked : Account
  checked t got k = check_stream (call_packets (K.message t) (b ∷ bs) 0 got) k

  seen_all-checked :
      (t n : ℕ) (k : Sink) → seen_all K checked t n k ≡ check_stream (all_packets K (b ∷ bs) t n) k
  unfolding seen_all all_packets check_stream
  seen_all-checked t zero k = refl
  seen_all-checked t (suc n) k =
      let xs = call_packets (K.message t) (b ∷ bs) 0 (delivered (K.rc t)) in
      rw
        (
          seen_all-checked (t + 1) n (check_stream xs k),
          check_stream-append xs (all_packets K (b ∷ bs) (t + 1) n) k,
        )
        refl

  -- A sink with the settings of `p` that checks without ending the program.
  record IsReady (p : SinkParams) (k : Sink) : Type 0 where
    same : settings k.p ≡ settings p
    checking : IsChecking k.p

  checked-IsAccount : (p : SinkParams) → IsAccount K (b ∷ bs) p (IsReady p) checked
  unfolding call_packets check_stream
  checked-IsAccount p = record {
    same = λ k v. v.same;
    kept = λ t got k v.
        let xs = call_packets (K.message t) (b ∷ bs) 0 got in
        record {
          same = check_stream-same xs k ∙ v.same;
          checking = check_stream-IsChecking xs k v.checking;
        };
    nothing = λ t k. refl;
    takes = λ t got total k s v small. take_messages-checks t got 0 total k s v.checking small;
  }

pub buckets-cons :
    (size n : ℕ)
    → 0 < n
    → buckets 0 size n ≡ record { base = 0; len = size } ∷ buckets (0 + size) size (n - 1)
unfolding buckets
buckets-cons size zero some = absurd (omega arith)
buckets-cons size (suc n) some = rw (predecessor n) refl
  where
    predecessor : (n : ℕ) → suc n - 1 ≡ n
    predecessor n = omega arith

pub is_nonzero-pos_part : (z : ℤ) → 0 < pos_part z → is_nonzero z ≡ true
is_nonzero-pos_part (pos n) some = ground arith
is_nonzero-pos_part (negsuc n) some = refl

-- At level 1 or 2, where no call fails but for an empty queue, and the `n`-th call is the one that
-- brings the packets to `count`, `sink_with_recv_mmsg` has checked every packet of every call, in
-- the order received, as the list of the headers of its payload. What it returns is the number
-- of packets less the calls that found none, if there were not more of those. A header fits a
-- bucket and every packet the buckets, no control data comes and none is asked for, no allocation of
-- an array fails, it is given more rounds than calls, and all numbers fit their words.
pub recv_mmsg-checks :
    (K : Kernel) (fd : ℕ) (k : Sink) (n fuel : ℕ) (r : TimeBench) (s : Proc)
    → n < fuel
    → 0 < pos_part k.p.iov_elems
    → hdr_size ≤ bucket_size k.p
    → let iov = buckets 0 (bucket_size k.p) (pos_part k.p.iov_elems) in
      IsFitting K iov
      → ((i : ℕ) → K.alloc i ≡ true)
      → IsChecking k.p
      → r.try_again ≡ 0
      → let t = (set_up k.p s).tick in
        let rs = replies K.rc t n in
        ((m : ℕ) → m < n → returned (replies K.rc t m) < pos_part k.p.count)
        → pos_part k.p.count ≤ returned rs
        → all_served rs ≡ true
        → message_bytes K t n < 2 ^ 64
        → n < 2 ^ 31
        → returned rs < 2 ^ 31
        → empty_queue rs ≤ returned rs
        → sink_with_recv_mmsg K fuel fd k r s
          ≡ done
              (
                (
                  pos (returned rs - empty_queue rs),
                  record r { bytes = message_bytes K t n; try_again = empty_queue rs },
                ),
                check_stream (all_packets K iov t n) k,
              )
              (after_calls (Call.recvmmsg fd k.p.batch (recvmmsg_flags k.p)) n (set_up k.p s))
unfolding sink_with_recv_mmsg set_up
recv_mmsg-checks K fd k n fuel r s enough some wide fit alloc v fresh short long served small rounds
      few more =
    let size = bucket_size k.p in
    let b : Iov = record { base = 0; len = size } in
    let bs = buckets (0 + size) size (pos_part k.p.iov_elems - 1) in
    let iov = buckets-cons size (pos_part k.p.iov_elems) some in
    let fit' : IsFitting K (b ∷ bs) = subst (IsFitting K) iov fit in
    let roomy : IsRoomy (b ∷ bs) =
      (wide, buckets-IsRoomy (0 + size) size (pos_part k.p.iov_elems - 1) wide) in
    let ready : IsReady K b bs roomy fit' k.p k = record { same = refl; checking = v } in
    let m3 = after Call.malloc (after Call.malloc (after Call.malloc s)) in
    rw
      (
        alloc s.tick,
        alloc (s.tick + 1),
        alloc (s.tick + 1 + 1),
        is_nonzero-pos_part k.p.iov_elems some,
        malloc_buffers-after (pos_part k.p.batch) 0 k.p.bad_addr m3,
        iov,
        loop-sees K fd (b ∷ bs) k.p (IsReady K b bs roomy fit' k.p) (checked K b bs roomy fit')
            (checked-IsAccount K b bs roomy fit' k.p) n fuel 0 0 k r (set_up k.p s) enough ready
            (λ m h. omega (arith, short m h)) (omega arith) served (omega arith) (omega arith),
        seen_all-checked K b bs roomy fit' (set_up k.p s).tick n k,
      )
      (ground arith)
