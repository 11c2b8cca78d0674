-- ===== src/Sink/Recvmmsg/Loop.antt =====
-- The loop of `sink_with_recv_mmsg`, for any account of what the messages of one call do.
use network_testing.Common.{
  ℕ, zero, suc, ◌+◌, ◌^◌, ◌≤◌, ◌<◌, ◌≡◌, ap, List, true, arith, inl, inr, pos_part, Bool-cases,
  ◌==◌, add64, sum_range, lt→ltb, le→ltb_false,
}
use network_testing.Kernel.{Kernel, Rc, ret, err, after, Call, Message, Proc, done, eagain}
use network_testing.Kernel.Laws.{Rc-cases, after_calls}
use network_testing.TimeBench.{TimeBench}
use network_testing.Sink.Params.{Sink, SinkParams}
use network_testing.Sink.Check.{Iov}
use network_testing.Sink.Check.Setup.{settings}
use network_testing.Sink.Receive.Counts.{replies, returned, empty_queue, all_served}
use network_testing.Sink.Recvmmsg.{take_messages, recvmmsg_loop, recvmmsg_flags}

-- the bytes of `n` messages of one call
abbrev pub lens : (ℕ → Message) → ℕ → ℕ → ℕ
lens msg pkt n = sum_range (λ i. (msg i).len) pkt n

-- the messages of one call
abbrev pub delivered : Rc → ℕ
delivered (ret k) = k
delivered (err e) = 0

-- the bytes of all messages of `n` calls
unfoldable pub message_bytes : Kernel → ℕ → ℕ → ℕ
message_bytes K t zero = 0
message_bytes K t (suc n) = lens (K.message t) 0 (delivered (K.rc t)) + message_bytes K (t + 1) n

-- What the messages of the call at `t` make of the sink.
abbrev pub Account : Type 0
Account = ℕ → ℕ → Sink → Sink

-- The account of `n` calls from the `t`-th on.
unfoldable pub seen_all : Kernel → Account → ℕ → ℕ → Sink → Sink
seen_all K seen t zero k = k
seen_all K seen t (suc n) k = seen_all K seen (t + 1) n (seen t (delivered (K.rc t)) k)

-- An account that is right where `P` holds, and keeps it, and the settings.
pub record IsAccount (K : Kernel) (iov : List Iov) (p : SinkParams) (P : Sink → Type 0)
    (seen : Account) : Type 0 where
  pub same : (k : Sink) → P k → settings k.p ≡ settings p
  pub kept : (t got : ℕ) (k : Sink) → P k → P (seen t got k)
  pub nothing : (t : ℕ) (k : Sink) → seen t 0 k ≡ k
  pub takes :
      (t got total : ℕ) (k : Sink) (s : Proc)
      → P k
      → total + lens (K.message t) 0 got < 2 ^ 64
      → take_messages (K.message t) iov 0 got total k s
        ≡ done (total + lens (K.message t) 0 got, seen t got k) s

module _ (K : Kernel) (fd : ℕ) (iov : List Iov) (p : SinkParams) (P : Sink → Type 0)
    (seen : Account) (right : IsAccount K iov p P seen) where
  abbrev call : Call
  call = Call.recvmmsg fd p.batch (recvmmsg_flags p)

  call-same :
      (q : SinkParams)
      → settings q ≡ settings p
      → Call.recvmmsg fd q.batch (recvmmsg_flags q) ≡ call
  call-same q e = ap (λ x. Call.recvmmsg fd x.batch (recvmmsg_flags x)) e

  -- The loop ends behind the call that reaches `count`, and the sink is the account of the calls.
  pub loop-sees :
      (n fuel cnt total : ℕ) (k : Sink) (r : TimeBench) (s : Proc)
      → n < fuel
      → P k
      → let rs = replies K.rc s.tick n in
        ((m : ℕ) → m < n → cnt + returned (replies K.rc s.tick m) < pos_part p.count)
        → pos_part p.count ≤ cnt + returned rs
        → all_served rs ≡ true
        → total + message_bytes K s.tick n < 2 ^ 64
        → r.try_again + n < 2 ^ 64
        → recvmmsg_loop K fuel fd iov cnt total k r s
          ≡ done
              (
                cnt + returned rs,
                total + message_bytes K s.tick n,
                seen_all K seen s.tick n k,
                record r { try_again = r.try_again + empty_queue rs },
              )
              (after_calls call n s)
  unfolding recvmmsg_loop replies returned empty_queue all_served after_calls message_bytes
      sum_range seen_all
  loop-sees n zero cnt total k r s fuel v short long served small few = absurd (omega arith)
  loop-sees zero (suc f) cnt total k r s fuel v short long served small few =
      let count : pos_part k.p.count ≡ pos_part p.count =
        ap (λ x. pos_part x.count) (right.same k v) in
      rw (count, le→ltb_false cnt (pos_part p.count) (omega arith), recvmmsg_loop) (ground arith)
  loop-sees (suc n) (suc f) cnt total k r s fuel v short long served small few =
      let e = right.same k v in
      let count : pos_part k.p.count ≡ pos_part p.count = ap (λ x. pos_part x.count) e in
      let more : cnt < pos_part p.count = omega (arith, short 0) in
      rw (count, lt→ltb cnt (pos_part p.count) more, call-same k.p e, recvmmsg_loop)
        (elim (Rc-cases (K.rc s.tick)) [
          | inl (got, g) ↦
              let bytes = lens (K.message s.tick) 0 got in
              let small' : total + bytes < 2 ^ 64 = ground arith in
              let later : (m : ℕ)
                  → m < n
                  → cnt + got + returned (replies K.rc (s.tick + 1) m) < pos_part p.count =
                λ m h. ground (arith, short (suc m)) in
              rw (g, right.takes s.tick got total k (after call s) v small')
                (ground (
                  arith,
                  loop-sees n f (cnt + got) (total + bytes) (seen s.tick got k) r (after call s)
                      (omega arith) (right.kept s.tick got k v) later,
                ))
          | inr (c, g) ↦
              let later : (m : ℕ)
                  → m < n
                  → cnt + returned (replies K.rc (s.tick + 1) m) < pos_part p.count =
                λ m h. ground (arith, short (suc m)) in
              rw (g, right.nothing s.tick k)
                (elim (Bool-cases (c == eagain)) [
                  | inl polled ↦
                      let r' = record r { try_again = add64 r.try_again 1 } in
                      rw polled (
                        ground (
                          arith,
                          g,
                          loop-sees n f cnt total k r' (after call s) (omega arith) v later,
                        ))
                  | inr failed ↦ ground arith
                ])
        ])
