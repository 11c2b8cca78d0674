-- ===== src/Sink/Receive/Counts.antt =====
-- What the receive loops count, against the list of the kernel's replies.
use network_testing.Common.{
  ℕ, zero, suc, ◌+◌, ◌^◌, ◌<◌, ◌≡◌, List, [], ◌∷◌, Bool, true, false, ◌==◌, if◌then◌else◌, ℤ, pos,
  arith, inl, inr, add64,
}
use network_testing.Kernel.{
  Kernel, Rc, ret, err, after, Call, Proc, done, exited, eagain, exit_fail_sock,
}
use network_testing.Kernel.Laws.{Rc-cases, after_calls}
use network_testing.TimeBench.{TimeBench}
use network_testing.Sink.Params.{SinkParams}
use network_testing.Sink.Receive.{
  receive_loop, sink_with_read, sink_with_recvfrom, sink_with_recv, packet_count, recv_flags,
}

-- the replies to `n` calls from the `t`-th on
unfoldable pub replies : (ℕ → Rc) → ℕ → ℕ → List Rc
replies f t zero = []
replies f t (suc n) = f t ∷ replies f (t + 1) n

-- packets received, the sum of the results, and calls that found no packet
unfoldable pub received : List Rc → ℕ
received [] = 0
received (ret k ∷ rs) = 1 + received rs
received (err e ∷ rs) = received rs

unfoldable pub returned : List Rc → ℕ
returned [] = 0
returned (ret k ∷ rs) = k + returned rs
returned (err e ∷ rs) = returned rs

unfoldable pub empty_queue : List Rc → ℕ
empty_queue [] = 0
empty_queue (ret k ∷ rs) = empty_queue rs
empty_queue (err e ∷ rs) = 1 + empty_queue rs

-- no reply is an error other than EAGAIN
unfoldable pub all_served : List Rc → Bool
all_served [] = true
all_served (ret k ∷ rs) = all_served rs
all_served (err e ∷ rs) = if e == eagain then all_served rs else false

-- the number of calls up to the first that failed otherwise
pub until_failure : List Rc → ℕ
until_failure [] = 0
until_failure (ret k ∷ rs) = suc (until_failure rs)
until_failure (err e ∷ rs) = suc (if e == eagain then until_failure rs else 0)

-- Every call that was served found a packet or an empty queue.
pub received-add-empty_queue :
    (f : ℕ → Rc) (t n : ℕ) → received (replies f t n) + empty_queue (replies f t n) ≡ n
unfolding replies received empty_queue
received-add-empty_queue f t zero = omega arith
received-add-empty_queue f t (suc n) = ground (arith, received-add-empty_queue f (t + 1) n)

module _ (K : Kernel) (fd : ℕ) (call : Call) where
  -- The loop ends behind its last round, with what it added up.
  loop-counts :
      (n total : ℕ) (r : TimeBench) (s : Proc)
      → let rs = replies K.rc s.tick n in
        all_served rs ≡ true
        → total + returned rs < 2 ^ 64
        → r.try_again + empty_queue rs < 2 ^ 64
        → receive_loop K fd call n total r s
          ≡ done
              (total + returned rs, record r { try_again = r.try_again + empty_queue rs })
              (after_calls call n s)
  unfolding receive_loop replies returned empty_queue all_served after_calls
  loop-counts zero total r s served small few =
      let e1 : total + 0 ≡ total = omega arith in
      let e2 : r.try_again + 0 ≡ r.try_again = omega arith in rw (e1, e2)
  loop-counts (suc n) total r s served small few = elim (Rc-cases (K.rc s.tick)) [
    | inl (k, e) ↦ ground (arith, loop-counts n (add64 total k) r (after call s))
    | inr (c, e) ↦
        ground
          (arith, loop-counts n total (record r { try_again = add64 r.try_again 1 }) (after call s))
  ]

  -- The loop ends at the first call that fails: the socket is closed and the program left.
  loop-fails :
      (n total : ℕ) (r : TimeBench) (s : Proc)
      → let rs = replies K.rc s.tick n in
        all_served rs ≡ false
        → receive_loop K fd call n total r s
          ≡ exited exit_fail_sock (after (Call.close fd) (after_calls call (until_failure rs) s))
  unfolding receive_loop replies until_failure all_served after_calls
  loop-fails zero total r s h = cc
  loop-fails (suc n) total r s h = elim (Rc-cases (K.rc s.tick)) [
    | inl (k, e) ↦ ground (arith, loop-fails n (add64 total k) r (after call s))
    | inr (c, e) ↦
        ground
          (arith, loop-fails n total (record r { try_again = add64 r.try_again 1 }) (after call s))
  ]

packet_count-eq : (n got empty : ℕ) → got + empty ≡ n → n < 2 ^ 31 → packet_count n empty ≡ pos got
packet_count-eq n got empty e h = ground arith

-- the process when the loop begins
abbrev pub allocated : Proc → Proc
allocated s = after Call.malloc s

-- the result and the record where every call was served
abbrev pub counted : List Rc → TimeBench → ℤ × TimeBench
counted rs r = (pos (received rs), record r { bytes = returned rs; try_again = empty_queue rs })

module _ (K : Kernel) (fd n : ℕ) (p : SinkParams) (r : TimeBench) (s : Proc)
    (count : p.count ≡ pos n) (alloc : K.alloc s.tick ≡ true) where
  -- Where no call fails but for an empty queue, each of `sink_with_read`, `sink_with_recvfrom` and
  -- `sink_with_recv` makes `count` calls, returns the number of packets received, and records
  -- their bytes and the calls that found the queue empty.
  pub receive-counts :
      n < 2 ^ 31
      → 0 < n
      → r.try_again ≡ 0
      → let rs = replies K.rc (s.tick + 1) n in
        all_served rs ≡ true
        → returned rs < 2 ^ 64
        → (sink_with_read K fd p r s
            ≡ done (counted rs r) (after_calls (Call.read fd p.buf_sz) n (allocated s)))
          × (sink_with_recvfrom K fd p r s
              ≡ done
                  (counted rs r)
                  (after_calls (Call.recvfrom fd p.buf_sz (recv_flags p)) n (allocated s)))
          × (sink_with_recv K fd p r s
              ≡ done
                  (counted rs r)
                  (after_calls (Call.recv fd p.buf_sz (recv_flags p)) n (allocated s)))
  unfolding sink_with_read sink_with_recvfrom sink_with_recv
  receive-counts small some_rounds fresh served fits =
      let total = received-add-empty_queue K.rc (s.tick + 1) n in
      let loop =
        λ (c : Call). loop-counts K fd c n 0 r (allocated s) served (omega arith) (omega arith) in
      (
        rw (alloc, count, loop (Call.read fd p.buf_sz)) (ground (arith, total)),
        rw (alloc, count, loop (Call.recvfrom fd p.buf_sz (recv_flags p))) (ground (arith, total)),
        rw (alloc, count, loop (Call.recv fd p.buf_sz (recv_flags p))) (ground (arith, total)),
      )

  -- At the first call that fails for another reason, each of the three closes the socket and exits
  -- with EXIT_FAIL_SOCK.
  pub receive-fails :
      let rs = replies K.rc (s.tick + 1) n in
      let gone =
        λ (c : Call). after (Call.close fd) (after_calls c (until_failure rs) (allocated s)) in
      all_served rs ≡ false
      → (sink_with_read K fd p r s ≡ exited exit_fail_sock (gone (Call.read fd p.buf_sz)))
        × (sink_with_recvfrom K fd p r s
            ≡ exited exit_fail_sock (gone (Call.recvfrom fd p.buf_sz (recv_flags p))))
        × (sink_with_recv K fd p r s
            ≡ exited exit_fail_sock (gone (Call.recv fd p.buf_sz (recv_flags p))))
  unfolding sink_with_read sink_with_recvfrom sink_with_recv
  receive-fails failed =
      let loop = λ (c : Call). loop-fails K fd c n 0 r (allocated s) failed in
      (
        rw (alloc, count, loop (Call.read fd p.buf_sz)),
        rw (alloc, count, loop (Call.recvfrom fd p.buf_sz (recv_flags p))),
        rw (alloc, count, loop (Call.recv fd p.buf_sz (recv_flags p))),
      )
