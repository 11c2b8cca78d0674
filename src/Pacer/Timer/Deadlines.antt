-- ===== src/Pacer/Timer/Deadlines.antt =====
-- The deadlines that the timer thread of udp_pacer.c sleeps until, whatever happens to it.
use network_testing.Common.{
  ℕ, zero, suc, ◌+◌, ◌*◌, ◌%◌, ◌^◌, ◌≤◌, ◌≡◌, refl, ap, ◌∙◌, ◌⊎◌, inl, inr, Bool, Bool-cases,
  Option-cases, ◌==◌, ltb, List, [], ◌∷◌, some, none, ℤ, pos, negsuc, pos_part, ◌+ℤ◌, to_u64, arith,
}
use mathlib.Core.Path.{subst, sym}
use network_testing.Kernel.{
  Kernel, Mem, Timespec, Call, Proc, Run, done, exited, crashed, out_of_fuel, and_then, pure, after,
  eperm,
}
use network_testing.Kernel.Laws.{Rc-cases}
use network_testing.Pacer.Timing.{pktgen_stamp, fill_buf_pktgen, calcdiff}
use network_testing.Pktgen.{hdr_byte, memcpy}
use network_testing.Pacer.Timing.Drift.{
  nanoseconds, deadline, add_interval-normal, add_interval-deadline,
}
use network_testing.Pacer.Timer.{
  ThreadParam, ThreadStat, record_diff, send_loop, socket_send, cycle, is_last, timer_loop,
  run_from, timer_start, timer_thread,
}

-- the process at the end of a run, however it ended
abbrev pub end_of : {A : Type 0} → Run A → Proc
end_of (done a s) = s
end_of (exited c s) = s
end_of (crashed s) = s
end_of (out_of_fuel s) = s

-- what the sleeps among the calls wait for, the latest first
unfoldable pub sleeps : List Call → List Timespec
sleeps [] = []
sleeps (Call.nanosleep next ∷ calls) = next ∷ sleeps calls
sleeps (c ∷ calls) = sleeps calls

-- how often the clock was read
unfoldable pub readings : List Call → ℕ
readings [] = 0
readings (Call.clock_gettime ∷ calls) = readings calls + 1
readings (c ∷ calls) = readings calls

-- Nothing but calls of other kinds lies between the two.
abbrev Same : Proc → Proc → Type 0
Same s t = (sleeps t.calls ≡ sleeps s.calls) × (readings t.calls ≡ readings s.calls)

-- the first `n` deadlines of a timer that started at `start`, the last first, before `rest`
unfoldable pub deadlines : (start usec n : ℕ) → List Timespec → List Timespec
deadlines start usec zero rest = rest
deadlines start usec (suc n) rest = deadline start usec (n + 1) ∷ deadlines start usec n rest

end_of-pure :
    {A B : Type 0} (r : Run A) (f : A → B) → end_of (and_then r (λ a. pure (f a))) ≡ end_of r
end_of-pure (done a s) f = refl
end_of-pure (exited c s) f = refl
end_of-pure (crashed s) f = refl
end_of-pure (out_of_fuel s) f = refl

module _ (K : Kernel) where
  send_loop-silent :
      (fd n : ℕ) (m : Mem) (sz : ℤ) (s : Proc)
      → (t : Proc) × (send_loop K fd n m sz s ≡ done tt t) × Same s t
  unfolding send_loop sleeps readings
  send_loop-silent fd zero m sz s = (s, refl, (refl, refl))
  send_loop-silent fd (suc n) m sz s = elim (Rc-cases (K.rc s.tick)) [
    | inl (k, went) ↦
        let (t, run, same) = send_loop-silent fd n m sz (after (Call.send fd m sz) s) in
        (t, rw (went, send_loop) run, same)
    | inr (e, failed) ↦ (after (Call.send fd m sz) s, rw (failed, send_loop) refl, (refl, refl))
  ]

  fill_buf_pktgen-silent :
      (len : ℤ) (ts : Timespec) (seq : ℕ) (m : Mem) (s : Proc)
      → (fill_buf_pktgen len ts seq m s ≡ crashed s)
        ⊎ ((m' : Mem) × (fill_buf_pktgen len ts seq m s ≡ done m' s))
  unfolding fill_buf_pktgen
  fill_buf_pktgen-silent len ts seq m s = elim (Bool-cases (ltb (to_u64 len) 8)) [
    | inl short ↦ inr (m, rw (fill_buf_pktgen, short) refl)
    | inr above ↦ elim (Bool-cases (ltb (to_u64 len) 16)) [
      | inl less ↦ inl (rw (fill_buf_pktgen, above, less) refl)
      | inr enough ↦
          inr (
            memcpy m 0 (hdr_byte (pktgen_stamp ts seq)) 16,
            rw (fill_buf_pktgen, above, enough) refl,
          )
    ]
  ]

  -- A cycle does not sleep or read the clock once more.
  cycle-silent :
      (par : ThreadParam) (now next : Timespec) (m : Mem) (st : ThreadStat) (s : Proc)
      → (cycle K par now next m st s ≡ crashed s)
        ⊎ ((m' : Mem) × (t : Proc) × (cycle K par now next m st s
              ≡ done
                  (
                    m',
                    record_diff (calcdiff now next) st,
                    is_last par (record_diff (calcdiff now next) st),
                  )
                  t)
            × Same s t)
  unfolding cycle socket_send
  cycle-silent par now next m st s =
      let seq = to_u64 (calcdiff now next) % 2 ^ 32 in
      elim (fill_buf_pktgen-silent par.msg_sz now seq m s) [
        | inl beyond ↦ inl (rw beyond refl)
        | inr (m', filled) ↦
            let (t, run, same) = send_loop-silent par.sockfd (pos_part par.batch) m' par.msg_sz s in
            inr (m', t, rw (filled, run) refl, same)
      ]

  module _ (shutdown : ℕ → Bool) (par : ThreadParam) (start : ℕ) (rest : List Timespec)
      (read : ℕ) where
    -- The sleeps so far are the first `k` deadlines, and the clock was read behind each of them, or
    -- behind each but the last.
    abbrev Slept : ℕ → Proc → Type 0
    Slept k s =
        (sleeps s.calls ≡ deadlines start par.interval k rest) × (readings s.calls ≡ read + k)

    abbrev SleptAtEnd : ℕ → Proc → Type 0
    SleptAtEnd k s =
        (sleeps s.calls ≡ deadlines start par.interval k rest)
        × (readings s.calls ≤ read + k)
        × (read + k ≤ readings s.calls + 1)

    at_end : (k : ℕ) (s : Proc) → Slept k s → SleptAtEnd k s
    at_end k s slept = (slept.0, omega (arith, slept.1), omega (arith, slept.1))

    timer_loop-deadlines :
        (fuel k : ℕ) (m : Mem) (st : ThreadStat) (s : Proc)
        → Slept k s
        → let next = deadline start par.interval (k + 1) in
          (n : ℕ) × SleptAtEnd n (end_of (timer_loop K shutdown fuel par next m st s))
    unfolding timer_loop sleeps readings deadlines
    timer_loop-deadlines zero k m st s slept = (k, at_end k s slept)
    timer_loop-deadlines (suc fuel) k m st s slept =
        let next = deadline start par.interval (k + 1) in
        let s1 = after (Call.nanosleep next) s in
        let s2 = after Call.clock_gettime s1 in
        let slept' : Slept (suc k) s2 = (ap (λ x. next ∷ x) slept.0, omega (arith, slept.1)) in
        let asleep : SleptAtEnd (suc k) s1 =
          (ap (λ x. next ∷ x) slept.0, omega (arith, slept.1), omega (arith, slept.1)) in
        elim (Bool-cases (shutdown s.tick)) [
          | inl stop ↦ (k, rw (stop, timer_loop) (at_end k s slept))
          | inr on ↦ elim (Rc-cases (K.rc s.tick)) [
            | inr (e, failed) ↦ (suc k, rw (on, timer_loop, failed) asleep)
            | inl (z, woke) ↦ elim (Option-cases (K.clock (s.tick + 1))) [
              | inl unread ↦ (suc k, rw (on, timer_loop, woke, unread) (at_end (suc k) s2 slept'))
              | inr (now, got) ↦ elim (cycle-silent par now next m st s2) [
                | inl beyond ↦
                    (suc k, rw (on, timer_loop, woke, got, beyond) (at_end (suc k) s2 slept'))
                | inr (m', t, run, same) ↦
                    let st' = record_diff (calcdiff now next) st in
                    let next_one = add_interval-deadline start par.interval (k + 1) in
                    let one_more : k + 1 ≡ suc k = omega arith in
                    let after_it : Slept (suc k) t = (same.0 ∙ slept'.0, same.1 ∙ slept'.1) in
                    elim (Bool-cases (is_last par st')) [
                      | inl last ↦ (
                        suc k,
                        rw (on, timer_loop, woke, got, run, next_one, last)
                            (at_end (suc k) t after_it),
                      )
                      | inr more ↦
                          let (n, all) =
                            timer_loop-deadlines fuel (k + 1) m' st' t (rw one_more after_it) in
                          (n, rw (on, timer_loop, woke, got, run, next_one, more) all)
                    ]
              ]
            ]
          ]
        ]

  module _ (shutdown : ℕ → Bool) (par : ThreadParam) where
    -- what the first reading of the clock leaves in `now`
    abbrev pub started : ℕ → Timespec
    started t = elim (K.clock t) [ some ts ↦ ts | none ↦ K.stack t ]

    -- Of the calls of a run behind `s`: the sleeps are the first `n` deadlines of a timer that
    -- started at `start`, and behind the first reading of the clock there is one for each, or for
    -- each but the last.
    abbrev pub SleepsOnTime : (start n : ℕ) → Proc → Proc → Type 0
    SleepsOnTime start n s t =
        (sleeps t.calls ≡ deadlines start par.interval n (sleeps s.calls))
        × (readings t.calls ≤ readings s.calls + 1 + n)
        × (readings s.calls + n ≤ readings t.calls)

    timer_start-deadlines :
        (fuel : ℕ) (st : ThreadStat) (s : Proc)
        → (n : ℕ) × SleepsOnTime
            (nanoseconds (started s.tick))
            n
            s
            (end_of (timer_start K shutdown fuel par st s))
    unfolding timer_start sleeps readings deadlines
    timer_start-deadlines fuel st s =
        let now = started s.tick in
        let start = nanoseconds now in
        let s1 = after Call.clock_gettime s in
        let first : start + par.interval * 1000 ≡ start + (0 + 1) * (par.interval * 1000) =
          omega arith in
        let (n, slept) =
          timer_loop-deadlines shutdown par start (sleeps s.calls) (readings s.calls + 1) fuel 0
            (λ _. 0) (record st { thread_started = st.thread_started +ℤ pos 1 }) s1
            (refl, omega arith) in
        let on_time : SleepsOnTime start n s (
            end_of (
              timer_loop K shutdown fuel par (deadline start par.interval (0 + 1)) (λ _. 0)
                (record st { thread_started = st.thread_started +ℤ pos 1 }) s1)) =
          (slept.0, slept.1, omega (arith, slept.2)) in
        (n, rw (add_interval-normal now par.interval, run_from, first) on_time)

    -- Whatever fails and whenever it is shut down: what the thread has slept for are the first
    -- deadlines of a timer that starts at its first reading of the clock, the `k`-th exactly `k`
    -- intervals behind that, however late it woke up before. Behind the first reading it has read the
    -- clock once for each sleep, or for each but the last.
    pub timer_thread-deadlines :
        (fuel : ℕ) (st : ThreadStat) (s : Proc)
        → (n : ℕ) × SleepsOnTime
            (nanoseconds (started (s.tick + 1 + 1)))
            n
            s
            (end_of (timer_thread K shutdown fuel par st s))
    unfolding timer_thread sleeps readings deadlines
    timer_thread-deadlines fuel st s =
        let s2 = after (Call.setscheduler par.prio) (after Call.malloc s) in
        let start = nanoseconds (started (s.tick + 1 + 1)) in
        let (n, all) = timer_start-deadlines fuel st s2 in
        let same =
          end_of-pure (timer_start K shutdown fuel par st s2)
            (λ st'. record st' { thread_started = negsuc 0 }) in
        let all' = subst (SleepsOnTime start n s) (sym same) all in
        elim (Bool-cases (K.alloc s.tick)) [
          | inr none_left ↦ (0, rw none_left (refl, omega arith, omega arith))
          | inl got ↦ elim (Rc-cases (K.rc (s.tick + 1))) [
            | inl (k, set) ↦ (n, rw (got, set) all')
            | inr (e, failed) ↦ elim (Bool-cases (e == eperm)) [
              | inl denied ↦ (n, rw (got, failed, denied) all')
              | inr other ↦ (0, rw (got, failed, other) (refl, omega arith, omega arith))
            ]
          ]
        ]
