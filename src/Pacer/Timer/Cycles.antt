-- ===== src/Pacer/Timer/Cycles.antt =====
-- The cycles of the timer thread of udp_pacer.c, and the calls that it makes in them.
use network_testing.Common.{
  ℕ, zero, suc, ◌+◌, ◌*◌, ◌%◌, ◌^◌, ◌<◌, ◌≤◌, ◌≡◌, refl, List, ◌∷◌, Bool, true, false, some, ℤ,
  negsuc, pos, pos_part, ◌+ℤ◌, to_u64, arith,
}
use network_testing.Kernel.{Kernel, ret, Mem, Timespec, Call, Proc, done, after}
use network_testing.Kernel.Laws.{after_calls, tick-after_calls}
use network_testing.Pktgen.{hdr_size, hdr_of}
use network_testing.Pacer.Packet.{fill_buf_pktgen-stamp}
use network_testing.Pacer.Timing.{pktgen_stamp, fill_buf_pktgen, calcdiff}
use network_testing.Pacer.Timing.Drift.{
  nanoseconds, deadline, add_interval-normal, add_interval-deadline,
}
use network_testing.Pacer.Timer.{
  ThreadParam, ThreadStat, record_diff, send_loop, socket_send, cycle, is_last, timer_loop,
  run_from, timer_start, timer_thread,
}

-- a kernel in which no sleep, no send and no reading of the clock fails
pub record IsWorking (K : Kernel) : Type 0 where
  pub rc : (t : ℕ) → (k : ℕ) × (K.rc t ≡ ret k)
  pub clock : (t : ℕ) → (now : Timespec) × (K.clock t ≡ some now)

-- `n` times the call `c`, in front of `calls`.
unfoldable pub times : (n : ℕ) → Call → List Call → List Call
times zero c calls = calls
times (suc n) c calls = times n c (c ∷ calls)

calls-after_calls : (c : Call) (n : ℕ) (s : Proc) → (after_calls c n s).calls ≡ times n c s.calls
unfolding after_calls times
calls-after_calls c zero s = refl
calls-after_calls c (suc n) s = calls-after_calls c n (after c s)

-- The calls of one cycle: a sleep until `next`, a reading of the clock, and a batch of the packet.
abbrev pub cycle_calls : ThreadParam → Timespec → Mem → List Call → List Call
cycle_calls par next m calls =
    times (pos_part par.batch) (Call.send par.sockfd m par.msg_sz)
      (Call.clock_gettime ∷ Call.nanosleep next ∷ calls)

-- The calls of `k` cycles in front of `before`, the latest first, by a timer that started at
-- `start`. The first of them is the call `first`. The `k`-th cycle sleeps until the `k`-th deadline,
-- and its packet has the header with the time at which it woke up and the difference to the deadline
-- as its number.
pub data Paced (K : Kernel) (par : ThreadParam) (start first : ℕ) (before : List Call)
    : ℕ → List Call → Type 0 where
  begun : Paced K par start first before 0 before
  paced :
      (k : ℕ) (calls : List Call) (now : Timespec) (m : Mem)
      → Paced K par start first before k calls
      → K.clock (first + k * (2 + pos_part par.batch) + 1) ≡ some now
      → hdr_of m
        ≡ pktgen_stamp now (to_u64 (calcdiff now (deadline start par.interval (k + 1))) % 2 ^ 32)
      → Paced K par start first before
          (k + 1)
          (cycle_calls par (deadline start par.interval (k + 1)) m calls)

module _ (K : Kernel) (works : IsWorking K) where
  send_loop-done :
      (n fd : ℕ) (m : Mem) (sz : ℤ) (s : Proc)
      → send_loop K fd n m sz s ≡ done tt (after_calls (Call.send fd m sz) n s)
  unfolding send_loop after_calls
  send_loop-done zero fd m sz s = refl
  send_loop-done (suc n) fd m sz s =
      let (k, e) = works.rc s.tick in
      rw (e, send_loop) (send_loop-done n fd m sz (after (Call.send fd m sz) s))

  cycle-done :
      (par : ThreadParam) (len : ℕ) (now next : Timespec) (m : Mem) (st : ThreadStat) (last : Bool)
      (s : Proc)
      → par.msg_sz ≡ pos len
      → hdr_size ≤ len
      → len < 2 ^ 31
      → is_last par (record_diff (calcdiff now next) st) ≡ last
      → (m' : Mem) × (t : Proc) × (cycle K par now next m st s
          ≡ done (m', record_diff (calcdiff now next) st, last) t)
        × (t.tick ≡ s.tick + pos_part par.batch)
        × (t.calls ≡ times (pos_part par.batch) (Call.send par.sockfd m' par.msg_sz) s.calls)
        × (hdr_of m' ≡ pktgen_stamp now (to_u64 (calcdiff now next) % 2 ^ 32))
  unfolding cycle socket_send
  cycle-done par len now next m st last s size long small e =
      let seq = to_u64 (calcdiff now next) % 2 ^ 32 in
      let (m', filled, stamped, behind) = fill_buf_pktgen-stamp len now seq m s long small in
      let filled' : fill_buf_pktgen par.msg_sz now seq m s ≡ done m' s = rw size filled in
      let call = Call.send par.sockfd m' par.msg_sz in
      let n = pos_part par.batch in
      (
        m',
        after_calls call n s,
        rw (filled', send_loop-done n par.sockfd m' par.msg_sz s, e) refl,
        tick-after_calls call n s,
        calls-after_calls call n s,
        stamped,
      )

  is_last-limit :
      (par : ThreadParam) (st : ThreadStat)
      → st.cycles ≡ par.max_cycles
      → 0 < par.max_cycles
      → is_last par st ≡ true
  unfolding is_last
  is_last-limit par st e some_cycles = ground arith

  is_last-before :
      (par : ThreadParam) (st : ThreadStat) → st.cycles < par.max_cycles → is_last par st ≡ false
  unfolding is_last
  is_last-before par st h = ground arith

  cycles-record_diff :
      (d : ℤ) (st : ThreadStat) → (record_diff d st).cycles ≡ (st.cycles + 1) % 2 ^ 64
  unfolding record_diff
  cycles-record_diff d st = refl

  module _ (shutdown : ℕ → Bool) (running : (t : ℕ) → shutdown t ≡ false) (par : ThreadParam)
      (max_small : par.max_cycles < 2 ^ 64) (len : ℕ) (size : par.msg_sz ≡ pos len)
      (long : hdr_size ≤ len) (small : len < 2 ^ 31) (start first : ℕ) (before : List Call) where
    abbrev Calls : ℕ → Proc → Type 0
    Calls k s =
        Paced K par start first before k s.calls × (s.tick ≡ first + k * (2 + pos_part par.batch))

    -- One more cycle.
    cycle-paced :
        (k : ℕ) (m : Mem) (st : ThreadStat) (last : Bool) (s : Proc)
        → Calls k s
        → let next = deadline start par.interval (k + 1) in
          let s2 = after Call.clock_gettime (after (Call.nanosleep next) s) in
          (now : Timespec)
          → K.clock (s.tick + 1) ≡ some now
          → is_last par (record_diff (calcdiff now next) st) ≡ last
          → (m' : Mem) × (t : Proc) × (cycle K par now next m st s2
              ≡ done (m', record_diff (calcdiff now next) st, last) t)
            × Calls (k + 1) t
    cycle-paced k m st last s (calls, tick) now got e =
        let next = deadline start par.interval (k + 1) in
        let s2 = after Call.clock_gettime (after (Call.nanosleep next) s) in
        let (m', t, run, ticks, sent, stamped) =
          cycle-done par len now next m st last s2 size long small e in
        (
          m',
          t,
          run,
          (
            rw sent (paced k s.calls now m' calls (rw (← tick) got) stamped),
            ground (arith, ticks, tick),
          ),
        )

    -- While nothing shuts it down, the timer makes as many cycles as are left to its limit, and then
    -- ends.
    timer_loop-cycles :
        (n fuel k : ℕ) (m : Mem) (st : ThreadStat) (s : Proc)
        → n < fuel
        → st.cycles + (n + 1) ≡ par.max_cycles
        → Calls k s
        → (st' : ThreadStat) × (t : Proc) × (timer_loop K shutdown fuel par
              (deadline start par.interval (k + 1))
              m
              st
              s
            ≡ done st' t)
          × (st'.cycles ≡ par.max_cycles)
          × Calls (k + (n + 1)) t
    unfolding timer_loop
    timer_loop-cycles n zero k m st s enough left calls = ground arith
    timer_loop-cycles zero (suc fuel) k m st s enough left calls =
        let next = deadline start par.interval (k + 1) in
        let (z, slept) = works.rc s.tick in
        let (now, got) = works.clock (s.tick + 1) in
        let st' = record_diff (calcdiff now next) st in
        let count : st'.cycles ≡ par.max_cycles =
          omega (arith, cycles-record_diff (calcdiff now next) st) in
        let last = is_last-limit par st' count (omega (arith, left)) in
        let (m', t, run, calls') = cycle-paced k m st true s calls now got last in
        let next_one = add_interval-deadline start par.interval (k + 1) in
        (st', t, rw (running s.tick, timer_loop, slept, got, run, next_one) refl, count, calls')
    timer_loop-cycles (suc n) (suc fuel) k m st s enough left calls =
        let next = deadline start par.interval (k + 1) in
        let (z, slept) = works.rc s.tick in
        let (now, got) = works.clock (s.tick + 1) in
        let st' = record_diff (calcdiff now next) st in
        let count = cycles-record_diff (calcdiff now next) st in
        let last = is_last-before par st' (omega (arith, count)) in
        let (m', t, run, calls') = cycle-paced k m st false s calls now got last in
        let (st'', u, rest, all, calls'') =
          timer_loop-cycles n fuel (k + 1) m' st' t (omega arith) (omega (arith, count)) calls' in
        let next_one = add_interval-deadline start par.interval (k + 1) in
        let more : k + 1 + (n + 1) ≡ k + (suc n + 1) = omega arith in
        (
          st'',
          u,
          rw (running s.tick, timer_loop, slept, got, run, next_one) rest,
          all,
          rw more at calls'',
        )

  -- The start comes to the loop with the first deadline.
  timer_start-loop :
      (shutdown : ℕ → Bool) (par : ThreadParam) (fuel : ℕ) (st : ThreadStat) (now : Timespec)
      (s : Proc)
      → K.clock s.tick ≡ some now
      → timer_start K shutdown fuel par st s
        ≡ timer_loop K shutdown fuel par
            (deadline (nanoseconds now) par.interval 1)
            (λ _. 0)
            (record st { thread_started = st.thread_started +ℤ pos 1 })
            (after Call.clock_gettime s)
  unfolding timer_start
  timer_start-loop shutdown par fuel st now s got =
      let first : nanoseconds now + par.interval * 1000
          ≡ nanoseconds now + 1 * (par.interval * 1000) =
        omega arith in
      rw (got, add_interval-normal now par.interval, run_from, first) refl

  -- While nothing shuts it down and no call fails, with packets of at least a header, the thread
  -- makes exactly the `n + 1` cycles of its limit, whatever priority it gets, and ends with
  -- `thread_started` at -1. Behind the allocation, the priority and a first reading of the clock its
  -- calls are, in each cycle, a sleep until the next deadline, a reading of the clock, and `batch`
  -- sends of one packet: its header has the time read, and the difference to the deadline as its
  -- number. The `k`-th deadline is the first reading and `k` intervals.
  pub timer_thread-cycles :
      (shutdown : ℕ → Bool) (par : ThreadParam) (n fuel len : ℕ) (st : ThreadStat) (s : Proc)
      (now : Timespec)
      → ((t : ℕ) → shutdown t ≡ false)
      → K.alloc s.tick ≡ true
      → K.clock (s.tick + 2) ≡ some now
      → par.max_cycles ≡ n + 1
      → n + 1 < 2 ^ 64
      → par.msg_sz ≡ pos len
      → hdr_size ≤ len
      → len < 2 ^ 31
      → st.cycles ≡ 0
      → n < fuel
      → let begin = Call.clock_gettime ∷ Call.setscheduler par.prio ∷ Call.malloc ∷ s.calls in
        (st' : ThreadStat) × (t : Proc) × (timer_thread K shutdown fuel par st s ≡ done st' t)
        × (st'.cycles ≡ n + 1)
        × (st'.thread_started ≡ negsuc 0)
        × Paced K par (nanoseconds now) (s.tick + 3) begin (n + 1) t.calls
  unfolding timer_thread
  timer_thread-cycles shutdown par n fuel len st s now running alloc got limit few size long small
        fresh enough =
      let (z, priority) = works.rc (s.tick + 1) in
      let s2 = after (Call.setscheduler par.prio) (after Call.malloc s) in
      let s3 = after Call.clock_gettime s2 in
      let two : s.tick + 2 ≡ s.tick + 1 + 1 = omega arith in
      let none_yet : 0 + (n + 1) ≡ n + 1 = omega arith in
      let (st', t, run, all, (calls, ticks)) =
        timer_loop-cycles shutdown running par (omega arith) len size long small (nanoseconds now)
          (s.tick + 3) s3.calls n fuel 0 (λ _. 0)
          (record st { thread_started = st.thread_started +ℤ pos 1 }) s3 enough (omega arith)
          (begun, omega arith) in
      (
        record st' { thread_started = negsuc 0 },
        t,
        rw (alloc, priority, timer_start-loop shutdown par fuel st now s2 (rw two at got), run)
            refl,
        omega arith,
        refl,
        rw none_yet at calls,
      )
