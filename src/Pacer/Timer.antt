-- ===== src/Pacer/Timer.antt =====
-- udp_pacer.c: `socket_send` and the thread that paces the packets.
pub mod Cycles
pub mod Deadlines
use network_testing.Common.{
  ℕ, zero, suc, ◌+◌, ◌*◌, ◌%◌, ◌^◌, ◌==◌, ◌!=◌, ltb, ◌&&◌, Bool, true, false, if◌then◌else◌, Option,
  none, some, ℤ, pos, negsuc, pos_part, to_u64, signed64, ◌+ℤ◌,
}
use network_testing.Kernel.{
  Kernel, Rc, ret, err, Mem, Timespec, Call, M, pure, ask, out_of_fuel, ◌>>=◌, ◌>>◌, eperm,
}
use network_testing.TimeBench.{Double, of_int, plus}
use network_testing.Pacer.Timing.{tsnorm, calcdiff, interval_of, add_interval, fill_buf_pktgen}

-- `struct thread_param`; `stats` is an argument of its own, and `clock` is CLOCK_MONOTONIC.
pub record ThreadParam : Type 0 where
  pub sockfd : ℕ
  pub batch : ℤ
  pub msg_sz : ℤ
  pub interval : ℕ
  pub prio : ℤ
  pub policy : ℕ
  pub max_cycles : ℕ

-- `struct thread_stat`
pub record ThreadStat : Type 0 where
  pub thread_started : ℤ
  pub cycles : ℕ
  pub min : ℤ
  pub max : ℤ
  pub act : ℤ
  pub avg : Double

-- The measured inaccuracy of one cycle. `diff` is a `uint64_t`: so are the comparisons.
unfoldable pub record_diff : ℤ → ThreadStat → ThreadStat
record_diff d st =
    let diff = to_u64 d in
    record st {
      min = if ltb diff (to_u64 st.min) then signed64 diff else st.min;
      max = if ltb (to_u64 st.max) diff then signed64 diff else st.max;
      avg = plus st.avg (of_int (pos diff));
      act = signed64 diff;
      cycles = (st.cycles + 1) % 2 ^ 64;
    }

-- `if (par->max_cycles && par->max_cycles == stat->cycles) break;`
unfoldable pub is_last : ThreadParam → ThreadStat → Bool
is_last par st = par.max_cycles != 0 && par.max_cycles == st.cycles

module _ (K : Kernel) where
  -- The loop of `socket_send`, with the sends left: a send that fails ends it.
  pub send_loop : ℕ → ℕ → Mem → ℤ → M (Unit {0})
  send_loop fd zero m sz = pure tt
  send_loop fd (suc n) m sz = do
    res ← ask K.rc (Call.send fd m sz)
    elim res [ ret _ ↦ send_loop fd n m sz | err _ ↦ pure tt ]

  -- `socket_send`; its result is not used.
  unfoldable pub socket_send : ℕ → Mem → ℤ → ℤ → M (Unit {0})
  unfolding send_loop
  socket_send fd m sz batch = send_loop fd (pos_part batch) m sz

  -- One cycle behind the sleep: the packet is stamped with the time and the inaccuracy, and sent.
  -- The last part of the result says whether it is the last cycle.
  pub cycle : ThreadParam → Timespec → Timespec → Mem → ThreadStat → M (Mem × ThreadStat × Bool)
  unfolding socket_send record_diff
  cycle par now next m st = do
    m' ← fill_buf_pktgen par.msg_sz now (to_u64 (calcdiff now next) % 2 ^ 32) m
    socket_send par.sockfd m' par.msg_sz par.batch
    let st' = record_diff (calcdiff now next) st
    pure (m', st', is_last par st')

  module _ (shutdown : ℕ → Bool) where
    -- `while (!shutdown_global)`. Signals set the variable, so its value is read from `shutdown`.
    unfoldable pub timer_loop : ℕ → ThreadParam → Timespec → Mem → ThreadStat → M ThreadStat
    unfolding cycle add_interval
    timer_loop zero par next m st t = out_of_fuel t
    timer_loop (suc fuel) par next m st t = elim (shutdown t.tick) [
      | true ↦ pure st t
      | false ↦
          (do
            slept ← ask K.rc (Call.nanosleep next)
            elim slept [
              | err _ ↦ pure st
              | ret _ ↦ do
                got ← ask K.clock Call.clock_gettime
                elim got [
                  | none ↦ pure st
                  | some now ↦ do
                    (m', st', last) ← cycle par now next m st
                    elim (add_interval next (interval_of par.interval)) [
                      | none ↦ out_of_fuel
                      | some next' ↦ elim last [
                        | true ↦ pure st'
                        | false ↦ timer_loop fuel par next' m' st'
                      ]
                    ]
                ]
            ])
            t
    ]

    -- `thread_started++` and the loop, from the first deadline on.
    pub run_from : ℕ → ThreadParam → ThreadStat → Option Timespec → M ThreadStat
    unfolding timer_loop
    run_from fuel par st none = out_of_fuel
    run_from fuel par st (some next) =
        timer_loop fuel par next (λ _. 0)
          (record st { thread_started = st.thread_started +ℤ pos 1 })

    -- The thread behind the allocation and `sched_setscheduler`. If the clock cannot be read, `now`
    -- is what stood on the stack.
    unfoldable pub timer_start : ℕ → ThreadParam → ThreadStat → M ThreadStat
    unfolding run_from
    timer_start fuel par st = do
      now ← ask (λ t. elim (K.clock t) [ some ts ↦ ts | none ↦ K.stack t ]) Call.clock_gettime
      run_from fuel par st (add_interval now (interval_of par.interval))

    -- `timer_thread`: however it ends, `thread_started` is -1 behind it.
    unfoldable pub timer_thread : ℕ → ThreadParam → ThreadStat → M ThreadStat
    unfolding timer_start
    timer_thread fuel par st = do
      got ← ask K.alloc Call.malloc
      st' ←
          (if got
            then (do
              res ← ask K.rc (Call.setscheduler par.prio)
              elim res [
                | ret _ ↦ timer_start fuel par st
                | err e ↦ if e == eperm then timer_start fuel par st else pure st
              ])
            else pure st)
      pure (record st' { thread_started = negsuc 0 })
