-- ===== src/Bench/Overhead.antt =====
-- syscall_overhead.c and overhead_cmpxchg.c, with the instructions of asm_x86.h.
use network_testing.Common.{
  ℕ, zero, suc, ◌+◌, ◌/◌, ◌%◌, ◌^◌, ◌<◌, ◌≡◌, refl, arith, ◌==◌, if◌then◌else◌, some, ℤ, pos,
  pos_part, false, sub64,
}
use network_testing.Kernel.{Kernel, Timespec, Call, Proc, M, pure, ask, done, after, ◌>>=◌, ◌>>◌}
use network_testing.Kernel.Laws.{after_calls, tick-after_calls}
use network_testing.TimeBench.{gettime, rdtsc}
use network_testing.TimeBench.TimeFunc.{Measured, Report, time_func}

-- The word that an instruction leaves in memory, and what it returns.
pub record Exchanged : Type 0 where
  pub stored : ℕ
  pub returned : ℕ

-- `locked_cmpxchg` and `unlocked_cmpxchg`: the word is replaced if it is `old`.
unfoldable pub cmpxchg : ℕ → ℕ → ℕ → Exchanged
cmpxchg word old new = record { stored = if word == old then new else word; returned = word }

-- `implicit_locked_xchg`
unfoldable pub xchg : ℕ → ℕ → Exchanged
xchg word val = record { stored = val % 2 ^ 32; returned = word }

-- `for (i = 0; i < loops; i++)` over an instruction: `data` and `res`, with the rounds left.
unfoldable pub exchange_loop : (ℕ → Exchanged) → ℕ → Exchanged → Exchanged
exchange_loop instruction zero x = x
exchange_loop instruction (suc left) x = exchange_loop instruction left (instruction x.stored)

module _ (K : Kernel) where
  -- The clocks around a loop.
  unfoldable pub timed_loop : M (Unit {0}) → ℤ → M Measured
  unfolding gettime
  timed_loop loop loops = do
    time_begin ← gettime K
    tsc_begin ← rdtsc K
    loop
    tsc_end ← rdtsc K
    time_end ← gettime K
    pure (record {
      tsc_begin = tsc_begin;
      tsc_end = tsc_end;
      time_begin = time_begin;
      time_end = time_end;
      loops_cnt = pos (pos_part loops);
    })

  unfoldable pub getuid_loop : ℕ → M (Unit {0})
  getuid_loop zero = pure tt
  getuid_loop (suc left) = do _ ← ask K.rc Call.getuid; getuid_loop left

  unfoldable pub loop_syscall_getuid : ℤ → M Measured
  unfolding timed_loop getuid_loop
  loop_syscall_getuid loops = timed_loop (getuid_loop (pos_part loops)) loops

  -- `main` of syscall_overhead.c, with LOOPS.
  unfoldable pub getuid_main : ℤ → M Report
  unfolding time_func loop_syscall_getuid
  getuid_main loops = time_func loops loop_syscall_getuid

  -- `loop_cmpxchg`, `loop_cmpxchg_locked` and `loop_xchg`: the measurement, and what `data` is in
  -- the end, from what stood in `data` and `res`.
  unfoldable pub loop_exchange : (ℕ → Exchanged) → Exchanged → ℤ → M (Measured × ℕ)
  unfolding timed_loop exchange_loop
  loop_exchange instruction x loops = do
    m ← timed_loop (pure tt) loops
    pure (m, (exchange_loop instruction (pos_part loops) x).returned)

  -- `main` of overhead_cmpxchg.c: the reports of the three loops, from what stood on the stack.
  unfoldable pub cmpxchg_main : ℤ → Exchanged → M (Report × Report × Report)
  unfolding cmpxchg xchg loop_exchange time_func
  cmpxchg_main loops x = do
    unlocked ← time_func loops (λ n. loop_exchange (λ w. cmpxchg w 0 0) x n >>= λ r. pure r.0)
    locked ← time_func loops (λ n. loop_exchange (λ w. cmpxchg w 0 0) x n >>= λ r. pure r.0)
    implicit ← time_func loops (λ n. loop_exchange (λ w. xchg w 0) x n >>= λ r. pure r.0)
    pure (unlocked, locked, implicit)

  getuid_loop-done : (n : ℕ) (s : Proc) → getuid_loop n s ≡ done tt (after_calls Call.getuid n s)
  unfolding getuid_loop after_calls
  getuid_loop-done zero s = refl
  getuid_loop-done (suc n) s = getuid_loop-done n (after Call.getuid s)

  -- Where the clock can be read, `syscall_overhead` makes exactly its number of system calls
  -- between the readings of the cycle counter, and reports the cycles of one, also where the
  -- counter wrapped around in between.
  pub getuid_main-cycles :
      (n : ℕ) (a b : Timespec) (s : Proc)
      → 0 < n
      → n < 2 ^ 31
      → K.clock s.tick ≡ some a
      → K.clock (s.tick + 3 + n) ≡ some b
      → (rep : Report) × (getuid_main (pos n) s
          ≡ done rep (
              after Call.clock_gettime (
                after Call.rdtsc
                  (after_calls Call.getuid n (after Call.rdtsc (after Call.clock_gettime s))))))
        × (rep.tsc_cycles ≡ sub64 (K.tsc (s.tick + 2 + n)) (K.tsc (s.tick + 1)) / n)
  unfolding getuid_main time_func loop_syscall_getuid timed_loop gettime
  getuid_main-cycles n a b s some_loops few begin end =
      let s2 = after Call.rdtsc (after Call.clock_gettime s) in
      let ticks = tick-after_calls Call.getuid n s2 in
      let read : (after_calls Call.getuid n s2).tick ≡ s.tick + 2 + n = omega arith in
      let next : (after_calls Call.getuid n s2).tick + 1 ≡ s.tick + 3 + n = omega arith in
      let again : K.clock ((after_calls Call.getuid n s2).tick + 1) ≡ some b = rw next end in
      let word : n % 2 ^ 64 ≡ n = omega arith in
      let nonzero : (n == 0) ≡ false = ground arith in
      rw (begin, getuid_loop-done n s2, again, word, nonzero, read) (_, refl, refl)
