-- ===== src/Pacer/Tests.antt =====
-- Runs of udp_pacer.c on small inputs.
use network_testing.Common.{
  ◌==◌, if◌then◌else◌, [], ◌∷◌, ◌≤◌, ◌≢◌, true, ℕ, ◌+◌, ◌-◌, ◌*◌, ◌<◌, ◌≡◌, refl, false, negsuc,
  pos, arith,
}
use network_testing.Kernel.{Kernel, ret, err, Call, Timespec, Proc, done, crashed}
use network_testing.Kernel.Tests.{idle, test_kernel}
use network_testing.TimeBench.{of_int}
use network_testing.Pacer.Packet.{Filled, fill_buf_pktgen-Filled}
use network_testing.Pacer.Timing.{calcdiff, fill_buf_pktgen}
use network_testing.Pacer.Timing.Drift.{nanoseconds, calcdiff-microseconds}
use network_testing.Pacer.Timer.{ThreadParam, ThreadStat, timer_thread}
use network_testing.Pacer.Timer.Cycles.{IsWorking, Paced, timer_thread-cycles}
use network_testing.Pacer.Timer.Deadlines.{end_of, SleepsOnTime, timer_thread-deadlines}
use network_testing.Pacer.Shutdown.{
  World, created, freeing_stats, freeing_param, ended, left, poll_end, kill, must_join, join,
  free_stats, give_up, thread_close, leave, Move, of_main, of_thread, Reach, begin, move, signal,
}
use network_testing.Pacer.Shutdown.Safety.{freed-left}
use network_testing.Pacer.Shutdown.Ending.{here, next, AllReleased, shutdown-ends}

abbrev at : ℕ → ℕ → Timespec
at sec nsec = record { sec = sec; nsec = nsec }

calcdiff-microseconds_example :
    (d : ℕ) × (calcdiff (at 5 10) (at 4 999_999_000) ≡ pos d)
    × (d * 1000 < nanoseconds (at 5 10) - nanoseconds (at 4 999_999_000) + 1000)
    × (nanoseconds (at 5 10) - nanoseconds (at 4 999_999_000) < d * 1000 + 1000)
calcdiff-microseconds_example =
    calcdiff-microseconds (at 5 10) (at 4 999_999_000) (omega arith) (omega arith) (omega arith)
      (omega arith)

abbrev kernel : Kernel
kernel = test_kernel (λ _. ret 0) (λ _ _. 0)

works : IsWorking kernel
works = record { rc = λ _. (0, refl); clock = λ _. (_, refl) }

abbrev param : ThreadParam
param = record {
  sockfd = 4;
  batch = pos 10;
  msg_sz = pos 1472;
  interval = 1_000_000;
  prio = pos 0;
  policy = 0;
  max_cycles = 5;
}

abbrev stat : ThreadStat
stat = record {
  thread_started = pos 2;
  cycles = 0;
  min = pos 1_000_000;
  max = pos 0;
  act = pos 0;
  avg = of_int (pos 0);
}

timer_thread-cycles_example :
    let begin = Call.clock_gettime ∷ Call.setscheduler (pos 0) ∷ Call.malloc ∷ [] in
    (st' : ThreadStat) × (t : Proc) × (timer_thread kernel (λ _. false) 9 param stat idle
      ≡ done st' t)
    × (st'.cycles ≡ 4 + 1)
    × (st'.thread_started ≡ negsuc 0)
    × Paced kernel param (nanoseconds (at 2 0)) 3 begin (4 + 1) t.calls
timer_thread-cycles_example =
    timer_thread-cycles kernel works (λ _. false) param 4 9 1472 stat idle (at 2 0) (λ _. refl) refl
      refl (omega arith) (omega arith) refl (omega arith) (omega arith) refl (omega arith)

-- A kernel whose 25th call, a send, fails, and a signal that comes later.
abbrev failing : Kernel
failing = test_kernel (λ t. if t == 25 then err 111 else ret 0) (λ _ _. 0)

timer_thread-deadlines_example :
    (n : ℕ) × SleepsOnTime failing
      (λ t. t == 39)
      param
      (nanoseconds (at 2 0))
      n
      idle
      (end_of (timer_thread failing (λ t. t == 39) 9 param stat idle))
timer_thread-deadlines_example = timer_thread-deadlines failing (λ t. t == 39) param 9 stat idle

abbrev stopping : World
stopping = record created { shutdown_global = true }

abbrev joined : World
joined = record stopping {
  main = freeing_stats;
  thread = left;
  stat = record created.stat { thread_started = negsuc 0 };
}

-- A signal comes at once, and the thread cannot allocate its buffer.
joined_run : Reach param joined
joined_run = run (of_main (join refl refl refl)) (
    run (of_main (must_join refl refl refl)) (
      run (of_main (kill refl refl)) (
        run (of_main (poll_end refl refl refl)) (
          run (of_thread (leave refl refl)) (
            run (of_thread (thread_close refl refl))
              (run (of_thread (give_up refl refl)) (signal begin)))))))
  where
    run : {s t : World} → Move param s t → Reach param s → Reach param t
    run m r = move r m

abbrev freed : World
freed = record joined { main = freeing_param; stats_freed = true }

freed-left_example :
    (freed.stats_freed ≡ true → freed.thread ≡ left)
    × (freed.param_freed ≡ true → freed.thread ≡ left)
freed-left_example = freed-left param (move joined_run (of_main (free_stats refl refl)))

shutdown-ends_example :
    (1 ≤ 11)
    × (freed.main ≢ ended → (u : World) × Move param freed u)
    × (freed.main ≡ ended → AllReleased freed)
shutdown-ends_example =
    shutdown-ends param joined_run refl (next here (of_main (free_stats refl refl)))

fill_buf_pktgen-Filled_example :
    Filled 18 (at 5 7_000) 9 (λ _. 0) idle (fill_buf_pktgen (pos 18) (at 5 7_000) 9 (λ _. 0) idle)
fill_buf_pktgen-Filled_example =
    fill_buf_pktgen-Filled 18 (at 5 7_000) 9 (λ _. 0) idle (omega arith) (omega arith)

-- A message of 8 bytes is shorter than the header that is written into it.
fill_buf_pktgen_run : fill_buf_pktgen (pos 8) (at 5 7_000) 9 (λ _. 0) idle ≡ crashed idle
unfolding fill_buf_pktgen
fill_buf_pktgen_run = refl
