-- ===== src/Pacer/Shutdown/Safety.antt =====
-- udp_pacer.c: the thread does not touch memory that `main` has freed.
use network_testing.Common.{
  ℕ, ◌≤◌, ◌<◌, arith, Bool, true, false, ◌≡◌, refl, ℤ, pos, is_nonzero, ◌+ℤ◌,
}
use network_testing.Pacer.Timer.{ThreadParam, ThreadStat, record_diff}
use network_testing.Pacer.Shutdown.{
  MainAt, polling, killing, checking, joining, freeing_stats, freeing_param, ended, ThreadAt,
  starting, counting, looping, waiting, recording, closing, leaving, left, World, created,
  add_started, MainMove, poll_on, poll_end, kill, must_join, no_join, join, free_stats, free_param,
  ThreadMove, give_up, thread_start, count, loop_end, loop_on, wait_fails, wait, one_cycle,
  last_cycle, thread_close, leave, Move, of_main, of_thread, Reach, begin, move, signal,
}

-- The steps that are left once the program shuts down.
abbrev pub main_left : MainAt → ℕ
main_left polling = 6
main_left killing = 5
main_left checking = 4
main_left joining = 3
main_left freeing_stats = 2
main_left freeing_param = 1
main_left ended = 0

abbrev pub thread_left : ThreadAt → ℕ
thread_left starting = 5
thread_left counting = 4
thread_left waiting = 5
thread_left recording = 4
thread_left looping = 3
thread_left closing = 2
thread_left leaving = 1
thread_left left = 0

abbrev is_fresh : ThreadAt → Bool
is_fresh starting = true
is_fresh counting = true
is_fresh other = false

pub record Inv (s : World) : Type 0 where
  pub started : is_nonzero s.stat.thread_started ≡ true
  pub fresh : is_fresh s.thread ≡ true → s.stat.thread_started ≡ pos 1
  pub joined : main_left s.main ≤ 2 → s.thread ≡ left
  pub freed : s.stats_freed ≡ true → main_left s.main ≤ 1
  pub param : s.param_freed ≡ true → main_left s.main ≡ 0
  pub all_freed :
      main_left s.main ≤ 1 → (s.stats_freed ≡ true) × (main_left s.main ≡ 0 → s.param_freed ≡ true)
  pub stopped : main_left s.main < 6 → s.shutdown_global ≡ true
  pub closed : thread_left s.thread < 2 → s.shutdown_global ≡ true

created-Inv : Inv created
created-Inv = record {
  started = refl;
  fresh = λ _. refl;
  joined = λ h. absurd (omega arith);
  freed = λ h. cc;
  param = λ h. cc;
  all_freed = λ h. absurd (omega arith);
  stopped = λ h. absurd (omega arith);
  closed = λ h. absurd (omega arith);
}

MainMove-Inv : (s t : World) → MainMove s t → Inv s → Inv t
MainMove-Inv s t (poll_on m h e) v = ground arith
MainMove-Inv s t (poll_end m h e) v = ground arith
MainMove-Inv s t (kill m e) v = ground arith
MainMove-Inv s t (must_join m h e) v = ground arith
MainMove-Inv s t (no_join m h e) v = ground arith
MainMove-Inv s t (join m h e) v = ground arith
MainMove-Inv s t (free_stats m e) v = ground arith
MainMove-Inv s t (free_param m e) v = ground arith

started-record_diff :
    (d : ℤ) (st : ThreadStat) → (record_diff d st).thread_started ≡ st.thread_started
unfolding record_diff
started-record_diff d st = refl

started-add_started :
    (st : ThreadStat) → st.thread_started ≡ pos 1 → (add_started st).thread_started ≡ pos 2
unfolding add_started ◌+ℤ◌
started-add_started st h = rw h refl

ThreadMove-Inv : (par : ThreadParam) (s t : World) → ThreadMove par s t → Inv s → Inv t
ThreadMove-Inv par s t (give_up m e) v = ground arith
ThreadMove-Inv par s t (thread_start m e) v = ground arith
ThreadMove-Inv par s t (count m e) v = ground (arith, started-add_started s.stat)
ThreadMove-Inv par s t (loop_end m h e) v = ground arith
ThreadMove-Inv par s t (loop_on m h e) v = ground arith
ThreadMove-Inv par s t (wait_fails m e) v = ground arith
ThreadMove-Inv par s t (wait m e) v = ground arith
ThreadMove-Inv par s t (one_cycle d m h e) v = ground (arith, started-record_diff d s.stat)
ThreadMove-Inv par s t (last_cycle d m h e) v = ground (arith, started-record_diff d s.stat)
ThreadMove-Inv par s t (thread_close m e) v = ground arith
ThreadMove-Inv par s t (leave m e) v = ground arith

pub Move-Inv : (par : ThreadParam) (s t : World) → Move par s t → Inv s → Inv t
Move-Inv par s t (of_main m) v = MainMove-Inv s t m v
Move-Inv par s t (of_thread m) v = ThreadMove-Inv par s t m v

pub Reach-Inv : (par : ThreadParam) {s : World} → Reach par s → Inv s
Reach-Inv par begin = created-Inv
Reach-Inv par (move {s} {t} r m) = Move-Inv par s t m (Reach-Inv par r)
Reach-Inv par (signal {s} r) = let v = Reach-Inv par r in ground (arith, v)

-- Whatever the order of the steps, and whenever a signal comes: once `main` has freed the
-- statistics or the parameters, the thread has made its last step.
pub freed-left :
    (par : ThreadParam) {s : World}
    → Reach par s
    → (s.stats_freed ≡ true → s.thread ≡ left) × (s.param_freed ≡ true → s.thread ≡ left)
freed-left par r = let v = Reach-Inv par r in ground (arith, v)
