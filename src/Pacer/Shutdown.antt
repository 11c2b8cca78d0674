-- ===== src/Pacer/Shutdown.antt =====
-- udp_pacer.c: the end of `main` and the timer thread, which run side by side and share
-- `shutdown_global` and the statistics. A step is an access to what they share, or a call.
pub mod Safety
pub mod Ending
use network_testing.Common.{ℕ, Bool, true, false, ◌≡◌, ℤ, pos, negsuc, ◌+ℤ◌, is_nonzero}
use network_testing.Pacer.Timer.{ThreadParam, ThreadStat, record_diff, is_last}
use network_testing.Pacer.Setup.{first_stat}

-- Where `main` stands behind `setup_pthread`: in the loop, before `pthread_kill`, before the test
-- of `pthread_join`, in that call, before either `free`, and behind the second.
pub data MainAt : Type 0 where
  polling killing checking joining freeing_stats freeing_param ended : MainAt

-- Where the thread stands: before its allocation, before `thread_started++`, at
-- the test of the loop, in `clock_nanosleep`, at the statistics of a cycle, at `merr`, before its
-- last assignment, and behind it.
pub data ThreadAt : Type 0 where
  starting counting looping waiting recording closing leaving left : ThreadAt

pub record World : Type 0 where
  pub main : MainAt
  pub thread : ThreadAt
  pub shutdown_global : Bool
  pub stat : ThreadStat
  pub stats_freed : Bool
  pub param_freed : Bool

-- Behind `pthread_create`.
abbrev pub created : World
created = record {
  main = polling;
  thread = starting;
  shutdown_global = false;
  stat = first_stat;
  stats_freed = false;
  param_freed = false;
}

unfoldable pub add_started : ThreadStat → ThreadStat
add_started st = record st { thread_started = st.thread_started +ℤ pos 1 }

-- A step of `main`. What `pthread_kill` does to the thread is the step of a signal, or an error of
-- its sleep.
pub data MainMove (s : World) (t : World) : Type 0 where
  poll_on : s.main ≡ polling → s.shutdown_global ≡ false → t ≡ s → MainMove s t
  poll_end :
      s.main ≡ polling → s.shutdown_global ≡ true → t ≡ record s { main = killing } → MainMove s t
  kill : s.main ≡ killing → t ≡ record s { main = checking } → MainMove s t
  must_join :
      s.main ≡ checking
      → is_nonzero s.stat.thread_started ≡ true
      → t ≡ record s { main = joining }
      → MainMove s t
  no_join :
      s.main ≡ checking
      → is_nonzero s.stat.thread_started ≡ false
      → t ≡ record s { main = freeing_stats }
      → MainMove s t
  join : s.main ≡ joining → s.thread ≡ left → t ≡ record s { main = freeing_stats } → MainMove s t
  free_stats :
      s.main ≡ freeing_stats
      → t ≡ record s { main = freeing_param; stats_freed = true }
      → MainMove s t
  free_param :
      s.main ≡ freeing_param → t ≡ record s { main = ended; param_freed = true } → MainMove s t

-- A step of the thread. The kernel decides whether its calls fail, and what a cycle measures.
pub data ThreadMove (par : ThreadParam) (s : World) (t : World) : Type 0 where
  give_up : s.thread ≡ starting → t ≡ record s { thread = closing } → ThreadMove par s t
  thread_start : s.thread ≡ starting → t ≡ record s { thread = counting } → ThreadMove par s t
  count :
      s.thread ≡ counting
      → t ≡ record s { thread = looping; stat = add_started s.stat }
      → ThreadMove par s t
  loop_end :
      s.thread ≡ looping
      → s.shutdown_global ≡ true
      → t ≡ record s { thread = closing }
      → ThreadMove par s t
  loop_on :
      s.thread ≡ looping
      → s.shutdown_global ≡ false
      → t ≡ record s { thread = waiting }
      → ThreadMove par s t
  wait_fails : s.thread ≡ waiting → t ≡ record s { thread = closing } → ThreadMove par s t
  wait : s.thread ≡ waiting → t ≡ record s { thread = recording } → ThreadMove par s t
  one_cycle :
      (d : ℤ)
      → s.thread ≡ recording
      → is_last par (record_diff d s.stat) ≡ false
      → t ≡ record s { thread = looping; stat = record_diff d s.stat }
      → ThreadMove par s t
  last_cycle :
      (d : ℤ)
      → s.thread ≡ recording
      → is_last par (record_diff d s.stat) ≡ true
      → t ≡ record s { thread = closing; stat = record_diff d s.stat }
      → ThreadMove par s t
  thread_close :
      s.thread ≡ closing
      → t ≡ record s { thread = leaving; shutdown_global = true }
      → ThreadMove par s t
  leave :
      s.thread ≡ leaving
      → t ≡ record s { thread = left; stat = record s.stat { thread_started = negsuc 0 } }
      → ThreadMove par s t

pub data Move (par : ThreadParam) (s : World) (t : World) : Type 0 where
  of_main : MainMove s t → Move par s t
  of_thread : ThreadMove par s t → Move par s t

-- What may happen from the start on. A signal runs `sighand`.
pub data Reach (par : ThreadParam) : World → Type 0 where
  begin : Reach par created
  move : {s t : World} → Reach par s → Move par s t → Reach par t
  signal : {s : World} → Reach par s → Reach par (record s { shutdown_global = true })
