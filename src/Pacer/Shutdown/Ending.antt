-- ===== src/Pacer/Shutdown/Ending.antt =====
-- udp_pacer.c: once `shutdown_global` is set, the program ends.
use network_testing.Common.{
  ℕ, suc, ◌+◌, ◌≤◌, ◌<◌, arith, true, Bool-cases, ◌≡◌, ◌≢◌, ◌⊎◌, refl, inl, inr, pos,
}
use network_testing.Pacer.Timer.{ThreadParam, record_diff, is_last}
use network_testing.Pacer.Shutdown.{
  MainAt, polling, killing, checking, joining, freeing_stats, freeing_param, ended, ThreadAt,
  starting, counting, looping, waiting, recording, closing, leaving, left, World, MainMove, poll_on,
  poll_end, kill, must_join, no_join, join, free_stats, free_param, ThreadMove, give_up,
  thread_start, count, loop_end, loop_on, wait_fails, wait, one_cycle, last_cycle, thread_close,
  leave, Move, of_main, of_thread, Reach,
}
use network_testing.Pacer.Shutdown.Safety.{main_left, thread_left, Inv, Move-Inv, Reach-Inv}

-- `n` steps of `main` and the thread.
pub data Moves (par : ThreadParam) (s : World) : ℕ → World → Type 0 where
  here : Moves par s 0 s
  next : {n : ℕ} {t u : World} → Moves par s n t → Move par t u → Moves par s (suc n) u

abbrev steps_left : World → ℕ
steps_left s = main_left s.main + thread_left s.thread

MainMove-left :
    (s t : World)
    → MainMove s t
    → s.shutdown_global ≡ true
    → (t.shutdown_global ≡ true) × (steps_left t < steps_left s)
MainMove-left s t (poll_on m h e) d = cc
MainMove-left s t (poll_end m h e) d = ground arith
MainMove-left s t (kill m e) d = ground arith
MainMove-left s t (must_join m h e) d = ground arith
MainMove-left s t (no_join m h e) d = ground arith
MainMove-left s t (join m h e) d = ground arith
MainMove-left s t (free_stats m e) d = ground arith
MainMove-left s t (free_param m e) d = ground arith

ThreadMove-left :
    (par : ThreadParam) (s t : World)
    → ThreadMove par s t
    → s.shutdown_global ≡ true
    → (t.shutdown_global ≡ true) × (steps_left t < steps_left s)
ThreadMove-left par s t (give_up m e) d = ground arith
ThreadMove-left par s t (thread_start m e) d = ground arith
ThreadMove-left par s t (count m e) d = ground arith
ThreadMove-left par s t (loop_end m h e) d = ground arith
ThreadMove-left par s t (loop_on m h e) d = cc
ThreadMove-left par s t (wait_fails m e) d = ground arith
ThreadMove-left par s t (wait m e) d = ground arith
ThreadMove-left par s t (one_cycle x m h e) d = ground arith
ThreadMove-left par s t (last_cycle x m h e) d = ground arith
ThreadMove-left par s t (thread_close m e) d = ground arith
ThreadMove-left par s t (leave m e) d = ground arith

Move-left :
    (par : ThreadParam) (s t : World)
    → Move par s t
    → s.shutdown_global ≡ true
    → (t.shutdown_global ≡ true) × (steps_left t < steps_left s)
Move-left par s t (of_main m) d = MainMove-left s t m d
Move-left par s t (of_thread m) d = ThreadMove-left par s t m d

Moves-left :
    (par : ThreadParam) (s : World) {n : ℕ} {t : World}
    → Moves par s n t
    → s.shutdown_global ≡ true
    → Inv s
    → (t.shutdown_global ≡ true) × (n + steps_left t ≤ steps_left s) × Inv t
Moves-left par s here d v = (d, omega arith, v)
Moves-left par s (next {n} {t} {u} r m) d v =
    let (d', h, v') = Moves-left par s r d v in
    let (d'', less) = Move-left par t u m d' in (d'', omega arith, Move-Inv par t u m v')

steps_left-le : (s : World) → steps_left s ≤ 11
steps_left-le s = omega (arith, main_left-le s.main, thread_left-le s.thread)
  where
    main_left-le : (m : MainAt) → main_left m ≤ 6
    main_left-le m = ground arith

    thread_left-le : (w : ThreadAt) → thread_left w ≤ 5
    thread_left-le w = ground arith

-- Once the program shuts down, the thread has ended or has a step.
thread_goes_on :
    (par : ThreadParam) (s : World) (w : ThreadAt)
    → s.thread ≡ w
    → s.shutdown_global ≡ true
    → (w ≡ left) ⊎ ((u : World) × Move par s u)
thread_goes_on par s starting e d = inr (_, of_thread (thread_start e refl))
thread_goes_on par s counting e d = inr (_, of_thread (count e refl))
thread_goes_on par s looping e d = inr (_, of_thread (loop_end e d refl))
thread_goes_on par s waiting e d = inr (_, of_thread (wait e refl))
thread_goes_on par s recording e d = elim (Bool-cases (is_last par (record_diff (pos 0) s.stat))) [
  | inl h ↦ inr (_, of_thread (last_cycle (pos 0) e h refl))
  | inr h ↦ inr (_, of_thread (one_cycle (pos 0) e h refl))
]
thread_goes_on par s closing e d = inr (_, of_thread (thread_close e refl))
thread_goes_on par s leaving e d = inr (_, of_thread (leave e refl))
thread_goes_on par s left e d = inl refl

main_goes_on :
    (par : ThreadParam) (s : World) (m : MainAt)
    → s.main ≡ m
    → m ≢ ended
    → s.shutdown_global ≡ true
    → Inv s
    → (u : World) × Move par s u
main_goes_on par s polling e n d v = (_, of_main (poll_end e d refl))
main_goes_on par s killing e n d v = (_, of_main (kill e refl))
main_goes_on par s checking e n d v = (_, of_main (must_join e v.started refl))
main_goes_on par s joining e n d v = elim (thread_goes_on par s s.thread refl d) [
  | inl gone ↦ (_, of_main (join e gone refl))
  | inr step ↦ step
]
main_goes_on par s freeing_stats e n d v = (_, of_main (free_stats e refl))
main_goes_on par s freeing_param e n d v = (_, of_main (free_param e refl))
main_goes_on par s ended e n d v = absurd (n refl)

-- Behind the last step everything is released.
unfoldable pub AllReleased : World → Type 0
AllReleased t = (t.thread ≡ left) × (t.stats_freed ≡ true) × (t.param_freed ≡ true)

-- Once `shutdown_global` is set, `main` and the thread make at most eleven steps, whatever their
-- order; as long as `main` has not ended one of them can go on; and when it has ended, the thread
-- has ended and both structures are freed.
pub shutdown-ends :
    (par : ThreadParam) {s t : World} {n : ℕ}
    → Reach par s
    → s.shutdown_global ≡ true
    → Moves par s n t
    → (n ≤ 11) × (t.main ≢ ended → (u : World) × Move par t u) × (t.main ≡ ended → AllReleased t)
unfolding AllReleased
shutdown-ends par {s} {t} r d moves =
    let (d', h, v) = Moves-left par s moves d (Reach-Inv par r) in
    (
      omega (arith, steps_left-le s),
      λ n. main_goes_on par t t.main refl n d' v,
      λ e. ground (arith, v),
    )
