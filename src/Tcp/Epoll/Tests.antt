-- ===== src/Tcp/Epoll/Tests.antt =====
-- Runs of `epoll_connections` of tcp_sink_epoll.c: a connection is accepted and then closed.
use network_testing.Common.{
  ℕ, ◌==◌, if◌then◌else◌, true, pos, ◌≡◌, refl, ap, sym, ◌∙◌, inl, inr, [], ◌∷◌,
}
use network_testing.Kernel.{
  Kernel, Rc, ret, err, Call, Proc, Run, done, exited, crashed, out_of_fuel, after,
}
use network_testing.Kernel.Tests.{idle, test_kernel}
use network_testing.Tcp.Accept.{Line}
use network_testing.Tcp.Epoll.{
  register, accept_event, close_event, handle_event, handle_events, dispatch, epoll_connections,
}
use network_testing.Tcp.Epoll.Open.{
  is_open, ClosesOpen, Absent, Reported, Ends, Follows, epoll_connections-Ends,
}

-- The listening socket 3 is reported first, and then the connection 7.
abbrev two_events : Kernel
two_events = record (test_kernel (λ t. if t == 1 then ret 7 else ret 1) (λ _ _. 0)) {
  event = λ t _. if t == 0 then 3 else 7;
}

abbrev greeting : Line
greeting i = (λ _. 0, pos 14)

abbrev state_of : Run (Unit {0}) → Proc
state_of (done _ t) = t
state_of (exited _ t) = t
state_of (crashed t) = t
state_of (out_of_fuel t) = t

abbrev count_of : Rc → ℕ
count_of (ret n) = n
count_of (err n) = n

abbrev accepted : Proc
accepted =
    after (Call.epoll_ctl_add 5 7) (after (Call.accept4 3) (after (Call.epoll_wait 5 10) idle))

first_round :
    dispatch two_events greeting 5 3 1 true (ret 1, λ _. 3) (after (Call.epoll_wait 5 10) idle)
    ≡ done tt accepted
unfolding dispatch handle_events handle_event accept_event register
first_round = refl

both_rounds : Follows two_events greeting 2 1 5 3 true idle
unfolding Follows Reported Absent is_open
both_rounds = (
  λ nfds e. rw (← ap count_of e) (inl refl, tt),
  λ t e.
      rw (← (sym (ap state_of first_round) ∙ ap state_of e))
        (λ nfds e'. rw (← ap count_of e') (inr (refl, refl, tt), tt), λ _ _. tt),
)

epoll_connections-Ends_example :
    Ends two_events greeting
      (λ _. Unit {0})
      (epoll_connections two_events greeting 2 1 5 3 true idle)
unfolding ClosesOpen
epoll_connections-Ends_example =
    epoll_connections-Ends two_events greeting 2 1 5 3 true idle both_rounds tt

two_rounds :
    (state_of (epoll_connections two_events greeting 2 1 5 3 true idle)).calls
    ≡ Call.close 7
      ∷ Call.write 7 (greeting 2).0 (greeting 2).1
      ∷ Call.epoll_wait 5 10
      ∷ Call.epoll_ctl_add 5 7
      ∷ Call.accept4 3
      ∷ Call.epoll_wait 5 10
      ∷ []
unfolding epoll_connections dispatch handle_events handle_event accept_event close_event register
two_rounds = refl
