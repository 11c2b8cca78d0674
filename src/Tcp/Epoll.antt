-- ===== src/Tcp/Epoll.antt =====
-- tcp_sink_epoll.c: connections accepted and closed as `epoll_wait` reports them.
pub mod Open
mod Tests
use network_testing.Common.{
  ℕ, zero, suc, ◌+◌, ◌==◌, Bool, true, false, if◌then◌else◌, List, ℤ, pos_part, Option, none, some,
}
use network_testing.Kernel.{
  Kernel, Rc, ret, err, Call, M, pure, exit, ask, ◌>>=◌, ◌>>◌, exit_failure, exit_fail_option,
}
use network_testing.Socket.{close_fd}
use network_testing.Tcp.Options.{TcpSinkParams, SinkOpt, default_sink, parse_sink_opts}
use network_testing.Tcp.Accept.{Line, open_listener, accept_loop}

-- What `epoll_wait` left behind: its result, and `events[n].data.fd` for each n.
abbrev pub waited : Kernel → ℕ → Rc × (ℕ → ℕ)
waited K t = (K.rc t, K.event t)

module _ (K : Kernel) (line : Line) where
  -- `epoll_ctl(epollfd, EPOLL_CTL_ADD, fd, ev)`, which ends the program when it fails
  unfoldable pub register : ℕ → ℕ → M (Unit {0})
  register epollfd fd = do
    res ← ask K.rc (Call.epoll_ctl_add epollfd fd)
    elim res [ ret _ ↦ pure tt | err _ ↦ exit exit_failure ]

  -- The listening socket is reported: a connection is accepted and registered.
  unfoldable pub accept_event : ℕ → ℕ → M (Unit {0})
  unfolding register
  accept_event epollfd listen_sock = do
    conn ← ask K.rc (Call.accept4 listen_sock)
    elim conn [ ret connfd ↦ register epollfd connfd | err _ ↦ exit exit_failure ]

  -- A connection is reported: the line of the `i`-th round is written if asked for, and the
  -- connection closed. Neither is checked.
  unfoldable pub close_event : ℕ → Bool → ℕ → M (Unit {0})
  close_event i true connfd = do
    _ ← ask K.rc (Call.write connfd (line i).0 (line i).1)
    close_fd K connfd
    pure tt
  close_event i false connfd = do close_fd K connfd; pure tt

  unfoldable pub handle_event : ℕ → ℕ → ℕ → Bool → ℕ → M (Unit {0})
  unfolding accept_event close_event
  handle_event epollfd listen_sock i write_something fd = elim (fd == listen_sock) [
    | true ↦ accept_event epollfd listen_sock
    | false ↦ close_event i write_something fd
  ]

  -- `for (n = 0; n < nfds; ++n)`, with the events left.
  pub handle_events : ℕ → ℕ → ℕ → Bool → (ℕ → ℕ) → ℕ → ℕ → M (Unit {0})
  unfolding handle_event
  handle_events epollfd listen_sock i write_something fds zero n = pure tt
  handle_events epollfd listen_sock i write_something fds (suc left) n = do
    handle_event epollfd listen_sock i write_something (fds n)
    handle_events epollfd listen_sock i write_something fds left (n + 1)

  -- What is done with the result of `epoll_wait`.
  unfoldable pub dispatch : ℕ → ℕ → ℕ → Bool → Rc × (ℕ → ℕ) → M (Unit {0})
  unfolding handle_events
  dispatch epollfd listen_sock i write_something (ret nfds, fds) =
      handle_events epollfd listen_sock i write_something fds nfds 0
  dispatch epollfd listen_sock i write_something (err _, fds) = exit exit_failure

  -- `for (i = 1; i <= count; i++)` of `epoll_connections`, with the rounds left; MAX_EVENTS is 10.
  pub epoll_connections : ℕ → ℕ → ℕ → ℕ → Bool → M (Unit {0})
  unfolding dispatch
  epoll_connections zero i epollfd listen_sock write_something = pure tt
  epoll_connections (suc n) i epollfd listen_sock write_something = do
    got ← ask (waited K) (Call.epoll_wait epollfd 10)
    dispatch epollfd listen_sock i write_something got
    epoll_connections n (i + 1) epollfd listen_sock write_something

  -- The part of `main` under `use_epoll`.
  unfoldable pub epoll_sink : ℕ → ℕ → Bool → M (Unit {0})
  unfolding register epoll_connections
  epoll_sink listenfd count write_something = do
    res ← ask K.rc Call.epoll_create
    elim res [
      | err _ ↦ exit exit_failure
      | ret epollfd ↦ do
        register epollfd listenfd
        epoll_connections count 1 epollfd listenfd write_something
        close_fd K epollfd
        pure tt
    ]

  -- `wait_for_connections`, the same loop as in tcp_sink.c.
  unfoldable pub wait_for_connections : ℕ → ℤ → Bool → M (Unit {0})
  wait_for_connections listenfd count write_something =
      accept_loop K line (pos_part count) 1 listenfd write_something

  -- `main` behind the options, and the exit code.
  unfoldable pub sink : TcpSinkParams → M ℕ
  unfolding open_listener epoll_sink wait_for_connections
  sink p = do
    fd ← open_listener K line p
    if p.use_epoll
        then epoll_sink fd (pos_part p.count) p.write_something
        else wait_for_connections fd p.count p.write_something
    close_fd K fd
    pure 0

  unfoldable pub main : List SinkOpt → M ℕ
  unfolding sink parse_sink_opts
  main opts = do
    got ← parse_sink_opts opts default_sink
    elim got [ none ↦ pure exit_fail_option | some p ↦ sink p ]
