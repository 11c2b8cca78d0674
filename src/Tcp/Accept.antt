-- ===== src/Tcp/Accept.antt =====
-- tcp_sink.c; its loop is also `wait_for_connections` of tcp_sink_epoll.c.
use network_testing.Common.{
  ℕ, zero, suc, ◌+◌, Bool, true, false, if◌then◌else◌, List, ◌∷◌, ℤ, pos_part, none, some, ◌≡◌,
  refl,
}
use network_testing.Kernel.{
  Kernel, Rc, ret, err, Mem, Call, Proc, M, pure, exit, ask, ◌>>=◌, ◌>>◌, done, after,
  exit_fail_sockopt, exit_fail_option,
}
use network_testing.Socket.{socket, bind, close_fd}
use network_testing.Tcp.Client.{any_addr}
use network_testing.Tcp.Options.{TcpSinkParams, SinkOpt, default_sink, parse_sink_opts}

-- the descriptor in a result; -1 as an unsigned number
abbrev pub fd_of : Rc → ℕ
fd_of (ret n) = n
fd_of (err _) = 0xffffffff

-- the text for the `i`-th connection and its length, as `snprintf` wrote it
abbrev pub Line : Type 0
Line = ℕ → Mem × ℤ

module _ (K : Kernel) (line : Line) where
  -- `for (i = 1; i <= count; i++)`, with the connections left. `accept` and `write` are not checked.
  pub accept_loop : ℕ → ℕ → ℕ → Bool → M (Unit {0})
  accept_loop zero i listenfd write_something = pure tt
  accept_loop (suc n) i listenfd write_something = do
    conn ← ask K.rc (Call.accept listenfd)
    if write_something
        then (do _ ← ask K.rc (Call.write (fd_of conn) (line i).0 (line i).1); pure tt)
        else pure tt
    close_fd K (fd_of conn)
    accept_loop n (i + 1) listenfd write_something

  -- The listening socket.
  unfoldable pub open_listener : TcpSinkParams → M ℕ
  unfolding socket bind
  open_listener p = do
    fd ← socket K p.addr_family 1 0
    if p.so_reuseport
        then (do
          res ← ask K.rc (Call.setsockopt fd 1 15)
          elim res [ ret _ ↦ pure tt | err _ ↦ exit exit_fail_sockopt ])
        else pure tt
    _ ← bind K fd (any_addr p.addr_family p.listen_port)
    _ ← ask K.rc (Call.listen fd 1024)
    pure fd

  -- `main` behind the options, and the exit code.
  unfoldable pub sink : TcpSinkParams → M ℕ
  unfolding open_listener accept_loop
  sink p = do
    fd ← open_listener p
    accept_loop (pos_part p.count) 1 fd p.write_something
    close_fd K fd
    pure 0

  unfoldable pub main : List SinkOpt → M ℕ
  unfolding sink parse_sink_opts
  main opts = do
    got ← parse_sink_opts opts default_sink
    elim got [ none ↦ pure exit_fail_option | some p ↦ sink p ]

  -- The calls of `n` connections, the latest first, before those in `rest`, from the tick `t` on.
  unfoldable pub connections : ℕ → ℕ → ℕ → Bool → ℕ → List Call → List Call
  connections zero i fd w t rest = rest
  connections (suc n) i fd true t rest = connections n (i + 1) fd true (t + 1 + 1 + 1) (
      Call.close (fd_of (K.rc t))
      ∷ Call.write (fd_of (K.rc t)) (line i).0 (line i).1
      ∷ Call.accept fd
      ∷ rest)
  connections (suc n) i fd false t rest =
      connections n (i + 1) fd false (t + 1 + 1)
        (Call.close (fd_of (K.rc t)) ∷ Call.accept fd ∷ rest)

  -- The loop always ends, and has accepted `n` connections and closed each of them before it
  -- accepted the next, with the line of its number written to it in between if asked for.
  pub accept_loop-closes :
      (n i fd : ℕ) (w : Bool) (s : Proc)
      → (t : Proc) × (accept_loop n i fd w s ≡ done tt t)
        × (t.calls ≡ connections n i fd w s.tick s.calls)
  unfolding accept_loop connections
  accept_loop-closes zero i fd w s = (s, refl, refl)
  accept_loop-closes (suc n) i fd true s = accept_loop-closes n (i + 1) fd true (
      after (Call.close (fd_of (K.rc s.tick)))
        (after (Call.write (fd_of (K.rc s.tick)) (line i).0 (line i).1) (after (Call.accept fd) s)))
  accept_loop-closes (suc n) i fd false s =
      accept_loop-closes n (i + 1) fd false
        (after (Call.close (fd_of (K.rc s.tick))) (after (Call.accept fd) s))
