-- ===== src/Sink/Main.antt =====
-- udp_sink.c: `time_function`, which measures a receive function, and `main`.
pub mod Ends
pub mod Runs
pub mod Served
pub mod Traps
mod Tests
use network_testing.Common.{
  ℕ, zero, suc, List, [], ◌==◌, if◌then◌else◌, Bool, true, false, ◌&&◌, not, Option, none, some, ℤ,
  pos, pos_part, is_neg, is_nonzero,
}
use network_testing.Kernel.{
  Kernel, Rc, ret, err, Sockaddr, Call, M, pure, exit, ask, ◌>>=◌, ◌>>◌, exit_fail_sock,
  exit_fail_recv, exit_fail_sockopt, exit_fail_option, af_inet, af_inet6,
}
use network_testing.TimeBench.{
  TimeBench, zeroed, time_bench_record_setting, time_bench_start, time_bench_stop,
  time_bench_calc_stats,
}
use network_testing.Socket.{htons, socket, connect, close_fd, bind}
use network_testing.Sink.Params.{
  SinkParams, Sink, init_stats, run_recvmsg, run_recvmmsg, run_recvfrom, run_read, run_recv,
}
use network_testing.Pktgen.{zero_hdr}
use network_testing.Sink.Receive.{sink_with_read, sink_with_recvfrom, sink_with_recv}
use network_testing.Sink.Recvmsg.{sink_with_recvmsg}
use network_testing.Sink.Recvmmsg.{sink_with_recv_mmsg}
use network_testing.Sink.Options.{Opt, Settings, defaults, parse_opts, or_run_all}
use network_testing.Getopt.{has_flag}

-- a receive function: the result, the record and the state of the checks
abbrev pub SinkFunc : Type 0
SinkFunc = ℕ → Sink → TimeBench → M ((ℤ × TimeBench) × Sink)

-- one that does no checks
abbrev pub unchecked : (ℕ → SinkParams → TimeBench → M (ℤ × TimeBench)) → SinkFunc
unchecked func fd k r = func fd k.p r >>= λ out. pure (out, k)

-- what `recvfrom` returns, and the address it stores
abbrev pub first_packet : Kernel → ℕ → Rc × Sockaddr
first_packet K t = (K.rc t, K.source t)

module _ (K : Kernel) where
  -- `time_bench_calc_stats` and what precedes it, for one test run.
  unfoldable pub test_run : SinkFunc → ℕ → Sink → TimeBench → M (TimeBench × Sink)
  unfolding time_bench_record_setting time_bench_start time_bench_stop time_bench_calc_stats
  test_run func fd k rec = do
    r0 ← time_bench_record_setting K rec
    r1 ← time_bench_start K r0
    ((cnt_recv, r2), k') ← func fd k r1
    r3 ← time_bench_stop K r2
    if is_neg cnt_recv then close_fd K fd >> exit exit_fail_recv else (do
      r4 ← time_bench_calc_stats (record r3 { packets = cnt_recv })
      pure (r4, record k' { p = init_stats k'.p.run_flag_curr k'.p }))

  -- `for (j = 0; j < p->repeat; j++)`, with the runs left.
  unfoldable pub test_runs : SinkFunc → ℕ → ℕ → Sink → TimeBench → M Sink
  unfolding test_run
  test_runs func fd zero k rec = pure k
  test_runs func fd (suc n) k rec = do
    (rec', k') ← test_run func fd k rec
    test_runs func fd n k' rec'

  -- The label `socket_error`.
  abbrev pub socket_error : {A : Type 0} → ℕ → M A
  socket_error fd = close_fd K fd >> exit exit_fail_sock

  -- What is done with the address of the first packet.
  unfoldable pub accept_source : ℕ → SinkParams → Sockaddr → M (Unit {0})
  unfolding connect
  accept_source fd p src =
      if (if src.family == af_inet then true else src.family == af_inet6)
      then (do
        known ← ask K.ntop Call.inet_ntop
        if known
            then if is_nonzero p.connect then (do _ ← connect K fd src; pure tt) else pure tt
            else socket_error fd)
      else (close_fd K fd >> exit exit_fail_recv)

  unfoldable pub time_function : SinkFunc → ℕ → Sink → M Sink
  unfolding accept_source test_runs
  time_function func fd k = do
    res ← ask (first_packet K) (Call.recvfrom fd (pos 4096) 0)
    elim res.0 [
      | ret _ ↦ do accept_source fd k.p res.1; test_runs func fd (pos_part k.p.repeat) k zeroed
      | err _ ↦ socket_error fd
    ]

  -- `setsockopt` that ends the program if it fails, and only if it is asked for.
  unfoldable pub require_option : Bool → ℕ → ℕ → ℕ → M (Unit {0})
  require_option asked fd level name =
      if asked
      then (do
        res ← ask K.rc (Call.setsockopt fd level name)
        elim res [ ret _ ↦ pure tt | err _ ↦ exit exit_fail_sockopt ])
      else pure tt

  -- The socket with its options: SO_REUSEPORT, SO_ATTACH_REUSEPORT_CBPF (`enable_bpf`), IP_PKTINFO,
  -- IP_RECVTTL, then the address, then SO_RCVTIMEO.
  unfoldable pub open_socket : Settings → M ℕ
  unfolding socket bind require_option
  open_socket c = do
    fd ← socket K c.addr_family 2 (if is_nonzero c.p.lite then 136 else 17)
    require_option (is_nonzero c.p.so_reuseport) fd 1 15
    require_option (is_nonzero c.p.use_bpf) fd 1 51
    require_option (is_nonzero c.p.recv_pktinfo) fd 0 8
    require_option (is_nonzero c.p.recv_ttl) fd 0 12
    bind K fd (record { family = c.addr_family; port = htons c.listen_port; addr = [] })
    require_option (not (is_neg c.p.sk_timeout)) fd 1 20
    pure fd

  -- One of the five tests, if its bit is set.
  unfoldable pub run_test : ℕ → SinkFunc → ℕ → Sink → M Sink
  unfolding time_function
  run_test bit func fd k =
      if has_flag k.p.run_flag bit
      then time_function func fd (record k { p = init_stats bit k.p })
      else pure k

  -- The tests in their order.
  unfoldable pub run_tests : ℕ → ℕ → Sink → M (Unit {0})
  unfolding run_test
  run_tests fuel fd k = do
    k1 ← run_test run_recvmmsg (sink_with_recv_mmsg K fuel) fd k
    k2 ← run_test run_recvmsg (sink_with_recvmsg K) fd k1
    k3 ← run_test run_read (unchecked (sink_with_read K)) fd k2
    k4 ← run_test run_recvfrom (unchecked (sink_with_recvfrom K)) fd k3
    _ ← run_test run_recv (unchecked (sink_with_recv K)) fd k4
    _ ← close_fd K fd
    pure tt

  -- `main`, with the rounds for `sink_with_recv_mmsg`, and the exit code.
  unfoldable pub main : ℕ → List Opt → M ℕ
  unfolding parse_opts open_socket run_tests
  main fuel opts = do
    got ← parse_opts K opts defaults
    elim got [
      | none ↦ pure exit_fail_option
      | some c ↦ do
        let p = or_run_all c.p
        fd ← open_socket (record c { p = p })
        run_tests fuel fd (record { p = p; last = zero_hdr })
        pure 0
    ]
