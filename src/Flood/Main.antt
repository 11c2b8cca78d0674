-- ===== src/Flood/Main.antt =====
-- udp_flood.c: `time_function`, which measures a flood, and `main`.
pub mod Ends
pub mod Fails
pub mod Numbers
mod Tests
use network_testing.Common.{
  ℕ, List, if◌then◌else◌, Option, none, some, ℤ, pos, ◌+ℤ◌, is_neg, is_nonzero,
}
use network_testing.Kernel.{
  Kernel, Call, M, pure, exit, ask, ◌>>=◌, ◌>>◌, exit_fail_send, exit_fail_option,
}
use network_testing.TimeBench.{
  TimeBench, zeroed, time_bench_start, time_bench_stop, time_bench_calc_stats,
}
use network_testing.Socket.{socket, setup_sockaddr, sockaddr_len, connect, close_fd}
use network_testing.Flood.Params.{
  FloodParams, run_sendmsg, run_sendmmsg, run_sendto, run_write, run_send,
}
use network_testing.Flood.Send.{
  Flooded, flood_with_sendto, flood_with_send, flood_with_write, flood_with_sendmsg,
}
use network_testing.Flood.Sendmmsg.{flood_with_send_mmsg}
use network_testing.Flood.Options.{Opt, Settings, defaults, parse_opts, or_run_all}
use network_testing.Flood.Pmtu.{set_pmtu}
use network_testing.Getopt.{has_flag}

-- a flood function at its parameters
abbrev pub FloodFunc : Type 0
FloodFunc = ℕ → TimeBench → ℕ → M Flooded

module _ (K : Kernel) where
  -- The record of the measurement, which the source prints, and the static `sequence`.
  unfoldable pub time_function : FloodFunc → ℕ → ℕ → M (TimeBench × ℕ)
  unfolding time_bench_start time_bench_stop time_bench_calc_stats
  time_function func fd seq = do
    r1 ← time_bench_start K zeroed
    ((cnt_send, r2), seq') ← func fd r1 seq
    r3 ← time_bench_stop K r2
    if is_neg cnt_send
        then close_fd K fd >> exit exit_fail_send
        else (do r4 ← time_bench_calc_stats (record r3 { packets = cnt_send }); pure (r4, seq'))

  -- One of the five floods, if its bit is set.
  unfoldable pub run_flood : ℕ → ℕ → FloodFunc → ℕ → ℕ → M ℕ
  unfolding time_function
  run_flood flags bit func fd seq =
      if has_flag flags bit then (time_function func fd seq >>= λ out. pure out.1) else pure seq

  -- The floods in their order.
  unfoldable pub run_floods : ℕ → FloodParams → ℕ → M (Unit {0})
  unfolding run_flood
  run_floods flags p fd = do
    s1 ← run_flood flags run_send (flood_with_send K p) fd 0
    s2 ← run_flood flags run_sendto (flood_with_sendto K p) fd s1
    s3 ← run_flood flags run_sendmsg (flood_with_sendmsg K p) fd s2
    s4 ← run_flood flags run_sendmmsg (flood_with_send_mmsg K p) fd s3
    _ ← run_flood flags run_write (flood_with_write K p) fd s4
    _ ← close_fd K fd
    pure tt

  -- The connected socket and the parameters with the address.
  unfoldable pub open_socket : Settings → List ℕ → M (ℕ × FloodParams)
  unfolding socket set_pmtu setup_sockaddr sockaddr_len connect
  open_socket c dest_ip = do
    fd ← socket K c.addr_family 2 (if is_nonzero c.p.lite then 136 else 17)
    _ ← set_pmtu K c.p.pmtu fd
    a ← setup_sockaddr K c.addr_family dest_ip c.dest_port
    _ ← sockaddr_len a
    _ ← connect K fd a
    pure (fd, record c.p { dest_addr = a; connect = pos 1 })

  -- `main`, with `argv[optind]` and the exit code.
  unfoldable pub main : List Opt → Option (List ℕ) → M ℕ
  unfolding parse_opts open_socket run_floods
  main opts operand = do
    got ← parse_opts opts defaults
    elim got [
      | none ↦ pure exit_fail_option
      | some c ↦ elim operand [
        | none ↦ pure exit_fail_option
        | some dest_ip ↦ do
          let c' = or_run_all c
          (fd, p) ← open_socket c' dest_ip
          run_floods c'.run_flag p fd
          pure 0
      ]
    ]
