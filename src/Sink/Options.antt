-- ===== src/Sink/Options.antt =====
-- udp_sink.c: the options of the command line, as `getopt_long` hands them to `main`.
use network_testing.Common.{
  ℕ, List, [], ◌∷◌, ◌==◌, if◌then◌else◌, Option, none, some, ℤ, pos, to_u16,
}
use network_testing.Kernel.{Kernel, M, pure, ◌>>=◌, af_inet, af_inet6}
use network_testing.Getopt.{set_flag, optarg_or_1, set_verbose}
use network_testing.Socket.{setup_sockaddr}
use network_testing.Sink.Params.{
  SinkParams, init_params, run_recvmsg, run_recvmmsg, run_recvfrom, run_read, run_recv, run_all,
}

-- One result of `getopt_long`. An argument that goes through `atoi` stands as its result, and an
-- optional one is `none` if it is missing. `opt_other` is `--payload`, which has no effect, and
-- `opt_help` also the unknown option.
pub data Opt : Type 0 where
  opt_check_pktgen opt_verbose : Option ℤ → Opt
  opt_nr_iovec opt_count opt_repeat opt_batch opt_port opt_timeout opt_sk_timeout opt_bad_addr :
      ℤ → Opt
  opt_recv_pktinfo opt_use_bpf opt_recv_ttl opt_ipv4 opt_ipv6 opt_waitforone opt_lite : Opt
  opt_dontwait opt_connect opt_reuse_port opt_help opt_other : Opt
  opt_sender : List ℕ → Opt
  opt_recvmsg opt_recvmmsg opt_recvfrom opt_read opt_recv : Opt

-- The local variables of `main` that the options set.
pub record Settings : Type 0 where
  pub p : SinkParams
  pub listen_port : ℕ
  pub addr_family : ℕ

abbrev pub defaults : Settings
defaults = record { p = init_params; listen_port = 6666; addr_family = af_inet }

abbrev with_params : Settings → SinkParams → Settings
with_params c p = record c { p = p }

abbrev with_run : Settings → ℕ → Settings
with_run c bit = with_params c (record c.p { run_flag = set_flag c.p.run_flag bit })

module _ (K : Kernel) where
  -- The tests of one round of the loop over the options; `none` is the end by `usage`.
  unfoldable pub parse_opt : Opt → Settings → M (Option Settings)
  unfolding setup_sockaddr
  parse_opt (opt_check_pktgen a) c =
      pure (some (with_params c (record c.p { check = optarg_or_1 a })))
  parse_opt (opt_nr_iovec n) c = pure (some (with_params c (record c.p { iov_elems = n })))
  parse_opt opt_recv_pktinfo c = pure (some (with_params c (record c.p { recv_pktinfo = pos 1 })))
  parse_opt opt_use_bpf c = pure (some (with_params c (record c.p { use_bpf = pos 1 })))
  parse_opt opt_recv_ttl c = pure (some (with_params c (record c.p { recv_ttl = pos 1 })))
  parse_opt (opt_count n) c = pure (some (with_params c (record c.p { count = n })))
  parse_opt (opt_repeat n) c = pure (some (with_params c (record c.p { repeat = n })))
  parse_opt (opt_batch n) c = pure (some (with_params c (record c.p { batch = n })))
  parse_opt (opt_port n) c = pure (some (record c { listen_port = to_u16 n }))
  parse_opt opt_ipv4 c = pure (some (record c { addr_family = af_inet }))
  parse_opt opt_ipv6 c = pure (some (record c { addr_family = af_inet6 }))
  parse_opt opt_waitforone c = pure (some (with_params c (record c.p { waitforone = pos 1 })))
  parse_opt (opt_timeout n) c = pure (some (with_params c (record c.p { timeout = n })))
  parse_opt (opt_sk_timeout n) c = pure (some (with_params c (record c.p { sk_timeout = n })))
  parse_opt opt_lite c = pure (some (with_params c (record c.p { lite = pos 1 })))
  parse_opt opt_dontwait c = pure (some (with_params c (record c.p { dontwait = pos 1 })))
  parse_opt (opt_bad_addr n) c = pure (some (with_params c (record c.p { bad_addr = n })))
  parse_opt opt_connect c = pure (some (with_params c (record c.p { connect = pos 1 })))
  parse_opt opt_reuse_port c = pure (some (with_params c (record c.p { so_reuseport = pos 1 })))
  parse_opt (opt_sender text) c = do
    a ← setup_sockaddr K c.addr_family text 0
    pure (some (with_params c (record c.p { sender_addr = a })))
  parse_opt (opt_verbose a) c = set_verbose (optarg_or_1 a) (some c)
  parse_opt opt_recvmsg c = pure (some (with_run c run_recvmsg))
  parse_opt opt_recvmmsg c = pure (some (with_run c run_recvmmsg))
  parse_opt opt_recvfrom c = pure (some (with_run c run_recvfrom))
  parse_opt opt_read c = pure (some (with_run c run_read))
  parse_opt opt_recv c = pure (some (with_run c run_recv))
  parse_opt opt_help c = pure none
  parse_opt opt_other c = pure (some c)

  unfoldable pub parse_opts : List Opt → Settings → M (Option Settings)
  unfolding parse_opt
  parse_opts [] c = pure (some c)
  parse_opts (o ∷ os) c = do
    got ← parse_opt o c
    elim got [ none ↦ pure none | some c' ↦ parse_opts os c' ]

-- `if (p.run_flag == 0) p.run_flag = RUN_ALL;`
abbrev pub or_run_all : SinkParams → SinkParams
or_run_all p = if p.run_flag == 0 then record p { run_flag = run_all } else p
