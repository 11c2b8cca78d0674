-- ===== src/Flood/Options.antt =====
-- udp_flood.c: the options of the command line, as `getopt_long` hands them to `main`.
use network_testing.Common.{
  ℕ, List, [], ◌∷◌, ◌==◌, if◌then◌else◌, Option, none, some, ℤ, pos, to_u16,
}
use network_testing.Kernel.{M, pure, ◌>>=◌, af_inet, af_inet6}
use network_testing.Getopt.{set_flag, optarg_or_1, set_verbose}
use network_testing.Flood.Params.{
  FloodParams, init_params, run_sendmsg, run_sendmmsg, run_sendto, run_write, run_send, run_all,
}

-- One result of `getopt_long`. An argument that goes through `atoi` stands as its result.
-- `opt_help` is also the unknown option.
pub data Opt : Type 0 where
  opt_count opt_port opt_payload opt_batch opt_pmtu : ℤ → Opt
  opt_verbose : Option ℤ → Opt
  opt_pktgen_header opt_ipv4 opt_ipv6 opt_lite opt_help : Opt
  opt_sendmsg opt_sendmmsg opt_sendto opt_write opt_send : Opt

-- The local variables of `main` that the options set.
pub record Settings : Type 0 where
  pub p : FloodParams
  pub dest_port : ℕ
  pub addr_family : ℕ
  pub run_flag : ℕ

abbrev pub defaults : Settings
defaults = record { p = init_params; dest_port = 6666; addr_family = af_inet; run_flag = 0 }

-- The tests of one round of the loop over the options; `none` is the end by `usage`.
unfoldable pub parse_opt : Opt → Settings → M (Option Settings)
parse_opt (opt_count n) c = pure (some (record c { p = record c.p { count = n } }))
parse_opt (opt_port n) c = pure (some (record c { dest_port = to_u16 n }))
parse_opt (opt_payload n) c = pure (some (record c { p = record c.p { msg_sz = n } }))
parse_opt (opt_batch n) c = pure (some (record c { p = record c.p { batch = n } }))
parse_opt (opt_pmtu n) c = pure (some (record c { p = record c.p { pmtu = n } }))
parse_opt opt_pktgen_header c = pure (some (record c { p = record c.p { pktgen_hdr = pos 1 } }))
parse_opt opt_ipv4 c = pure (some (record c { addr_family = af_inet }))
parse_opt opt_ipv6 c = pure (some (record c { addr_family = af_inet6 }))
parse_opt opt_lite c = pure (some (record c { p = record c.p { lite = pos 1 } }))
parse_opt (opt_verbose a) c = set_verbose (optarg_or_1 a) (some c)
parse_opt opt_sendmsg c = pure (some (record c { run_flag = set_flag c.run_flag run_sendmsg }))
parse_opt opt_sendmmsg c = pure (some (record c { run_flag = set_flag c.run_flag run_sendmmsg }))
parse_opt opt_sendto c = pure (some (record c { run_flag = set_flag c.run_flag run_sendto }))
parse_opt opt_write c = pure (some (record c { run_flag = set_flag c.run_flag run_write }))
parse_opt opt_send c = pure (some (record c { run_flag = set_flag c.run_flag run_send }))
parse_opt opt_help c = pure none

unfoldable pub parse_opts : List Opt → Settings → M (Option Settings)
unfolding parse_opt
parse_opts [] c = pure (some c)
parse_opts (o ∷ os) c = do
  got ← parse_opt o c
  elim got [ none ↦ pure none | some c' ↦ parse_opts os c' ]

-- `if (run_flag == 0) run_flag = RUN_ALL;`
abbrev pub or_run_all : Settings → Settings
or_run_all c = if c.run_flag == 0 then record c { run_flag = run_all } else c
