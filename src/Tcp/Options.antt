-- ===== src/Tcp/Options.antt =====
-- tcp_sink.c and tcp_sink_epoll.c: the options of the command line, as `getopt_long` hands them to
-- `main`.
use network_testing.Common.{ℕ, Bool, true, false, List, [], ◌∷◌, Option, none, some, ℤ, pos, to_u16}
use network_testing.Kernel.{M, pure, ◌>>=◌, af_inet, af_inet6}
use network_testing.Getopt.{optarg_or_1, set_verbose}

-- What the options set, with the flags `so_reuseport`, `write_something` and, in
-- tcp_sink_epoll.c, `use_epoll`.
pub record TcpSinkParams : Type 0 where
  pub addr_family : ℕ
  pub listen_port : ℕ
  pub count : ℤ
  pub so_reuseport : Bool
  pub write_something : Bool
  pub use_epoll : Bool

abbrev pub default_sink : TcpSinkParams
default_sink = record {
  addr_family = af_inet;
  listen_port = 6666;
  count = pos 1_000_000;
  so_reuseport = true;
  write_something = false;
  use_epoll = false;
}

-- One result of `getopt_long`. An argument that goes through `atoi` stands as its result.
-- `sink_silent` is `-s`, which has no effect, and `sink_unknown` the unknown option. Only
-- tcp_sink_epoll.c has `sink_epoll`.
pub data SinkOpt : Type 0 where
  sink_count sink_port : ℤ → SinkOpt
  sink_verbose : Option ℤ → SinkOpt
  sink_ipv4 sink_ipv6 sink_write sink_silent sink_unknown : SinkOpt
  sink_quiet sink_reuseport sink_no_reuseport sink_write_back sink_epoll : SinkOpt

-- The tests of one round of the loop over the options, and the flags that `getopt_long` sets by
-- itself; `none` is the end by `usage`.
unfoldable pub parse_sink_opt : SinkOpt → TcpSinkParams → M (Option TcpSinkParams)
parse_sink_opt (sink_count n) p = pure (some (record p { count = n }))
parse_sink_opt (sink_port n) p = pure (some (record p { listen_port = to_u16 n }))
parse_sink_opt sink_ipv4 p = pure (some (record p { addr_family = af_inet }))
parse_sink_opt sink_ipv6 p = pure (some (record p { addr_family = af_inet6 }))
parse_sink_opt sink_write p = pure (some (record p { write_something = true }))
parse_sink_opt (sink_verbose a) p = set_verbose (optarg_or_1 a) (some p)
parse_sink_opt sink_silent p = pure (some p)
parse_sink_opt sink_unknown p = pure none
parse_sink_opt sink_quiet p = set_verbose (pos 0) (some p)
parse_sink_opt sink_reuseport p = pure (some (record p { so_reuseport = true }))
parse_sink_opt sink_no_reuseport p = pure (some (record p { so_reuseport = false }))
parse_sink_opt sink_write_back p = pure (some (record p { write_something = true }))
parse_sink_opt sink_epoll p = pure (some (record p { use_epoll = true }))

unfoldable pub parse_sink_opts : List SinkOpt → TcpSinkParams → M (Option TcpSinkParams)
unfolding parse_sink_opt
parse_sink_opts [] p = pure (some p)
parse_sink_opts (o ∷ os) p = do
  got ← parse_sink_opt o p
  elim got [ none ↦ pure none | some p' ↦ parse_sink_opts os p' ]
