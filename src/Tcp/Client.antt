-- ===== src/Tcp/Client.antt =====
-- tcp_sink_client.c: `bind_source_port`, `connect_retries` and the loop of `main`.
pub mod Retries
use network_testing.Common.{
  ℕ, zero, suc, ◌==◌, ltb, if◌then◌else◌, Bool, true, false, ℤ, pos, pos_part, List, [], ◌∷◌,
  to_u16, ◌||◌, Option, none, some,
}
use network_testing.Kernel.{
  Kernel, Sockaddr, Rc, ret, err, Call, M, pure, exit, ask, ◌>>=◌, ◌>>◌, exit_fail_sock,
  exit_fail_reuseport, exit_fail_option, af_inet, af_inet6,
}
use network_testing.Getopt.{optarg_or_1, set_verbose}
use network_testing.Socket.{
  htons, no_addr, sockaddr_len, setup_sockaddr, socket, close, close_fd, setsockopt, bind,
}

abbrev pub eaddrnotavail : ℕ
eaddrnotavail = 99

abbrev pub econnreset : ℕ
econnreset = 104

-- What the options set: the family and the ports, the number of connections, `close_conn`.
pub record ClientParams : Type 0 where
  pub addr_family : ℕ
  pub dest_port : ℕ
  pub src_port : ℕ
  pub count : ℤ
  pub close_conn : Bool

abbrev pub default_params : ClientParams
default_params = record {
  addr_family = af_inet;
  dest_port = 6666;
  src_port = 0;
  count = pos 100;
  close_conn = true;
}

-- One result of `getopt_long`; `client_quiet` and `client_no_close` are the flags.
pub data TcpClientOpt : Type 0 where
  client_count client_dest_port client_src_port : ℤ → TcpClientOpt
  client_verbose : Option ℤ → TcpClientOpt
  client_ipv4 client_ipv6 client_quiet client_no_close client_unknown : TcpClientOpt

-- The tests of one round of the loop over the options; `none` is the end by `usage`.
unfoldable pub parse_tcp_opt : TcpClientOpt → ClientParams → M (Option ClientParams)
parse_tcp_opt (client_count n) p = pure (some (record p { count = n }))
parse_tcp_opt (client_dest_port n) p = pure (some (record p { dest_port = to_u16 n }))
parse_tcp_opt (client_src_port n) p = pure (some (record p { src_port = to_u16 n }))
parse_tcp_opt (client_verbose a) p = set_verbose (optarg_or_1 a) (some p)
parse_tcp_opt client_ipv4 p = pure (some (record p { addr_family = af_inet }))
parse_tcp_opt client_ipv6 p = pure (some (record p { addr_family = af_inet6 }))
parse_tcp_opt client_quiet p = set_verbose (pos 0) (some p)
parse_tcp_opt client_no_close p = pure (some (record p { close_conn = false }))
parse_tcp_opt client_unknown p = pure none

unfoldable pub parse_tcp_opts : List TcpClientOpt → ClientParams → M (Option ClientParams)
unfolding parse_tcp_opt
parse_tcp_opts [] p = pure (some p)
parse_tcp_opts (o ∷ os) p = do
  got ← parse_tcp_opt o p
  elim got [ none ↦ pure none | some p' ↦ parse_tcp_opts os p' ]

-- the address of `INADDR_ANY`, or no address in another family
abbrev pub any_addr : ℕ → ℕ → Sockaddr
any_addr family port =
    if family == af_inet || family == af_inet6
    then record { family = family; port = htons port; addr = [] }
    else no_addr

module _ (K : Kernel) where
  -- SO_REUSEADDR, then `Bind`.
  unfoldable pub bind_source_port : ℕ → ℕ → ℕ → M (Unit {0})
  unfolding setsockopt bind
  bind_source_port family fd port = do
    setsockopt K fd 1 2
    _ ← bind K fd (any_addr family port)
    pure tt

  -- What is done with the `errno` of a failed `connect` that is not tried again.
  unfoldable pub connect_failed : ℕ → ℕ → M ℕ
  connect_failed fd e =
      if e == econnreset
      then close_fd K fd >> exit exit_fail_reuseport
      else close_fd K fd >> exit exit_fail_sock

  -- The label `retry`, with the retries left.
  pub retry : ℕ → ℕ → Sockaddr → M ℕ
  unfolding sockaddr_len connect_failed
  retry zero fd a = do
    _ ← sockaddr_len a
    res ← ask K.rc (Call.connect fd a)
    elim res [ ret n ↦ pure n | err _ ↦ close_fd K fd >> exit exit_fail_sock ]
  retry (suc n) fd a = do
    _ ← sockaddr_len a
    res ← ask K.rc (Call.connect fd a)
    elim res [
      | ret k ↦ pure k
      | err e ↦ elim (e == eaddrnotavail) [ true ↦ retry n fd a | false ↦ connect_failed fd e ]
    ]

  unfoldable pub connect_retries : ℕ → Sockaddr → ℤ → M ℕ
  unfolding retry
  connect_retries fd a max_retries = retry (pos_part max_retries) fd a

  -- `for (i = 0; i < count; i++)` of `main`, with the connections left.
  unfoldable pub connect_loop : ℕ → ClientParams → Sockaddr → M (Unit {0})
  unfolding socket bind_source_port connect_retries close
  connect_loop zero p a = pure tt
  connect_loop (suc n) p a = do
    fd ← socket K p.addr_family 1 6
    if ltb 0 p.src_port then bind_source_port p.addr_family fd p.src_port else pure tt
    _ ← connect_retries fd a (pos 2)
    if p.close_conn then (do _ ← close K fd; pure tt) else pure tt
    connect_loop n p a

  -- `main` behind the options, with `argv[optind]` and the exit code.
  unfoldable pub connect_all : ClientParams → Option (List ℕ) → M ℕ
  unfolding setup_sockaddr connect_loop
  connect_all p operand = elim operand [
    | none ↦ pure exit_fail_option
    | some dest_ip ↦ do
      a ← setup_sockaddr K p.addr_family dest_ip p.dest_port
      connect_loop (pos_part p.count) p a
      pure 0
  ]

  unfoldable pub main : List TcpClientOpt → Option (List ℕ) → M ℕ
  unfolding connect_all parse_tcp_opts
  main opts operand = do
    got ← parse_tcp_opts opts default_params
    elim got [ none ↦ pure exit_fail_option | some p ↦ connect_all p operand ]
