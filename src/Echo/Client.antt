-- ===== src/Echo/Client.antt =====
-- udp_client_echo.c.
use network_testing.Common.{
  ℕ, ◌==◌, ◌%◌, ◌^◌, if◌then◌else◌, List, [], ◌∷◌, Option, none, some, ℤ, pos, to_u16,
}
use network_testing.Kernel.{
  Kernel, Sockaddr, ret, err, Mem, Call, M, pure, exit, ask, ◌>>=◌, ◌>>◌, exit_fail_option, af_inet,
  af_inet6,
}
use network_testing.Getopt.{set_verbose}
use network_testing.Socket.{socket, setsockopt, setup_sockaddr, sockaddr_len, connect}

-- What the options set.
pub record ClientParams : Type 0 where
  pub pkt_size : ℤ
  pub addr_family : ℕ
  pub dest_port : ℕ

abbrev pub default_client : ClientParams
default_client = record { pkt_size = pos 3000; addr_family = af_inet6; dest_port = 4040 }

-- One result of `getopt`; an unknown option has no effect.
pub data EchoClientOpt : Type 0 where
  client_size client_verbose client_port : ℤ → EchoClientOpt
  client_ipv4 client_ipv6 client_unknown : EchoClientOpt

unfoldable pub parse_client_opt : EchoClientOpt → ClientParams → M ClientParams
parse_client_opt (client_size n) p = pure (record p { pkt_size = n })
parse_client_opt (client_verbose n) p = set_verbose n p
parse_client_opt (client_port n) p = pure (record p { dest_port = to_u16 n })
parse_client_opt client_ipv4 p = pure (record p { addr_family = af_inet })
parse_client_opt client_ipv6 p = pure (record p { addr_family = af_inet6 })
parse_client_opt client_unknown p = pure p

unfoldable pub parse_client_opts : List EchoClientOpt → ClientParams → M ClientParams
unfolding parse_client_opt
parse_client_opts [] p = pure p
parse_client_opts (o ∷ os) p = do p' ← parse_client_opt o p; parse_client_opts os p'

module _ (K : Kernel) where
  -- `len` is a `uint16_t`, and `buf` holds what stood in the buffer.
  unfoldable pub send_packet : ℕ → Sockaddr → Mem → ℕ → M ℕ
  unfolding sockaddr_len
  send_packet fd a buf len = do
    _ ← sockaddr_len a
    res ← ask K.rc (Call.sendto fd buf (pos len) a)
    elim res [ ret n ↦ pure n | err _ ↦ exit 5 ]

  unfoldable pub recv_packet : ℕ → ℕ → M ℕ
  recv_packet fd len = do
    res ← ask K.rc (Call.recvfrom fd (pos len) 0)
    elim res [ ret n ↦ pure n | err _ ↦ exit 5 ]

  unfoldable pub validate_packet : ℕ → ℕ → M (Unit {0})
  validate_packet len_send len_recv = if len_recv == len_send then pure tt else exit 1

  -- `main` behind the options, with `argv[optind]` and the exit code.
  unfoldable pub exchange : ClientParams → Mem → Option (List ℕ) → M ℕ
  unfolding socket setsockopt setup_sockaddr sockaddr_len connect send_packet recv_packet
      validate_packet
  exchange p buf operand = elim operand [
    | none ↦ exit exit_fail_option
    | some dest_ip ↦ do
      fd ← socket K p.addr_family 2 0
      _ ← setsockopt K fd 0 10
      if p.addr_family == af_inet6 then (do _ ← setsockopt K fd 41 23; pure tt) else pure tt
      a ← setup_sockaddr K p.addr_family dest_ip p.dest_port
      _ ← sockaddr_len a
      _ ← connect K fd a
      len_send ← send_packet fd a buf (to_u16 p.pkt_size)
      len_recv ← recv_packet fd (len_send % 2 ^ 16)
      validate_packet len_send len_recv
      pure 0
  ]

  unfoldable pub main : List EchoClientOpt → Mem → Option (List ℕ) → M ℕ
  unfolding exchange parse_client_opts
  main opts buf operand = do p ← parse_client_opts opts default_client; exchange p buf operand
