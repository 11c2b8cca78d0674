-- ===== src/Echo/Example.antt =====
-- udp_example02.c: the echo server for IPv4 that udp_echo.c comes from.
use network_testing.Common.{
  ℕ, zero, suc, Bool, true, false, if◌then◌else◌, Option, none, some, List, [], ◌∷◌, ℤ, pos, to_u16,
  ◌-ℤ◌,
}
use network_testing.Kernel.{Kernel, ret, err, Call, M, pure, ask, ◌>>=◌, ◌>>◌, out_of_fuel, af_inet}
use network_testing.Socket.{socket}
use network_testing.Tcp.Client.{any_addr}
use network_testing.Echo.Server.{
  Header, reset, received, recv_call, send_call, received_message, more_left,
}

-- What the options set.
pub record ExampleParams : Type 0 where
  pub count : ℤ
  pub listen_port : ℕ
  pub tos_reflect : Bool

abbrev pub default_example : ExampleParams
default_example = record { count = pos 1_000_000; listen_port = 4040; tos_reflect = false }

-- One result of `getopt`; an unknown option has no effect.
pub data ExampleOpt : Type 0 where
  example_count example_port : ℤ → ExampleOpt
  example_tos example_unknown : ExampleOpt

unfoldable pub parse_example_opts : List ExampleOpt → ExampleParams → ExampleParams
parse_example_opts [] p = p
parse_example_opts (example_count n ∷ os) p = parse_example_opts os (record p { count = n })
parse_example_opts (example_port n ∷ os) p =
    parse_example_opts os (record p { listen_port = to_u16 n })
parse_example_opts (example_tos ∷ os) p = parse_example_opts os (record p { tos_reflect = true })
parse_example_opts (example_unknown ∷ os) p = parse_example_opts os p

module _ (K : Kernel) where
  -- One round of `while (1)`; `none` is the end of the loop. The packet information is only printed.
  -- `rem_addr` is a `struct sockaddr_in`, of 16 bytes.
  unfoldable pub example_packet : ℕ → ℤ → Header → M (Option ℤ × Header)
  unfolding more_left
  example_packet fd count h = do
    let h0 = reset 16 h
    res ← ask (received_message K) (recv_call fd h0)
    elim res.0 [
      | err _ ↦ pure (none, h0)
      | ret len ↦ do
        let h1 = record (received res.1 h0) { iov_len = pos len }
        _ ← ask K.rc (send_call fd h1)
        pure (more_left (count -ℤ pos 1), h1)
    ]

  -- `while (1)`, with `count` before the round.
  unfoldable pub example_loop : ℕ → ℕ → ℤ → Header → M (Unit {0})
  unfolding example_packet
  example_loop zero fd count h = out_of_fuel
  example_loop (suc fuel) fd count h = do
    (left, h') ← example_packet fd count h
    elim left [ none ↦ pure tt | some count' ↦ example_loop fuel fd count' h' ]

  -- The socket is made before the options are read. `h` is what stands on the stack.
  unfoldable pub example_main : ℕ → List ExampleOpt → Header → M ℕ
  unfolding socket parse_example_opts example_loop
  example_main fuel opts h = do
    fd ← socket K af_inet 2 0
    let p = parse_example_opts opts default_example
    res ← ask K.rc (Call.bind fd (any_addr af_inet p.listen_port))
    elim res [
      | err _ ↦ pure 1
      | ret _ ↦ do
        _ ← ask K.rc (Call.setsockopt fd 0 8)
        if p.tos_reflect then (do _ ← ask K.rc (Call.setsockopt fd 0 13); pure tt) else pure tt
        example_loop fuel fd p.count h
        pure 0
    ]
