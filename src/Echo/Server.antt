-- ===== src/Echo/Server.antt =====
-- udp_echo.c: `pktinfo_get`, `print_info` and `main`.
pub mod Echoes
use network_testing.Common.{
  ℕ, zero, suc, ◌+◌, ◌<◌, ◌≡◌, refl, ◌==◌, ltb, ◌&&◌, true, false, Bool-cases, Option-cases, inl,
  inr, if◌then◌else◌, Option, none, some, List, [], ◌∷◌, ℤ, pos, to_u16, ltb_ℤ, ◌-ℤ◌, is_nonzero,
  arith,
}
use network_testing.Kernel.{
  Kernel, Rc, ret, err, Mem, Sockaddr, Message, Cmsg, Call, Proc, M, pure, ask, ◌>>=◌, ◌>>◌, done,
  after, out_of_fuel, af_inet, af_inet6,
}
use network_testing.Getopt.{set_verbose}
use network_testing.Socket.{socket}
use network_testing.Tcp.Client.{any_addr}

-- The walk of `pktinfo_get` over the control messages: the last one that is known decides.
pub find_pktinfo : List Cmsg → Option ℕ → Option ℕ
find_pktinfo [] res = res
find_pktinfo (c ∷ cs) res = find_pktinfo cs (
    if c.level == 0 && c.kind == 8
    then some af_inet
    else if c.level == 41 && c.kind == 50
    then some af_inet6
    else res)

-- `pktinfo_get`: the family, or `none` for -1.
unfoldable pub pktinfo_get : Message → Option ℕ
unfolding find_pktinfo
pktinfo_get m = if ltb 0 m.controllen then find_pktinfo m.control none else none

-- `sizeof(frame)`
abbrev pub frame_size : ℕ
frame_size = 8192

abbrev pub received_message : Kernel → ℕ → Rc × Message
received_message K t = (K.rc t, K.message t 0)

-- `msghdr`, `vec[0]`, and the buffers that they point to.
pub record Header : Type 0 where
  pub name : Sockaddr
  pub namelen : ℕ
  pub frame : Mem
  pub iov_len : ℤ
  pub control : List Cmsg
  pub controllen : ℕ

-- At the start of a round every length is that of its buffer: of an address of `size` bytes, of
-- `frame` and of `cbuf`. What stands in the buffers stays there.
abbrev pub reset : ℕ → Header → Header
reset size h = record h { namelen = size; iov_len = pos frame_size; controllen = 512 }

-- what `recvmsg` wrote
abbrev pub received : Message → Header → Header
received m h = record h {
  name = m.name;
  namelen = m.namelen;
  frame = m.memory;
  control = m.control;
  controllen = m.controllen;
}

-- The calls with the header: `recvmsg` reads its lengths, `sendmsg` all of it.
abbrev pub recv_call : ℕ → Header → Call
recv_call fd h = Call.recvmsg_room fd h.namelen h.iov_len h.controllen

abbrev pub send_call : ℕ → Header → Call
send_call fd h = Call.sendmsg_to fd h.name h.namelen h.frame h.iov_len h.control h.controllen

-- `sizeof(struct sockaddr_storage)`
abbrev pub storage_size : ℕ
storage_size = 128

-- What the options set.
pub record EchoParams : Type 0 where
  pub count : ℤ
  pub listen_port : ℕ
  pub addr_family : ℕ

abbrev pub default_echo : EchoParams
default_echo = record { count = pos 1_000_000; listen_port = 4040; addr_family = af_inet6 }

-- One result of `getopt`; an unknown option has no effect.
pub data EchoOpt : Type 0 where
  echo_count echo_port echo_verbose : ℤ → EchoOpt
  echo_ipv4 echo_ipv6 echo_unknown : EchoOpt

unfoldable pub parse_echo_opt : EchoOpt → EchoParams → M EchoParams
parse_echo_opt (echo_count n) p = pure (record p { count = n })
parse_echo_opt (echo_port n) p = pure (record p { listen_port = to_u16 n })
parse_echo_opt (echo_verbose n) p = set_verbose n p
parse_echo_opt echo_ipv4 p = pure (record p { addr_family = af_inet })
parse_echo_opt echo_ipv6 p = pure (record p { addr_family = af_inet6 })
parse_echo_opt echo_unknown p = pure p

unfoldable pub parse_echo_opts : List EchoOpt → EchoParams → M EchoParams
unfolding parse_echo_opt
parse_echo_opts [] p = pure p
parse_echo_opts (o ∷ os) p = do p' ← parse_echo_opt o p; parse_echo_opts os p'

-- `if (--count == 0) break;`
unfoldable pub more_left : ℤ → Option ℤ
more_left count = if is_nonzero count then some count else none

module _ (K : Kernel) where
  -- `print_info`: two addresses are written out if the family is known.
  unfoldable pub print_info : Message → M (Unit {0})
  unfolding pktinfo_get
  print_info m = elim (pktinfo_get m) [
    | none ↦ pure tt
    | some _ ↦ do _ ← ask K.ntop Call.inet_ntop; _ ← ask K.ntop Call.inet_ntop; pure tt
  ]

  -- `if (verbose > 0)`
  unfoldable pub report_packet : Message → M (Unit {0})
  unfolding print_info
  report_packet m s = elim (ltb_ℤ (pos 0) s.verbose) [ true ↦ print_info m s | false ↦ pure tt s ]

  -- One round: the packet is sent back; `none` is the end of the loop.
  unfoldable pub echo_packet : ℕ → ℤ → Header → M (Option ℤ × Header)
  unfolding report_packet more_left
  echo_packet fd count h = do
    let h0 = reset storage_size h
    res ← ask (received_message K) (recv_call fd h0)
    elim res.0 [
      | err _ ↦ pure (none, h0)
      | ret len ↦ do
        report_packet res.1
        let h1 = record (received res.1 h0) { iov_len = pos len }
        _ ← ask K.rc (send_call fd h1)
        pure (more_left (count -ℤ pos 1), h1)
    ]

  -- `while (1)`, with `count` before the round.
  unfoldable pub echo_loop : ℕ → ℕ → ℤ → Header → M (Unit {0})
  unfolding echo_packet
  echo_loop zero fd count h = out_of_fuel
  echo_loop (suc fuel) fd count h = do
    (left, h') ← echo_packet fd count h
    elim left [ none ↦ pure tt | some count' ↦ echo_loop fuel fd count' h' ]

  -- `main` behind the options, with what stands on the stack, and the exit code. The options of the
  -- socket are not checked.
  unfoldable pub serve : ℕ → EchoParams → Header → M ℕ
  unfolding socket echo_loop
  serve fuel p h = do
    fd ← socket K p.addr_family 2 0
    res ← ask K.rc (Call.bind fd (any_addr p.addr_family p.listen_port))
    elim res [
      | err _ ↦ pure 1
      | ret _ ↦ do
        _ ← ask K.rc (Call.setsockopt fd 0 8)
        _ ← ask K.rc (Call.setsockopt fd 41 49)
        echo_loop fuel fd p.count h
        pure 0
    ]

  unfoldable pub main : ℕ → List EchoOpt → Header → M ℕ
  unfolding serve parse_echo_opts
  main fuel opts h = do p ← parse_echo_opts opts default_echo; serve fuel p h
