-- ===== src/Examples/Datagram.antt =====
-- ipv6_example01.c: an echo server for IPv6.
use network_testing.Common.{ℕ, zero, suc, true, false, List, [], ◌∷◌, get_or, pos}
use network_testing.Kernel.{
  Kernel, Rc, ret, err, Mem, Sockaddr, Call, M, pure, exit, ask, ◌>>=◌, ◌>>◌, out_of_fuel, af_inet6,
}
use network_testing.Socket.{htons, socket}

-- "Got your message\n", and "- Received a datagram: "
abbrev pub got_your_message : List ℕ
got_your_message =
    71 ∷ 111 ∷ 116 ∷ 32 ∷ 121 ∷ 111 ∷ 117 ∷ 114 ∷ 32 ∷ 109 ∷ 101 ∷ 115 ∷ 115 ∷ 97 ∷ 103 ∷ 101 ∷ 10
    ∷ []

abbrev pub received_a_datagram : List ℕ
received_a_datagram =
    45 ∷ 32 ∷ 82 ∷ 101 ∷ 99 ∷ 101 ∷ 105 ∷ 118 ∷ 101 ∷ 100 ∷ 32 ∷ 97 ∷ 32 ∷ 100 ∷ 97 ∷ 116 ∷ 97 ∷ 103
    ∷ 114 ∷ 97 ∷ 109 ∷ 58 ∷ 32 ∷ []

abbrev pub text_at : List ℕ → Mem
text_at text a = get_or text a 0

-- `server`: the address `::`, and port 5555
abbrev pub server_addr : Sockaddr
server_addr = record {
  family = af_inet6;
  port = htons 5555;
  addr = 0 ∷ 0 ∷ 0 ∷ 0 ∷ 0 ∷ 0 ∷ 0 ∷ 0 ∷ 0 ∷ 0 ∷ 0 ∷ 0 ∷ 0 ∷ 0 ∷ 0 ∷ 0 ∷ [];
}

-- What `recvfrom` left behind: its result, `buf` and `from`.
abbrev pub datagram : Kernel → ℕ → Rc × Mem × Sockaddr
datagram K t = (K.rc t, (K.message t 0).memory, K.source t)

module _ (K : Kernel) where
  -- One round of `while (1)`. `error` prints and ends the program with 1.
  unfoldable pub answer : ℕ → M (Unit {0})
  answer sock = do
    got ← ask (datagram K) (Call.recvfrom sock (pos 1024) 0)
    elim got.0 [
      | err _ ↦ exit 1
      | ret n ↦ do
        known ← ask K.ntop Call.inet_ntop
        elim known [
          | false ↦ exit 1
          | true ↦ do
            _ ← ask K.rc (Call.write 1 (text_at received_a_datagram) (pos 23))
            _ ← ask K.rc (Call.write 1 got.1 (pos n))
            sent ← ask K.rc (Call.sendto sock (text_at got_your_message) (pos 17) got.2)
            elim sent [ err _ ↦ exit 1 | ret _ ↦ pure tt ]
        ]
    ]

  -- `while (1)`, which ends by `error` only.
  pub answer_loop : ℕ → ℕ → M (Unit {0})
  unfolding answer
  answer_loop zero sock = out_of_fuel
  answer_loop (suc fuel) sock = do answer sock; answer_loop fuel sock

  unfoldable pub datagram_main : ℕ → M (Unit {0})
  unfolding socket answer_loop
  datagram_main fuel = do
    sock ← socket K af_inet6 2 0
    res ← ask K.rc (Call.bind sock server_addr)
    elim res [ err _ ↦ exit 1 | ret _ ↦ answer_loop fuel sock ]
