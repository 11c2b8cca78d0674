-- ===== src/Echo/Exchange.antt =====
-- udp_client_echo.c against the server of udp_echo.c.
use network_testing.Common.{
  ℕ, ◌+◌, ◌%◌, ◌^◌, ◌<◌, ◌≤◌, ◌≡◌, refl, ap, ◌==◌, leb, min, true, false, if◌then◌else◌, Bool-cases,
  Option, some, List, [], ◌∷◌, ℤ, pos, to_u16, ◌⊎◌, inl, inr, arith,
}
use network_testing.Kernel.{
  Kernel, Sockaddr, parsed, ret, Mem, Call, Proc, Run, and_then, done, exited, pure, after, af_inet,
  af_inet6,
}
use network_testing.Socket.{socket, setsockopt, setup_sockaddr, sockaddr_len, connect, htons}
use network_testing.Echo.Server.{Header, frame_size, echo_packet}
use network_testing.Echo.Server.Echoes.{echo_packet-answers}
use network_testing.Echo.Client.{ClientParams, send_packet, recv_packet, validate_packet, exchange}

-- The calls before the first packet from the call `t` on succeed, and `ip` is an address of the
-- family.
pub record Connects (K : Kernel) (family : ℕ) (ip bytes : List ℕ) (t : ℕ) : Type 0 where
  pub calls : (i : ℕ) → t ≤ i → i < t + 4 → (k : ℕ) × (K.rc i ≡ ret k)
  pub known : (family ≡ af_inet) ⊎ (family ≡ af_inet6)
  pub address : K.pton family ip ≡ parsed bytes

-- the number of those calls
abbrev pub setup_calls : ℕ → ℕ
setup_calls family = if family == af_inet6 then 4 else 3

-- the end of the client: 0 if the reply is as long as what was sent
abbrev pub verdict : (sent received : ℕ) → Proc → Run ℕ
verdict sent received u = if received == sent then done 0 u else exited 1 u

module _ (K : Kernel) (p : ClientParams) (buf : Mem) (ip bytes : List ℕ) (s : Proc)
    (connects : Connects K p.addr_family ip bytes s.tick) where
  abbrev server : Sockaddr
  server = record { family = p.addr_family; port = htons p.dest_port; addr = bytes }

  -- the client behind `Connect` with the descriptor `fd`
  abbrev connected : ℕ → Proc
  connected fd =
      let s2 = after (Call.setsockopt fd 0 10) (after (Call.socket p.addr_family 2 0) s) in
      after (Call.connect fd server)
        (if p.addr_family == af_inet6 then after (Call.setsockopt fd 41 23) s2 else s2)

  -- and behind its packet of `sent` bytes and the reply
  abbrev replied : (fd sent : ℕ) → Proc
  replied fd sent =
      after (Call.recvfrom fd (pos (sent % 2 ^ 16)) 0)
        (after (Call.sendto fd buf (pos (to_u16 p.pkt_size)) server) (connected fd))

  end :
      (sent received : ℕ) (u : Proc)
      → and_then (validate_packet K sent received u) (λ _. pure 0) ≡ verdict sent received u
  unfolding validate_packet
  end sent received u = elim (Bool-cases (received == sent)) [
    | inl e ↦ rw e refl
    | inr e ↦ rw e refl
  ]

  -- Once the socket is connected, whatever number of bytes the packet went out with and came back
  -- with decides the exit code of the client.
  pub exchange-validates :
      (sent received : ℕ)
      → K.rc (s.tick + setup_calls p.addr_family) ≡ ret sent
      → K.rc (s.tick + setup_calls p.addr_family + 1) ≡ ret received
      → (fd : ℕ) × (exchange K p buf (some ip) s ≡ verdict sent received (replied fd sent))
  unfolding exchange socket setsockopt setup_sockaddr sockaddr_len connect send_packet recv_packet
      validate_packet
  exchange-validates sent received went came =
      let t1 = s.tick + 1 in
      let (fd, opened) = connects.calls s.tick (omega arith) (omega arith) in
      let (k1, set1) = connects.calls t1 (omega arith) (omega arith) in
      let (k2, set2) = connects.calls (t1 + 1) (omega arith) (omega arith) in
      let (k3, set3) = connects.calls (t1 + 1 + 1) (omega arith) (omega arith) in
      elim connects.known [
        | inl inet ↦
            let now : s.tick + setup_calls p.addr_family ≡ t1 + 1 + 1 = rw inet (omega arith) in
            let not_six : (p.addr_family == af_inet6) ≡ false = rw inet refl in
            let four : (p.addr_family == af_inet) ≡ true = rw inet refl in
            let went' = rw now at went in
            let came' = rw now at came in
            (
              fd,
              rw (opened, set1, not_six, four, connects.address, four, set2, went', came')
                  (end sent received _),
            )
        | inr inet6 ↦
            let now : s.tick + setup_calls p.addr_family ≡ t1 + 1 + 1 + 1 =
              rw inet6 (omega arith) in
            let not_four : (p.addr_family == af_inet) ≡ false = rw inet6 refl in
            let six : (p.addr_family == af_inet6) ≡ true = rw inet6 refl in
            let went' = rw now at went in
            let came' = rw now at came in
            (
              fd,
              rw (opened, set1, six, set2, connects.address, not_four, six, set3, went', came')
                  (end sent received _),
            )
      ]

-- what the latest call sent
abbrev pub sent_length : List Call → ℕ
sent_length [] = 0
sent_length (Call.sendmsg_to fd a l m (pos n) c k ∷ calls) = n
sent_length (_ ∷ calls) = 0

abbrev pub reply_length : Run (Option ℤ × Header) → ℕ
reply_length (done left t) = sent_length t.calls
reply_length _ = 0

min_frame : (size : ℕ) → (min (min size frame_size) size == size) ≡ leb size frame_size
min_frame size = ground arith

-- A client at its start and a server about to receive; `K` and `S` are what happens to them.
module _ (K S : Kernel) (p : ClientParams) (buf : Mem) (ip bytes : List ℕ) (s t : Proc)
    (connects : Connects K p.addr_family ip bytes s.tick) where
  -- The client has an address of its family, and its calls before the packet succeed. Where
  -- `sendto` takes `size` bytes of the packet, a number of 16 bits, the server receives of them what
  -- its frame holds, and the client receives of what the server then sends what its buffer holds:
  -- whatever the server prints, the client exits with 0 if these bytes are not more than the frame of
  -- the server holds, and with 1 if they are.
  pub exchange-echo_packet :
      (size sfd : ℕ) (count : ℤ) (h : Header)
      → size < 2 ^ 16
      → K.rc (s.tick + setup_calls p.addr_family) ≡ ret size
      → S.rc t.tick ≡ ret (min size frame_size)
      → K.rc (s.tick + setup_calls p.addr_family + 1)
        ≡ ret (min (reply_length (echo_packet S sfd count h t)) (size % 2 ^ 16))
      → (u : Proc) × (exchange K p buf (some ip) s
          ≡ (if leb size frame_size then done 0 u else exited 1 u))
  exchange-echo_packet size sfd count h small went arrived came =
      let word : size % 2 ^ 16 ≡ size = omega arith in
      let (h', round) = echo_packet-answers S sfd (min size frame_size) count h t arrived in
      let (fd, run) =
        exchange-validates K p buf ip bytes s connects size (min (min size frame_size) size) went
          (rw (ap reply_length round, word) at came) in
      (replied K p buf ip bytes s connects fd size, rw (run, min_frame size) refl)
