-- ===== src/Echo/Server/Echoes.antt =====
-- What the loop of udp_echo.c sends back.
use network_testing.Common.{
  ℕ, zero, suc, ◌<◌, ◌≡◌, refl, ap, ◌∙◌, Bool-cases, true, false, Option-cases, none, some, inl,
  inr, List, [], ◌∷◌, ℤ, pos, ltb_ℤ, ◌-ℤ◌, arith,
}
use network_testing.Kernel.{Kernel, ret, Message, Call, Proc, done, after}
use network_testing.Echo.Server.{
  Header, reset, received, storage_size, pktinfo_get, more_left, print_info, report_packet,
  echo_packet, echo_loop,
}

more_left-suc : (n : ℕ) → more_left (pos (suc n)) ≡ some (pos (suc n))
unfolding more_left
more_left-suc n = ground arith

minus_one : (n : ℕ) → pos (suc n) -ℤ pos 1 ≡ pos n
unfolding ◌-ℤ◌
minus_one n = ground arith

-- The server behind what it prints of a message: two addresses, if the family is known.
unfoldable pub after_report : Message → Proc → Proc
after_report m s = elim (ltb_ℤ (pos 0) s.verbose) [
  | false ↦ s
  | true ↦ elim (pktinfo_get m) [
    | none ↦ s
    | some _ ↦ after Call.inet_ntop (after Call.inet_ntop s)
  ]
]

-- the calls but for those that print an address
unfoldable pub traffic : List Call → List Call
traffic [] = []
traffic (Call.inet_ntop ∷ calls) = traffic calls
traffic (c ∷ calls) = c ∷ traffic calls

traffic-after_report : (m : Message) (s : Proc) → traffic (after_report m s).calls ≡ traffic s.calls
unfolding after_report traffic
traffic-after_report m s = elim (Bool-cases (ltb_ℤ (pos 0) s.verbose)) [
  | inr quiet ↦ rw (after_report, quiet) refl
  | inl loud ↦ elim (Option-cases (pktinfo_get m)) [
    | inl unknown ↦ rw (after_report, loud, unknown) refl
    | inr (family, known) ↦ rw (after_report, loud, known, traffic) refl
  ]
]

module _ (K : Kernel) where
  report_packet-done : (m : Message) (s : Proc) → report_packet K m s ≡ done tt (after_report m s)
  unfolding after_report report_packet print_info
  report_packet-done m s = elim (Bool-cases (ltb_ℤ (pos 0) s.verbose)) [
    | inr quiet ↦ rw (report_packet, after_report, quiet) refl
    | inl loud ↦ elim (Option-cases (pktinfo_get m)) [
      | inl unknown ↦ rw (report_packet, after_report, loud, unknown, print_info) refl
      | inr (family, known) ↦ rw (report_packet, after_report, loud, known, print_info) refl
    ]
  ]

  -- The call that receives a packet, with room for an address, a frame and control data, and the one
  -- that sends the message `m` of `len` bytes back: to where it came from, with its control data.
  abbrev pub receive : ℕ → Call
  receive fd = Call.recvmsg_room fd 128 (pos 8192) 512

  abbrev pub send_back : (fd len : ℕ) → Message → Call
  send_back fd len m = Call.sendmsg_to fd m.name m.namelen m.memory (pos len) m.control m.controllen

  -- The server behind a round that received `len` bytes.
  abbrev pub answered : (fd len : ℕ) → Proc → Proc
  answered fd len s =
      let m = K.message s.tick 0 in
      after (send_back fd len m) (after_report m (after (receive fd) s))

  -- Whatever is printed, and whatever the round before left in the header, a round that received a
  -- packet ends with the call that sends it back.
  pub echo_packet-answers :
      (fd len : ℕ) (count : ℤ) (h : Header) (s : Proc)
      → K.rc s.tick ≡ ret len
      → (h' : Header) × (echo_packet K fd count h s
          ≡ done (more_left (count -ℤ pos 1), h') (answered fd len s))
  unfolding echo_packet
  echo_packet-answers fd len count h s e =
      let m = K.message s.tick 0 in
      (
        record (received m (reset storage_size h)) { iov_len = pos len },
        rw (e, report_packet-done m (after (receive fd) s)) refl,
      )

  -- `n` packets come, one in each round
  unfoldable pub AllCome : (fd n : ℕ) → Proc → Type 0
  AllCome fd zero s = Unit {0}
  AllCome fd (suc n) s = (len : ℕ) × (K.rc s.tick ≡ ret len) × AllCome fd n (answered fd len s)

  -- the calls that receive them and send them back, the latest first, before those in `rest`
  unfoldable pub echoes : (fd n : ℕ) (s : Proc) → AllCome fd n s → List Call → List Call
  unfolding AllCome
  echoes fd zero s come rest = rest
  echoes fd (suc n) s (len, e, come) rest =
      echoes fd n (answered fd len s) come
        (send_back fd len (K.message s.tick 0) ∷ receive fd ∷ rest)

  traffic-answered :
      (fd len : ℕ) (s : Proc)
      → traffic (answered fd len s).calls
        ≡ send_back fd len (K.message s.tick 0) ∷ receive fd ∷ traffic s.calls
  unfolding traffic
  traffic-answered fd len s =
      rw (traffic-after_report (K.message s.tick 0) (after (receive fd) s)) refl

  -- Where the first `count` packets come, whatever is printed and whatever stands on the stack: the
  -- loop sends each of them back, to the address it came from, with the bytes, the length and the
  -- control data it came with, before it receives the next, and then ends. Each is received with room
  -- for a whole frame, an address of any family and 512 bytes of control data.
  pub echo_loop-echoes :
      (fd n fuel : ℕ) (h : Header) (s : Proc)
      → n < fuel
      → (come : AllCome fd (suc n) s)
      → (t : Proc) × (echo_loop K fuel fd (pos (suc n)) h s ≡ done tt t)
        × (traffic t.calls ≡ echoes fd (suc n) s come (traffic s.calls))
  unfolding echo_loop AllCome echoes
  echo_loop-echoes fd n zero h s enough come = ground arith
  echo_loop-echoes fd zero (suc fuel) h s enough (len, e, come) =
      let (h', round) = echo_packet-answers fd len (pos 1) h s e in
      (answered fd len s, rw (round, minus_one 0, more_left) refl, traffic-answered fd len s)
  echo_loop-echoes fd (suc n) (suc fuel) h s enough (len, e, come) =
      let (h', round) = echo_packet-answers fd len (pos (suc (suc n))) h s e in
      let (t, run, calls) = echo_loop-echoes fd n fuel h' (answered fd len s) (omega arith) come in
      (
        t,
        rw (round, minus_one (suc n), more_left-suc n, echo_loop) run,
        calls ∙ ap (echoes fd (suc n) (answered fd len s) come) (traffic-answered fd len s),
      )
