-- ===== src/Sink/Main/Ends.antt =====
-- A run of udp_sink.c in which every call succeeds.
use network_testing.Common.{
  ℕ, ◌+◌, ◌^◌, arith, ◌<◌, ◌≡◌, refl, ◌⊎◌, true, false, not, Bool, if◌then◌else◌, List, [], some,
  is_nonzero, is_neg,
}
use network_testing.Kernel.{Kernel, Sockaddr, Call, Proc, done, after, af_inet, af_inet6}
use network_testing.TimeBench.Clock.{IsWorking}
use network_testing.Socket.{socket, bind, htons}
use network_testing.Socket.Wrappers.{sockaddr_len-inet}
use network_testing.Pktgen.{zero_hdr}
use network_testing.Sink.Message.Passes.{fixed}
use network_testing.Sink.Params.{SinkParams}
use network_testing.Sink.Options.{Opt, Settings, defaults, parse_opts, or_run_all}
use network_testing.Sink.Main.{require_option, open_socket, main}
use network_testing.Sink.Main.Served.{IsChosen, Serves, run_tests-done}

-- the calls of a `setsockopt` that may be asked for
abbrev asked : Bool → ℕ
asked b = if b then 1 else 0

-- the calls that `main` makes from the options to the tests
abbrev pub setup_calls : SinkParams → ℕ
setup_calls p =
    asked (is_nonzero p.so_reuseport)
    + asked (is_nonzero p.use_bpf)
    + asked (is_nonzero p.recv_pktinfo)
    + asked (is_nonzero p.recv_ttl)
    + asked (not (is_neg p.sk_timeout))
    + 2

module _ (K : Kernel) (serves : Serves K) where
  require_option-done :
      (wanted : Bool) (fd level name : ℕ) (s : Proc)
      → (t : Proc) × (require_option K wanted fd level name s ≡ done tt t)
        × (t.tick ≡ s.tick + asked wanted)
  unfolding require_option
  require_option-done false fd level name s = (s, refl, omega arith)
  require_option-done true fd level name s =
      let (k, e, small) = serves.calls s.tick in
      (after (Call.setsockopt fd level name) s, rw e refl, refl)

  open_socket-done :
      (c : Settings) (s : Proc)
      → (c.addr_family ≡ af_inet) ⊎ (c.addr_family ≡ af_inet6)
      → (fd : ℕ) × (t : Proc) × (open_socket K c s ≡ done fd t)
        × (t.tick ≡ s.tick + setup_calls c.p)
  unfolding open_socket socket bind
  open_socket-done c s family =
      let (fd, made, small) = serves.calls s.tick in
      let a : Sockaddr = record { family = c.addr_family; port = htons c.listen_port; addr = [] } in
      let (l, len) = sockaddr_len-inet a family in
      let protocol = if is_nonzero c.p.lite then 136 else 17 in
      let s1 = after (Call.socket c.addr_family 2 protocol) s in
      let (t1, reuseport, e1) = require_option-done (is_nonzero c.p.so_reuseport) fd 1 15 s1 in
      let (t2, bpf, e2) = require_option-done (is_nonzero c.p.use_bpf) fd 1 51 t1 in
      let (t3, pktinfo, e3) = require_option-done (is_nonzero c.p.recv_pktinfo) fd 0 8 t2 in
      let (t4, ttl, e4) = require_option-done (is_nonzero c.p.recv_ttl) fd 0 12 t3 in
      let (k, bound, small') = serves.calls t4.tick in
      let (t5, timeout, e5) =
        require_option-done (not (is_neg c.p.sk_timeout)) fd 1 20 (after (Call.bind fd a) t4) in
      (
        fd,
        t5,
        rw (made, reuseport, bpf, pktinfo, ttl, len, bound, timeout) refl,
        omega (arith, e1, e2, e3, e4, e5),
      )

  -- Where every call succeeds, `main` ends with the exit code 0, whatever the tests and whatever is
  -- received: the options are accepted, there is a packet to wait for and a run of each test, the
  -- sink does not connect, the clock works, the file with the demux setting is missing or holds a number, and all packets
  -- come from an address of a known family.
  -- If one of the tests takes messages, from the first call behind the setup of the socket on each
  -- call brings something, the messages fit the buckets and bring no control data, and nothing that
  -- comes is to end the program: they are checked at level 1 or 2 or not at all.
  pub main-ends :
      (n m most flags fuel : ℕ) (opts : List Opt) (c : Settings) (s u : Proc)
      → IsWorking K
      → 0 < n
      → n < 2 ^ 31
      → parse_opts K opts defaults s ≡ done (some c) u
      → IsChosen K
          (u.tick + setup_calls (or_run_all c.p))
          n
          m
          most
          fuel
          flags
          (fixed (or_run_all c.p))
      → (c.addr_family ≡ af_inet) ⊎ (c.addr_family ≡ af_inet6)
      → (t : Proc) × (main K fuel opts s ≡ done 0 t)
  unfolding main
  main-ends n m most flags fuel opts c s u working some_packets few parsed set family =
      let p = or_run_all c.p in
      let (fd, u', opened, calls) = open_socket-done (record c { p = p }) u family in
      let (t, run) =
        run_tests-done K serves fd (u.tick + setup_calls (or_run_all c.p)) n m most fuel flags
          working some_packets few (record { p = p; last = zero_hdr }) u' set (omega arith) in
      (t, rw (parsed, opened, run) refl)
