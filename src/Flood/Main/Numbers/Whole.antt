-- ===== src/Flood/Main/Numbers/Whole.antt =====
-- The numbers of the packets that `main` of udp_flood.c sends.
use network_testing.Common.{
  ℕ, ◌+◌, ◌^◌, ◌≤◌, ◌<◌, ◌≡◌, refl, ◌⊎◌, inl, inr, true, false, List, Option, none, some, ℤ, pos,
  negsuc, pos_part, is_nonzero, ltb_ℤ, ◌==◌, if◌then◌else◌, arith,
}
use mathlib.Core.Path.{subst, sym}
use network_testing.Kernel.{
  Kernel, ret, parsed, Sockaddr, Call, Proc, done, after, af_inet, af_inet6,
}
use network_testing.Pktgen.{hdr_size}
use network_testing.TimeBench.Clock.{IsWorking}
use network_testing.Getopt.{has_flag}
use network_testing.Socket.{htons, socket, setup_sockaddr, connect}
use network_testing.Socket.Wrappers.{sockaddr_len-inet, setup_sockaddr-parsed}
use network_testing.Flood.Params.{
  FloodParams, run_sendmsg, run_sendmmsg, run_sendto, run_write, run_send,
}
use network_testing.Flood.Options.{Opt, Settings, defaults, parse_opts, or_run_all}
use network_testing.Flood.Pmtu.{PmtuName, set_pmtu}
use network_testing.Flood.Pmtu.Reads.{given, printed, set_pmtu-run}
use network_testing.Flood.Main.{open_socket, run_floods, main}
use network_testing.Flood.Main.Numbers.{numbers, count_down}
use network_testing.Flood.Main.Numbers.Floods.{picked, run_floods-numbers}

-- the address with the bytes that `inet_pton` found
abbrev destination : Settings → List ℕ → Sockaddr
destination c bytes = record { family = c.addr_family; port = htons c.dest_port; addr = bytes }

-- the parameters with the address
abbrev addressed : Settings → List ℕ → FloodParams
addressed c bytes = record c.p { dest_addr = destination c bytes; connect = pos 1 }

or_run_all-chosen : (c : Settings) → 0 < c.run_flag → or_run_all c ≡ c
or_run_all-chosen c some_test =
    let nonzero : (c.run_flag == 0) ≡ false = ground arith in rw nonzero refl

-- The path MTU discovery is left as it is, or set to a value from 0 on.
abbrev pub IsPmtu : ℤ → Type 0
IsPmtu pmtu = (pmtu ≡ negsuc 0) ⊎ ((n : ℕ) × (pmtu ≡ pos n))

module _ (K : Kernel) (sent : (i : ℕ) → (k : ℕ) × (K.rc i ≡ ret k) × (k < 2 ^ 31)) where
  set_pmtu-numbers :
      (pmtu : ℤ) (fd : ℕ) (s : Proc)
      → IsPmtu pmtu
      → (printed : Option (Option PmtuName)) × (t : Proc) × (set_pmtu K pmtu fd s ≡ done printed t)
        × (numbers t.calls ≡ numbers s.calls)
  unfolding numbers
  set_pmtu-numbers pmtu fd s (inl e) = (none, s, rw e (set_pmtu-run K (negsuc 0) fd s), refl)
  set_pmtu-numbers pmtu fd s (inr (n, e)) = (
    printed n (ltb_ℤ (pos 0) s.verbose),
    given K (pos n) fd s,
    rw e (set_pmtu-run K (pos n) fd s),
    refl,
  )

  open_socket-numbers :
      (c : Settings) (dest_ip bytes : List ℕ) (s : Proc)
      → (c.addr_family ≡ af_inet) ⊎ (c.addr_family ≡ af_inet6)
      → K.pton c.addr_family dest_ip ≡ parsed bytes
      → IsPmtu c.p.pmtu
      → (fd : ℕ) × (t : Proc) × (open_socket K c dest_ip s ≡ done (fd, addressed c bytes) t)
        × (numbers t.calls ≡ numbers s.calls)
  unfolding open_socket socket connect setup_sockaddr numbers
  open_socket-numbers c dest_ip bytes s family text pmtu =
      let (fd, made, small) = sent s.tick in
      let protocol = if is_nonzero c.p.lite then 136 else 17 in
      let s1 = after (Call.socket c.addr_family 2 protocol) s in
      let (printed, t, set, silent) = set_pmtu-numbers c.p.pmtu fd s1 pmtu in
      let a = destination c bytes in
      let (l, len) = sockaddr_len-inet a family in
      let (k, connected, small') = sent t.tick in
      (
        fd,
        after (Call.connect fd a) t,
        rw
            (
              made,
              set,
              setup_sockaddr-parsed K c.addr_family dest_ip bytes c.dest_port t family text,
              len,
              connected,
            )
            refl,
        silent,
      )

  -- With headers, where every call succeeds: `main` ends with the exit code 0, and the packets that it
  -- has sent have successive numbers from 0 on, those of each test that is chosen behind those of the
  -- one before. The options are accepted and choose tests among sendto, sendmsg and write, the
  -- address is well-formed, the clock works, a header fits a packet, there is at least one packet
  -- a test, and `--pmtu` is not given or not negative.
  pub main-numbers :
      (opts : List Opt) (dest_ip bytes : List ℕ) (c : Settings) (s u : Proc)
      → IsWorking K
      → ((i : ℕ) → K.alloc i ≡ true)
      → parse_opts opts defaults s ≡ done (some c) u
      → is_nonzero c.p.pktgen_hdr ≡ true
      → hdr_size ≤ pos_part c.p.msg_sz
      → 0 < pos_part c.p.count
      → pos_part c.p.count < 2 ^ 31
      → 0 < c.run_flag
      → has_flag c.run_flag run_send ≡ false
      → has_flag c.run_flag run_sendmmsg ≡ false
      → (c.addr_family ≡ af_inet) ⊎ (c.addr_family ≡ af_inet6)
      → K.pton c.addr_family dest_ip ≡ parsed bytes
      → IsPmtu c.p.pmtu
      → let count = picked c.p c.run_flag in
        (t : Proc) × (main K opts (some dest_ip) s ≡ done 0 t)
        × (numbers t.calls
            ≡ count_down 0
                (count run_sendto + count run_sendmsg + count run_write)
                (numbers u.calls))
  unfolding main
  main-numbers opts dest_ip bytes c s u working alloc options on whole some_packets few some_test
        no_send no_sendmmsg family text pmtu =
      let (fd, t, opened, silent) = open_socket-numbers c dest_ip bytes u family text pmtu in
      let (t', run, counted) =
        run_floods-numbers K (addressed c bytes) fd working on whole some_packets few alloc family
          sent c.run_flag t no_send no_sendmmsg in
      let same = or_run_all-chosen c some_test in
      let opened' : open_socket K (or_run_all c) dest_ip u ≡ done (fd, addressed c bytes) t =
        subst (λ x. open_socket K x dest_ip u ≡ done (fd, addressed c bytes) t) (sym same) opened in
      let run' : run_floods K (or_run_all c).run_flag (addressed c bytes) fd t ≡ done tt t' =
        subst (λ x. run_floods K x.run_flag (addressed c bytes) fd t ≡ done tt t') (sym same) run in
      (t', rw (options, opened', run') refl, rw silent at counted)
