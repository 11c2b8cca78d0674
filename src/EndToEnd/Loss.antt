-- ===== src/EndToEnd/Loss.antt =====
-- Level 3 of udp_sink's check ends the program at a packet that is not the next.
use network_testing.Common.{
  ℕ, suc, ◌+◌, ◌-◌, ◌/◌, ◌%◌, ◌^◌, ◌≤◌, ◌<◌, ◌≡◌, refl, ◌∙◌, ap, ◌≢◌, List, [], ◌∷◌, Bool, true,
  false, ◌&&◌, not, ◌!=◌, arith, ltb_ℤ, pos, ℤ, is_nonzero,
}
use network_testing.Kernel.{Mem, Proc, exited, exit_fail_recv}
use network_testing.Pktgen.{PktgenHdr, pktgen_magic, hdr_size, htonl, hdr_eq, hdr_of}
use network_testing.Sink.Params.{Sink}
use network_testing.Sink.Check.{
  Iov, is_behind, check_pkt, check_magic, check_order, check_sequence, check_first, bump_bad_repeat,
  bump_ooo, bump_bad_magic,
}
use network_testing.Sink.Check.Flat.{
  payload, headers, check_repeats, check_headers, check_packet, is_fatal, capacity, IsRoomy,
}
use network_testing.Sink.Check.Setup.{check_headers-same}
use network_testing.Sink.Check.Refine.{check_pkt-check_packet}

ooo-bump_bad_repeat : (b : Bool) (s : Sink) → (bump_bad_repeat b s).p.ooo ≡ s.p.ooo
ooo-bump_bad_repeat true s = refl
ooo-bump_bad_repeat false s = refl

ooo-check_repeats :
    (h : PktgenHdr) (hs : List PktgenHdr) (s : Sink) → (check_repeats h hs s).p.ooo ≡ s.p.ooo
unfolding check_repeats
ooo-check_repeats h [] s = refl
ooo-check_repeats h (g ∷ gs) s =
    ooo-check_repeats h gs (bump_bad_repeat (not (hdr_eq h g)) s)
    ∙ ooo-bump_bad_repeat (not (hdr_eq h g)) s

-- The tests of a first header leave alone what the last of them reads.
abbrev SameView : Sink → Sink → Type 0
SameView t s = (t.last ≡ s.last) × (t.p.check ≡ s.p.check)

check_magic-SameView : (h : PktgenHdr) (s : Sink) → SameView (check_magic h s) s
unfolding check_magic
check_magic-SameView h s = bump (htonl h.pgh_magic != pktgen_magic)
  where
    bump : (b : Bool) → SameView (bump_bad_magic b s) s
    bump true = (refl, refl)
    bump false = (refl, refl)

check_order-SameView : (h : PktgenHdr) (s : Sink) → SameView (check_order h s) s
unfolding check_order
check_order-SameView h s = bump (s.last.pgh_magic != 0 && is_behind h s.last)
  where
    bump : (b : Bool) → SameView (bump_ooo b s) s
    bump true = (refl, refl)
    bump false = (refl, refl)

ooo-check_sequence :
    (h : PktgenHdr) (s : Sink)
    → ltb_ℤ (pos 2) s.p.check ≡ true
    → s.last.pgh_magic ≢ 0
    → h.seq_num ≢ (s.last.seq_num + 1) % 2 ^ 32
    → (check_sequence h s).p.ooo ≡ s.p.ooo + 1
unfolding check_sequence
ooo-check_sequence h s strict seen gap = ground arith

-- A number that is not the next is counted.
check_first-gap :
    (h : PktgenHdr) (s : Sink)
    → ltb_ℤ (pos 2) s.p.check ≡ true
    → s.last.pgh_magic ≢ 0
    → h.seq_num ≢ (s.last.seq_num + 1) % 2 ^ 32
    → (check_first h s).p.ooo ≢ 0
unfolding check_first
check_first-gap h s strict seen gap =
    let t = check_order h (check_magic h s) in
    let (l1, c1) = check_order-SameView h (check_magic h s) in
    let (l2, c2) = check_magic-SameView h s in
    let last = l1 ∙ l2 in
    let check = c1 ∙ c2 in
    omega (arith, ooo-check_sequence h t (rw check strict) (rw last seen) (rw last gap))

check_headers-gap :
    (h : PktgenHdr) (hs : List PktgenHdr) (s : Sink)
    → ltb_ℤ (pos 2) s.p.check ≡ true
    → (check_first h s).p.ooo ≢ 0
    → (check_headers (h ∷ hs) s).p.ooo ≢ 0
unfolding check_headers
check_headers-gap h hs s strict counted =
    rw (high s.p.check strict, ooo-check_repeats h hs (check_first h s)) counted
  where
    high : (c : ℤ) → ltb_ℤ (pos 2) c ≡ true → ltb_ℤ c (pos 2) ≡ false
    high c h = ground arith

strict_on : (c : ℤ) → ltb_ℤ (pos 2) c ≡ true → is_nonzero c ≡ true
strict_on c h = ground arith

is_fatal-gap : (t : Sink) → ltb_ℤ (pos 2) t.p.check ≡ true → t.p.ooo ≢ 0 → is_fatal t ≡ true
is_fatal-gap t strict counted = ground arith

check_packet-gap :
    (h : PktgenHdr) (hs : List PktgenHdr) (s : Sink) (t : Proc)
    → ltb_ℤ (pos 2) s.p.check ≡ true
    → s.last.pgh_magic ≢ 0
    → h.seq_num ≢ (s.last.seq_num + 1) % 2 ^ 32
    → check_packet (h ∷ hs) s t ≡ exited exit_fail_recv t
unfolding check_packet
check_packet-gap h hs s t strict seen gap =
    let check = ap (λ q. q.check) (check_headers-same (h ∷ hs) s) in
    let counted = check_headers-gap h hs s strict (check_first-gap h s strict seen gap) in
    rw (
      strict_on s.p.check strict,
      is_fatal-gap (check_headers (h ∷ hs) s) (rw check strict) counted,
    )

module _ (m : Mem) (b : Iov) (bs : List Iov) (len : ℕ) (s : Sink) (t : Proc)
    (roomy : IsRoomy (b ∷ bs)) (fits : len ≤ capacity (b ∷ bs)) (small : len < 2 ^ 31) where
  -- At level 3, when a packet has been seen, a packet with a header whose number is not the next,
  -- because packets were lost, repeated or reordered, ends the program with EXIT_FAIL_RECV.
  pub check_pkt-gap :
      ltb_ℤ (pos 2) s.p.check ≡ true
      → s.last.pgh_magic ≢ 0
      → hdr_size ≤ len
      → (hdr_of (payload m (b ∷ bs))).seq_num ≢ (s.last.seq_num + 1) % 2 ^ 32
      → check_pkt m (b ∷ bs) len s t ≡ exited exit_fail_recv t
  unfolding check_packet headers
  check_pkt-gap strict seen whole gap =
      let k : len / hdr_size ≡ suc (len / hdr_size - 1) = omega arith in
      rw (check_pkt-check_packet m b bs len s roomy fits small, k)
        (check_packet-gap (hdr_of (payload m (b ∷ bs)))
          (headers (len / hdr_size - 1) (λ j. payload m (b ∷ bs) (hdr_size + j))) s t strict seen
          gap)
