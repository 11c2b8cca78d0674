-- ===== src/Sink/Check/Refine.antt =====
-- `check_pkt` against the flat check.
use network_testing.Common.{
  ℕ, ◌/◌, ◌^◌, ◌≤◌, ◌<◌, ◌≡◌, refl, List, [], ◌∷◌, false, Bool-cases, ◌!=◌, if◌then◌else◌, inl, inr,
  pos, ltb_ℤ, is_nonzero, arith,
}
use mathlib.Core.Path.{subst, ◌∙◌}
use network_testing.Kernel.{Mem, Proc, done, pure, exit, exit_fail_recv}
use network_testing.Pktgen.{PktgenHdr, hdr_size, hdr_eq}
use network_testing.Sink.Params.{Sink}
use network_testing.Sink.Check.{Iov, check_first, check_end, check_pkt}
use network_testing.Sink.Check.Flat.{
  payload, headers, check_repeats, check_headers, capacity, IsRoomy, check_packet, is_fatal,
}
use network_testing.Sink.Check.Scatter.{current_of, start-IsPlaced, loop_start}

last-check_repeats :
    (h : PktgenHdr) (hs : List PktgenHdr) (s : Sink) → (check_repeats h hs s).last ≡ s.last
unfolding check_repeats
last-check_repeats h [] s = refl
last-check_repeats h (g ∷ hs) s = elim (Bool-cases (hdr_eq h g)) [
  | inl e ↦ rw (e, check_repeats) (last-check_repeats h hs s)
  | inr e ↦ rw (e, check_repeats) (last-check_repeats h hs _)
]

check_end-last :
    (t : Sink) → check_end t.last t ≡ (if is_fatal t then exit exit_fail_recv else pure t)
unfolding check_end
check_end-last t = elim (Bool-cases (t.last.pgh_magic != 0)) [ inl e ↦ rw e | inr e ↦ rw e ]

last-check_first : (h : PktgenHdr) (s : Sink) → (check_first h s).last ≡ h
unfolding check_first
last-check_first h s = refl

-- At its end the loop has set `last` already: the assignment after it changes nothing.
check_end-current :
    (hs : List PktgenHdr) (s : Sink)
    → check_end (current_of s.p.check hs) (check_headers hs s)
      ≡ (if is_fatal (check_headers hs s) then exit exit_fail_recv else pure (check_headers hs s))
unfolding check_end current_of check_headers
check_end-current [] s = refl
check_end-current (h ∷ hs) s = elim (Bool-cases (ltb_ℤ s.p.check (pos 2))) [
  | inl low ↦ rw low
  | inr high ↦
      let t = check_repeats h hs (check_first h s) in
      let set : t.last ≡ h = last-check_repeats h hs (check_first h s) ∙ last-check_first h s in
      rw high (
        subst (λ g. check_end g t ≡ (if is_fatal t then exit exit_fail_recv else pure t)) set
          (check_end-last t))
]

-- Without `--check-pktgen` nothing is read.
pub check_pkt-off :
    (m : Mem) (iov : List Iov) (len : ℕ) (k : Sink) (s : Proc)
    → is_nonzero k.p.check ≡ false
    → check_pkt m iov len k s ≡ done k s
unfolding check_pkt
check_pkt-off m iov len k s off = rw off

module _ (m : Mem) (b : Iov) (bs : List Iov) (len : ℕ) (s : Sink) (roomy : IsRoomy (b ∷ bs))
    (fits : len ≤ capacity (b ∷ bs)) (small : len < 2 ^ 31) where
  -- Over any io-vector whose buckets hold a header each, `check_pkt` of `len` received bytes is
  -- the check of the `len / 16` headers of the payload read as one row of bytes.
  pub check_pkt-check_packet :
      check_pkt m (b ∷ bs) len s ≡ check_packet (headers (len / hdr_size) (payload m (b ∷ bs))) s
  unfolding check_pkt check_packet
  check_pkt-check_packet = elim (Bool-cases (is_nonzero s.p.check)) [
    | inl on ↦
        rw
          (
            on,
            loop_start (len / hdr_size) m b bs len s (start-IsPlaced b bs len s roomy fits small)
                (omega arith) (omega arith),
          )
          (check_end-current (headers (len / hdr_size) (payload m (b ∷ bs))) s)
    | inr off ↦ rw off
  ]
