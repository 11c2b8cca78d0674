-- ===== src/EndToEnd/Stream.antt =====
-- A stream of packets as udp_flood stamps them passes the checks of udp_sink.
use network_testing.Common.{
  ℕ, zero, suc, ◌+◌, ◌/◌, ◌%◌, ◌^◌, ◌≤◌, ◌<◌, ◌≡◌, refl, ap, ◌∙◌, ◌⊎◌, inl, inr, List, [], ◌∷◌,
  Bool, true, false, ◌&&◌, ◌!=◌, Bool-cases, map, arith, ltb_ℤ, pos,
}
use network_testing.Kernel.{Kernel, Timespec}
use network_testing.Pktgen.{PktgenHdr, pktgen_magic, htonl}
use network_testing.Pktgen.Layout.{hdr_eq_refl}
use network_testing.Sink.Params.{Sink}
use network_testing.Sink.Check.{is_behind, check_magic, check_order, check_sequence, check_first}
use network_testing.Sink.Check.Flat.{check_repeats, check_headers}
use network_testing.Sink.Recvmsg.Counts.{check_stream}
use network_testing.Flood.Fill.{stamp, stamp_time}
use network_testing.Flood.Fill.Content.{copies}

-- the headers of `n` packets, the first stamped by the call `t`
unfoldable pub stamps : Kernel → ℕ → ℕ → ℕ → List PktgenHdr
stamps K zero t seq = []
stamps K (suc n) t seq = stamp (stamp_time K t) seq ∷ stamps K n (t + 1 + 1) ((seq + 1) % 2 ^ 32)

-- The time of one header is not before that of the other, and its number is the next.
pub record Follows (last h : PktgenHdr) : Type 0 where
  pub time : (last.tv_sec < h.tv_sec) ⊎ ((last.tv_sec ≡ h.tv_sec) × (last.tv_usec ≤ h.tv_usec))
  pub next : h.seq_num ≡ (last.seq_num + 1) % 2 ^ 32
  pub small : last.seq_num < 2 ^ 32

-- What the sink has seen before a header: nothing yet, or the header that it follows.
abbrev pub Ready : PktgenHdr → Sink → Type 0
Ready h s = (s.last.pgh_magic ≡ 0) ⊎ Follows s.last h

pub is_behind-Follows : (last h : PktgenHdr) → Follows last h → is_behind h last ≡ false
unfolding is_behind
is_behind-Follows last h f = ground arith

-- A test behind `last.pgh_magic &&`.
bump-seen : (m : ℕ) (b : Bool) → (m ≡ 0) ⊎ (b ≡ false) → (m != 0 && b) ≡ false
bump-seen m b h = ground arith

pub check_magic-ok :
    (h : PktgenHdr) (s : Sink) → h.pgh_magic ≡ htonl pktgen_magic → check_magic h s ≡ s
unfolding check_magic htonl
check_magic-ok h s e =
    let same : (htonl h.pgh_magic != pktgen_magic) ≡ false = ap (λ m. htonl m != pktgen_magic) e in
    rw same

check_order-Ready : (h : PktgenHdr) (s : Sink) → Ready h s → check_order h s ≡ s
unfolding check_order
check_order-Ready h s (inl fresh) = rw (bump-seen s.last.pgh_magic (is_behind h s.last) (inl fresh))
check_order-Ready h s (inr f) =
    rw (bump-seen s.last.pgh_magic (is_behind h s.last) (inr (is_behind-Follows s.last h f)))

no_gap : (last h : PktgenHdr) → Follows last h → (h.seq_num != (last.seq_num + 1) % 2 ^ 32) ≡ false
no_gap last h f = let e = f.next in ground arith

off_and : (a b : Bool) → b ≡ false → (a && b) ≡ false
off_and true b e = e
off_and false b e = refl

check_sequence-Ready : (h : PktgenHdr) (s : Sink) → Ready h s → check_sequence h s ≡ s
unfolding check_sequence
check_sequence-Ready h s ready =
    let gap = h.seq_num != (s.last.seq_num + 1) % 2 ^ 32 in
    rw (
      off_and (ltb_ℤ (pos 2) s.p.check) (s.last.pgh_magic != 0 && gap)
        (bump-seen s.last.pgh_magic gap (quiet ready)))
  where
    quiet :
        Ready h s → (s.last.pgh_magic ≡ 0) ⊎ ((h.seq_num != (s.last.seq_num + 1) % 2 ^ 32) ≡ false)
    quiet (inl fresh) = inl fresh
    quiet (inr f) = inr (no_gap s.last h f)

-- A header that is due changes `last`, and no statistics.
pub check_first-Ready :
    (h : PktgenHdr) (s : Sink)
    → h.pgh_magic ≡ htonl pktgen_magic
    → Ready h s
    → check_first h s ≡ record s { last = h }
unfolding check_first
check_first-Ready h s magic ready =
    ap (λ (t : Sink). record t { last = h })
      (ap (λ t. check_sequence h (check_order h t)) (check_magic-ok h s magic)
        ∙ ap (check_sequence h) (check_order-Ready h s ready)
        ∙ check_sequence-Ready h s ready)

pub check_repeats-copies : (k : ℕ) (h : PktgenHdr) (s : Sink) → check_repeats h (copies k h) s ≡ s
unfolding check_repeats
check_repeats-copies zero h s = refl
check_repeats-copies (suc k) h s = rw (hdr_eq_refl h, check_repeats) (check_repeats-copies k h s)

check_headers-copies :
    (k : ℕ) (h : PktgenHdr) (s : Sink)
    → h.pgh_magic ≡ htonl pktgen_magic
    → Ready h s
    → check_headers (copies (suc k) h) s ≡ record s { last = h }
unfolding check_headers
check_headers-copies k h s magic ready = elim (Bool-cases (ltb_ℤ s.p.check (pos 2))) [
  | inl low ↦ rw low (check_first-Ready h s magic ready)
  | inr high ↦
      rw high (check_repeats-copies k h (check_first h s) ∙ check_first-Ready h s magic ready)
]

-- Between the packets the clock that stamps them does not step back; its seconds fit 32 bits.
pub record IsSteady (K : Kernel) : Type 0 where
  pub sec : (t : ℕ) → (stamp_time K t).sec < 2 ^ 32
  pub nsec : (t : ℕ) → (stamp_time K t).nsec < 1_000_000_000
  pub forward :
      (t : ℕ)
      → ((stamp_time K t).sec < (stamp_time K (t + 1 + 1)).sec)
        ⊎ (((stamp_time K t).sec ≡ (stamp_time K (t + 1 + 1)).sec)
            × ((stamp_time K t).nsec ≤ (stamp_time K (t + 1 + 1)).nsec))

stamp-Follows :
    (K : Kernel) (t seq : ℕ)
    → IsSteady K
    → seq < 2 ^ 32
    → Follows (stamp (stamp_time K t) seq) (stamp (stamp_time K (t + 1 + 1)) ((seq + 1) % 2 ^ 32))
unfolding stamp
stamp-Follows K t seq steady small = record {
  time = order (steady.forward t);
  next = refl;
  small = small;
}
  where
    a : Timespec
    a = stamp_time K t

    b : Timespec
    b = stamp_time K (t + 1 + 1)

    order :
        (a.sec < b.sec) ⊎ ((a.sec ≡ b.sec) × (a.nsec ≤ b.nsec))
        → (a.sec % 2 ^ 32 < b.sec % 2 ^ 32)
          ⊎ ((a.sec % 2 ^ 32 ≡ b.sec % 2 ^ 32) × (a.nsec / 1000 % 2 ^ 32 ≤ b.nsec / 1000 % 2 ^ 32))
    order (inl lt) = inl (omega (arith, steady.sec t, steady.sec (t + 1 + 1)))
    order (inr (e, le)) =
        inr (ap (λ x. x % 2 ^ 32) e, omega (arith, steady.nsec t, steady.nsec (t + 1 + 1)))

magic-stamp : (ts : Timespec) (seq : ℕ) → (stamp ts seq).pgh_magic ≡ htonl pktgen_magic
unfolding stamp
magic-stamp ts seq = refl

-- A sink that is ready for the first packet of a flood finds no fault in any of them, at whatever
-- level it checks: the statistics stay as they are.
pub check_stream-stamps :
    (K : Kernel) (k n t seq : ℕ) (s : Sink)
    → IsSteady K
    → seq < 2 ^ 32
    → Ready (stamp (stamp_time K t) seq) s
    → (check_stream (map (copies (suc k)) (stamps K n t seq)) s).p ≡ s.p
unfolding check_stream stamps
check_stream-stamps K k zero t seq s steady small ready = refl
check_stream-stamps K k (suc n) t seq s steady small ready =
    let h = stamp (stamp_time K t) seq in
    rw (check_headers-copies k h s (magic-stamp (stamp_time K t) seq) ready, check_stream)
      (check_stream-stamps K k n (t + 1 + 1) ((seq + 1) % 2 ^ 32) (record s { last = h }) steady
        (omega arith) (inr (stamp-Follows K t seq steady small)))
