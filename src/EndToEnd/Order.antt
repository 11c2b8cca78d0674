-- ===== src/EndToEnd/Order.antt =====
-- What the sink counts as out of order, for any order in which packets of a flood arrive.
use network_testing.Common.{
  ℕ, suc, ◌+◌, ◌≡◌, refl, ap, ◌∙◌, inl, inr, List, [], ◌∷◌, Bool, true, false, ◌&&◌, ◌!=◌,
  Bool-cases, map, arith, if◌then◌else◌, ltb_ℤ, pos,
}
use network_testing.Pktgen.{PktgenHdr, pktgen_magic, htonl}
use network_testing.Sink.Params.{Sink, SinkParams}
use network_testing.Sink.Check.{is_behind, check_order, check_sequence, check_first, bump_ooo}
use network_testing.Sink.Check.Flat.{check_headers}
use network_testing.Sink.Recvmsg.Counts.{check_stream}
use network_testing.Flood.Fill.Content.{copies}
use network_testing.EndToEnd.Stream.{check_magic-ok, check_repeats-copies}

-- The packets that are behind the one before them.
unfoldable pub behind_count : PktgenHdr → List PktgenHdr → ℕ
behind_count last [] = 0
behind_count last (h ∷ hs) =
    (if last.pgh_magic != 0 && is_behind h last then 1 else 0) + behind_count h hs

abbrev pub AllMagic : List PktgenHdr → Type 0
AllMagic [] = Unit {0}
AllMagic (h ∷ hs) = (h.pgh_magic ≡ htonl pktgen_magic) × AllMagic hs

check_sequence-lenient :
    (h : PktgenHdr) (s : Sink) → ltb_ℤ (pos 2) s.p.check ≡ false → check_sequence h s ≡ s
unfolding check_sequence
check_sequence-lenient h s lenient = rw lenient

bump_ooo-check : (b : Bool) (s : Sink) → (bump_ooo b s).p.check ≡ s.p.check
bump_ooo-check true s = refl
bump_ooo-check false s = refl

-- What is left of a packet whose first header has the right magic.
abbrev ordered : PktgenHdr → Sink → Sink
ordered h s = record (bump_ooo (s.last.pgh_magic != 0 && is_behind h s.last) s) { last = h }

-- Below level 3 nothing but the order is counted, where the magic is right.
check_first-ordered :
    (h : PktgenHdr) (s : Sink)
    → ltb_ℤ (pos 2) s.p.check ≡ false
    → h.pgh_magic ≡ htonl pktgen_magic
    → check_first h s ≡ ordered h s
unfolding check_first check_order
check_first-ordered h s lenient magic =
    let back = s.last.pgh_magic != 0 && is_behind h s.last in
    let same : ltb_ℤ (pos 2) (bump_ooo back s).p.check ≡ false =
      rw (bump_ooo-check back s) lenient in
    rw (check_magic-ok h s magic)
      (ap (λ (t : Sink). record t { last = h }) (check_sequence-lenient h (bump_ooo back s) same))

check_headers-ordered :
    (k : ℕ) (h : PktgenHdr) (s : Sink)
    → ltb_ℤ (pos 2) s.p.check ≡ false
    → h.pgh_magic ≡ htonl pktgen_magic
    → check_headers (copies (suc k) h) s ≡ ordered h s
unfolding check_headers
check_headers-ordered k h s lenient magic =
    let first = check_first-ordered h s lenient magic in
    elim (Bool-cases (ltb_ℤ s.p.check (pos 2))) [
      | inl low ↦ rw low first
      | inr high ↦ rw high (check_repeats-copies k h (check_first h s) ∙ first)
    ]

ordered-p :
    (h : PktgenHdr) (s : Sink)
    → (ordered h s).p ≡ record s.p {
      ooo = s.p.ooo + (if s.last.pgh_magic != 0 && is_behind h s.last then 1 else 0);
    }
ordered-p h s = bumped (s.last.pgh_magic != 0 && is_behind h s.last)
  where
    bumped : (b : Bool) → (bump_ooo b s).p ≡ record s.p { ooo = s.p.ooo + (if b then 1 else 0) }
    bumped true = refl
    bumped false = ap (λ n. record s.p { ooo = n }) (omega arith)

-- Whatever packets with the right magic come, in whatever order: `ooo` counts those that are behind
-- the one received before them, and nothing else changes.
pub check_stream-behind_count :
    (k : ℕ) (hs : List PktgenHdr) (s : Sink)
    → ltb_ℤ (pos 2) s.p.check ≡ false
    → AllMagic hs
    → (check_stream (map (copies (suc k)) hs) s).p
      ≡ record s.p { ooo = s.p.ooo + behind_count s.last hs }
unfolding check_stream behind_count
check_stream-behind_count k [] s lenient all = ap (λ n. record s.p { ooo = n }) (omega arith)
check_stream-behind_count k (h ∷ hs) s lenient (magic, all) =
    let same : ltb_ℤ (pos 2) (ordered h s).p.check ≡ false =
      rw (bump_ooo-check (s.last.pgh_magic != 0 && is_behind h s.last) s) lenient in
    rw (check_headers-ordered k h s lenient magic, check_stream)
      (check_stream-behind_count k hs (ordered h s) same all
        ∙ ap (λ (q : SinkParams). record q { ooo = q.ooo + behind_count h hs }) (ordered-p h s)
        ∙ ap (λ n. record s.p { ooo = n }) (omega arith))
