-- ===== src/EndToEnd/Damage.antt =====
-- A packet of a flood that the network damages behind its first header, at level 2 of udp_sink.
use network_testing.Common.{
  ℕ, zero, suc, ◌+◌, ◌-◌, ◌*◌, ◌/◌, ◌^◌, ◌≤◌, ◌<◌, ◌≡◌, refl, ap, ◌∙◌, sym, inl, inr, List, ◌∷◌,
  Bool, true, false, ◌&&◌, not, ◌==◌, Bool-cases, arith, if◌then◌else◌, ltb_ℤ, pos, is_nonzero,
  ==_refl, eq_of_==,
}
use network_testing.Kernel.{Mem, M, Proc, done}
use network_testing.Pktgen.{PktgenHdr, pktgen_magic, hdr_size, htonl, hdr_byte, hdr_of, hdr_eq}
use network_testing.Pktgen.Layout.{IsHdr, hdr_of-hdr_byte, hdr_of-congr, hdr_eq_refl, eq_of_hdr_eq}
use network_testing.Sink.Params.{Sink}
use network_testing.Sink.Check.{Iov, check_pkt, bump_bad_repeat}
use network_testing.Sink.Check.Flat.{
  payload, headers, check_repeats, check_headers, check_packet, capacity, IsRoomy,
}
use network_testing.Sink.Check.Refine.{check_pkt-check_packet}
use network_testing.EndToEnd.Stream.{Ready, check_first-Ready}

-- The first `n` bytes agree.
unfoldable pub same_bytes : ℕ → Mem → Mem → Bool
same_bytes zero f g = true
same_bytes (suc n) f g = f n == g n && same_bytes n f g

-- Of the `k` blocks of the size of a header, those that differ from the header in some byte.
unfoldable pub damaged_blocks : PktgenHdr → ℕ → Mem → ℕ
unfolding same_bytes
damaged_blocks h zero f = 0
damaged_blocks h (suc k) f =
    (if same_bytes hdr_size f (hdr_byte h) then 0 else 1)
    + damaged_blocks h k (λ j. f (hdr_size + j))

same_bytes-of_all : (n : ℕ) (f g : Mem) → ((j : ℕ) → j < n → f j ≡ g j) → same_bytes n f g ≡ true
unfolding same_bytes
same_bytes-of_all zero f g e = refl
same_bytes-of_all (suc n) f g e =
    rw (e n (omega arith), ==_refl (g n)) (same_bytes-of_all n f g (λ j h. e j (omega arith)))

both_true : (a b : Bool) → (a && b) ≡ true → (a ≡ true) × (b ≡ true)
both_true true b h = (refl, h)
both_true false b h = cc

all-same_bytes : (n : ℕ) (f g : Mem) → same_bytes n f g ≡ true → (j : ℕ) → j < n → f j ≡ g j
unfolding same_bytes
all-same_bytes zero f g e j h = absurd (omega arith)
all-same_bytes (suc n) f g e j h =
    let (here, below) = both_true (f n == g n) (same_bytes n f g) e in
    elim (Bool-cases (j == n)) [
      | inl last ↦ rw (eq_of_== j n last) (eq_of_== (f n) (g n) here)
      | inr other ↦ all-same_bytes n f g below j (ground arith)
    ]

abbrev IsBytes : ℕ → Mem → Type 0
IsBytes n f = (j : ℕ) → j < n → f j < 256

hdr_byte-hdr_of :
    (f : Mem) (j : ℕ) → IsBytes hdr_size f → j < hdr_size → hdr_byte (hdr_of f) j ≡ f j
unfolding hdr_byte hdr_of
hdr_byte-hdr_of f j v h =
    ground
      (arith, v 0, v 1, v 2, v 3, v 4, v 5, v 6, v 7, v 8, v 9, v 10, v 11, v 12, v 13, v 14, v 15)

-- The comparison of two headers as words is that of their bytes.
hdr_eq-same_bytes :
    (h : PktgenHdr) (f : Mem)
    → IsHdr h
    → IsBytes hdr_size f
    → hdr_eq h (hdr_of f) ≡ same_bytes hdr_size f (hdr_byte h)
hdr_eq-same_bytes h f v bytes = elim (Bool-cases (same_bytes hdr_size f (hdr_byte h))) [
  | inl same ↦
      let e : hdr_of f ≡ h =
        hdr_of-congr f (hdr_byte h) (all-same_bytes hdr_size f (hdr_byte h) same)
        ∙ hdr_of-hdr_byte h v in
      rw (same, e) (hdr_eq_refl h)
  | inr differ ↦ elim (Bool-cases (hdr_eq h (hdr_of f))) [
    | inl equal ↦
        let e = eq_of_hdr_eq h (hdr_of f) equal in
        let same =
          same_bytes-of_all hdr_size f (hdr_byte h)
            (λ j hj. sym (hdr_byte-hdr_of f j bytes hj) ∙ ap (λ g. hdr_byte g j) (sym e)) in
        cc
    | inr unequal ↦ rw (differ, unequal) refl
  ]
]

check_repeats-damaged :
    (h : PktgenHdr) (k : ℕ) (f : Mem) (s : Sink)
    → IsHdr h
    → IsBytes (k * hdr_size) f
    → check_repeats h (headers k f) s
      ≡ record s { p = record s.p { bad_repeat = s.p.bad_repeat + damaged_blocks h k f } }
unfolding check_repeats headers damaged_blocks
check_repeats-damaged h zero f s v bytes =
    ap (λ n. record s { p = record s.p { bad_repeat = n } }) (omega arith)
check_repeats-damaged h (suc k) f s v bytes =
    let first = hdr_eq-same_bytes h f v (λ j hj. bytes j (omega arith)) in
    rw (first, check_repeats)
      (check_repeats-damaged h k (λ j. f (hdr_size + j))
          (bump_bad_repeat (not (same_bytes hdr_size f (hdr_byte h))) s) v
          (λ j hj. bytes (hdr_size + j) (omega arith))
        ∙ bumped (same_bytes hdr_size f (hdr_byte h)) (damaged_blocks h k (λ j. f (hdr_size + j))))
  where
    bumped :
        (b : Bool) (n : ℕ)
        → (let t = bump_bad_repeat (not b) s in
            record t { p = record t.p { bad_repeat = t.p.bad_repeat + n } })
          ≡ record s { p = record s.p { bad_repeat = s.p.bad_repeat + ((if b then 0 else 1) + n) } }
    bumped true n = ap (λ x. record s { p = record s.p { bad_repeat = x } }) (omega arith)
    bumped false n = ap (λ x. record s { p = record s.p { bad_repeat = x } }) (omega arith)

check_headers-damaged :
    (h : PktgenHdr) (k : ℕ) (f : Mem) (s : Sink)
    → ltb_ℤ s.p.check (pos 2) ≡ false
    → IsHdr h
    → h.pgh_magic ≡ htonl pktgen_magic
    → Ready h s
    → IsBytes (k * hdr_size) f
    → check_headers (h ∷ headers k f) s
      ≡ record s { p = record s.p { bad_repeat = s.p.bad_repeat + damaged_blocks h k f }; last = h }
unfolding check_headers
check_headers-damaged h k f s high v magic ready bytes =
    rw (high, check_first-Ready h s magic ready)
      (check_repeats-damaged h k f (record s { last = h }) v bytes)

check_packet-returns :
    (hs : List PktgenHdr) (s : Sink) (t : Proc)
    → is_nonzero s.p.check ≡ true
    → ltb_ℤ (pos 2) (check_headers hs s).p.check ≡ false
    → check_packet hs s t ≡ done (check_headers hs s) t
unfolding check_packet
check_packet-returns hs s t on lenient = rw (on, lenient) refl

module _ (m : Mem) (b : Iov) (bs : List Iov) (len : ℕ) (h : PktgenHdr) (s : Sink) (t : Proc)
    (roomy : IsRoomy (b ∷ bs)) (fits : len ≤ capacity (b ∷ bs)) (small : len < 2 ^ 31) where
  -- At level 2, a packet of which the first header arrives as it was sent, and is due: `check_pkt`
  -- returns, and has counted exactly the blocks of the size of a header behind it that differ from
  -- it in some byte, however the payload is scattered over buckets of at least one header
  -- each. Nothing else is counted, and `last` is the header.
  pub check_pkt-damaged :
      s.p.check ≡ pos 2
      → IsHdr h
      → h.pgh_magic ≡ htonl pktgen_magic
      → Ready h s
      → hdr_size ≤ len
      → ((j : ℕ) → j < hdr_size → payload m (b ∷ bs) j ≡ hdr_byte h j)
      → ((j : ℕ) → j < len → payload m (b ∷ bs) j < 256)
      → let damaged =
          damaged_blocks h (len / hdr_size - 1) (λ j. payload m (b ∷ bs) (hdr_size + j)) in
        check_pkt m (b ∷ bs) len s t
        ≡ done (record s { p = record s.p { bad_repeat = s.p.bad_repeat + damaged }; last = h }) t
  unfolding headers
  check_pkt-damaged level v magic ready whole first bytes =
      let n = len / hdr_size - 1 in
      let k : len / hdr_size ≡ suc n = omega arith in
      let f = payload m (b ∷ bs) in
      let e : hdr_of f ≡ h = hdr_of-congr f (hdr_byte h) first ∙ hdr_of-hdr_byte h v in
      let rest = λ (j : ℕ). f (hdr_size + j) in
      let checked =
        check_headers-damaged h n rest s (ap (λ c. ltb_ℤ c (pos 2)) level) v magic ready
          (λ j hj. bytes (hdr_size + j) (omega arith)) in
      let returned =
        check_packet-returns (h ∷ headers n rest) s t (ap is_nonzero level)
          (ap (λ (x : Sink). ltb_ℤ (pos 2) x.p.check) checked ∙ ap (ltb_ℤ (pos 2)) level) in
      ap (λ (x : M Sink). x t) (check_pkt-check_packet m b bs len s roomy fits small)
      ∙ ap (λ c. check_packet (headers c f) s t) k
      ∙ ap (λ g. check_packet (g ∷ headers n rest) s t) e
      ∙ returned
      ∙ ap (λ x. done x t) checked
