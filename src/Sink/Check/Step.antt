-- ===== src/Sink/Check/Step.antt =====
-- One step of `__check_pkt`: where its cursor stands, what it reads there and where it goes.
use network_testing.Common.{
  ℕ, ◌+◌, ◌-◌, ◌^◌, min, ◌≤◌, ◌<◌, ◌≡◌, refl, ap, fun_ext, ◌∙◌, ◌⊎◌, inl, inr, ◌≢◌, List, [], ◌∷◌,
  false, some, Bool-cases, le→ltb_false, ltb→lt, lt→ltb, ltb_false→le, leb→le, sym, ltb, leb,
  if◌then◌else◌, arith, sub64,
}
use native.Mathlib.Nat.{add_assoc}
use network_testing.Kernel.{Mem}
use network_testing.Pktgen.{hdr_size, hdr_of}
use network_testing.Pktgen.Layout.{hdr_of-congr}
use network_testing.Sink.Check.{gather, next_bucket, Iov, Cursor, Next, stop, go, fetch, advance}
use network_testing.Sink.Check.Flat.{payload, capacity, IsRoomy}

-- Where a cursor may stand: inside the bytes received, which run on past the bucket only if they
-- fill it, and which fit into the buckets that are left.
pub record IsPlaced (c : Cursor) : Type 0 where
  pub offset_le : c.offset ≤ c.cur_len
  pub cur_len_le : c.cur_len ≤ c.iov.len
  pub offset_lt : c.offset < c.iov.len
  pub filled : (c.cur_len ≡ c.iov.len) ⊎ (c.len ≡ 0)
  pub fits : c.len ≤ capacity c.rest
  pub small : c.cur_len + c.len < 2 ^ 31
  pub roomy : hdr_size ≤ c.iov.len
  pub rest_roomy : IsRoomy c.rest

-- the bytes that are left, and where they lie
abbrev pub left : Cursor → ℕ
left c = c.cur_len - c.offset + c.len

abbrev pub ahead : Mem → Cursor → Mem
ahead m c j = payload m (c.iov ∷ c.rest) (c.offset + j)

gather_flat :
    (m : Mem) (b : Iov) (rest : List Iov) (o fc len : ℕ)
    → o + fc ≡ b.len
    → IsRoomy rest
    → len ≤ capacity rest
    → hdr_size ≤ fc + len
    → fc < hdr_size
    → gather m (b.base + o) fc rest ≡ some (hdr_of (λ j. payload m (b ∷ rest) (o + j)))
unfolding gather payload capacity
gather_flat m b [] o fc len e r fits h lt = absurd (omega arith)
gather_flat m b (n ∷ rest) o fc len e r fits h lt = ap some (hdr_of-congr _ _ (λ j hj. bytes j hj))
  where
    bytes :
        (j : ℕ)
        → j < hdr_size
        → (if ltb j fc then m (b.base + o + j) else m (n.base + (j - fc)))
          ≡ payload m (b ∷ n ∷ rest) (o + j)
    bytes j hj = ground (arith, ap m (add_assoc b.base o j), lhs j)
      where
        lhs : (j : ℕ) → fc ≤ j → o + j - b.len ≡ j - fc
        lhs j h' = omega arith

pub fetch_flat :
    (m : Mem) (c : Cursor) → IsPlaced c → hdr_size ≤ left c → fetch m c ≡ some (hdr_of (ahead m c))
unfolding fetch payload
fetch_flat m c v h =
    let e : sub64 c.cur_len c.offset ≡ c.cur_len - c.offset = omega arith in
    rw e (elim (Bool-cases (ltb (c.cur_len - c.offset) hdr_size)) [
      | inl part ↦
          let lt = ltb→lt _ _ part in
          rw part (
            gather_flat m c.iov c.rest c.offset (c.cur_len - c.offset) c.len (omega arith)
              v.rest_roomy v.fits h lt)
      | inr whole ↦
          let le = ltb_false→le _ _ whole in
          rw whole (ap some (hdr_of-congr _ _ (λ j hj. inside j hj le)))
    ])
  where
    inside :
        (j : ℕ)
        → j < hdr_size
        → hdr_size ≤ c.cur_len - c.offset
        → m (c.iov.base + c.offset + j) ≡ ahead m c j
    inside j hj le = rw (lt→ltb (c.offset + j) c.iov.len (omega arith)) (ap m (add_assoc _ _ _))

-- What a step over a header leads to: the bytes behind it, or the end.
pub data Advanced (m : Mem) (c : Cursor) : Next → Type 0 where
  moved :
      (d : Cursor)
      → IsPlaced d
      → left d + hdr_size ≡ left c
      → ahead m d ≡ (λ j. ahead m c (hdr_size + j))
      → d.hdr ≢ 0
      → d.current ≡ c.current
      → d.sink ≡ c.sink
      → Advanced m c (go d)
  ended : left c ≡ hdr_size → Advanced m c (stop c.current c.sink)

pub min-cases : (a b : ℕ) → (min a b ≡ b) ⊎ (a - min a b ≡ 0)
min-cases a b = elim (Bool-cases (ltb a b)) [
  | inl lt ↦ inr (let h = ltb→lt a b lt in omega arith)
  | inr ge ↦ inl (let h = ltb_false→le a b ge in omega arith)
]

-- Past the end of a bucket the payload goes on in the next.
payload_past :
    (m : Mem) (b n : Iov) (rest : List Iov) (o past : ℕ)
    → o + hdr_size ≡ b.len + past
    → (j : ℕ) → payload m (n ∷ rest) (past + j) ≡ payload m (b ∷ n ∷ rest) (o + (hdr_size + j))
unfolding payload
payload_past m b n rest o past e j =
    let over : ltb (o + (hdr_size + j)) b.len ≡ false = le→ltb_false _ _ (omega arith) in
    let same : o + (hdr_size + j) - b.len ≡ past + j = omega arith in rw (over, same)

next_bucket-Advanced :
    (m : Mem) (c : Cursor) (rest : List Iov) (past : ℕ)
    → IsPlaced c
    → hdr_size ≤ left c
    → c.offset + hdr_size ≡ c.iov.len + past
    → c.len ≤ capacity rest
    → IsRoomy rest
    → c.rest ≡ rest
    → Advanced m c (next_bucket c past rest)
unfolding next_bucket capacity
next_bucket-Advanced m c [] past v h e fits roomy r = ended (omega arith)
next_bucket-Advanced m c (n ∷ rest) past v h e fits roomy r =
    moved _
      (record {
        offset_le = omega arith;
        cur_len_le = omega arith;
        offset_lt = omega arith;
        filled = min-cases c.len n.len;
        fits = omega arith;
        small = omega arith;
        roomy = roomy.0;
        rest_roomy = roomy.1;
      })
      (omega arith)
      (fun_ext (λ j.
        payload_past m c.iov n rest c.offset past e j
        ∙ ap (λ l. payload m (c.iov ∷ l) (c.offset + (hdr_size + j))) (sym r)))
      (omega arith) refl refl

pub advance-Advanced :
    (m : Mem) (c : Cursor) → IsPlaced c → hdr_size ≤ left c → Advanced m c (advance c)
unfolding advance
advance-Advanced m c v h = elim (Bool-cases (leb c.iov.len (c.offset + hdr_size))) [
  | inl over ↦
      let le = leb→le _ _ over in
      rw over (next_bucket-Advanced m c c.rest _ v h (omega arith) v.fits v.rest_roomy refl)
  | inr within ↦
      let lt : c.offset + hdr_size < c.iov.len = ground arith in
      rw within (
        moved _
          (record {
            offset_le = omega arith;
            cur_len_le = v.cur_len_le;
            offset_lt = lt;
            filled = v.filled;
            fits = v.fits;
            small = v.small;
            roomy = v.roomy;
            rest_roomy = v.rest_roomy;
          })
          (omega arith) (fun_ext (λ j. ap (payload m (c.iov ∷ c.rest)) (add_assoc _ _ _)))
          (omega arith) refl refl)
]
