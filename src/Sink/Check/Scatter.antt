-- ===== src/Sink/Check/Scatter.antt =====
-- The loop of `__check_pkt` over scattered buckets does what the flat check does.
use network_testing.Common.{
  ℕ, zero, suc, ◌+◌, ◌*◌, ◌%◌, ◌^◌, ◌≤◌, ◌<◌, ◌≡◌, refl, ap, fun_ext, ◌∙◌, inl, inr, ◌≢◌, List, [],
  ◌∷◌, not, Option, some, Bool-cases, le→ltb_false, lt→ltb, ==_of_ne, if◌then◌else◌, ℤ, pos, ltb_ℤ,
  arith, sub64,
}
use network_testing.Kernel.{Mem}
use network_testing.Pktgen.{PktgenHdr, hdr_size, zero_hdr, hdr_of, hdr_eq}
use network_testing.Sink.Params.{Sink}
use network_testing.Sink.Check.{
  start, Iov, Cursor, Next, stop, go, advance, check_step, check_loop, bump_bad_repeat, check_first,
}
use network_testing.Sink.Check.Flat.{
  payload, headers, check_headers, check_repeats, capacity, IsRoomy,
}
use network_testing.Sink.Check.Step.{
  IsPlaced, left, ahead, fetch_flat, min-cases, Advanced, moved, ended, advance-Advanced,
}

check_step_short :
    (m : Mem) (c : Cursor) → IsPlaced c → left c < hdr_size → check_step m c ≡ stop c.current c.sink
unfolding check_step
check_step_short m c v h =
    rw (lt→ltb ((sub64 c.cur_len c.offset + c.len) % 2 ^ 64) hdr_size (omega arith))

check_step_repeat :
    (m : Mem) (c : Cursor)
    → IsPlaced c
    → hdr_size ≤ left c
    → c.hdr ≢ 0
    → check_step m c
      ≡ advance
          (record c { sink = bump_bad_repeat (not (hdr_eq c.current (hdr_of (ahead m c)))) c.sink })
unfolding check_step
check_step_repeat m c v h later = rw (
  le→ltb_false ((sub64 c.cur_len c.offset + c.len) % 2 ^ 64) hdr_size (omega arith),
  fetch_flat m c v h,
  ==_of_ne c.hdr 0 later,
)

abbrev after_step : ℕ → Mem → Next → Option (PktgenHdr × Sink)
after_step fuel m x = elim x [ stop h s ↦ some (h, s) | go d ↦ check_loop fuel m d ]

-- `fuel` rounds are enough for `k` headers, the first of the packet being behind the cursor.
abbrev Repeats : ℕ → ℕ → Mem → Type 0
Repeats k fuel m =
    (c : Cursor)
    → IsPlaced c
    → c.hdr ≢ 0
    → k * hdr_size ≤ left c
    → left c < k * hdr_size + hdr_size
    → check_loop fuel m c ≡ some (c.current, check_repeats c.current (headers k (ahead m c)) c.sink)

-- From a header with `k` more behind it.
after_advance :
    (k fuel : ℕ) (m : Mem) (c : Cursor) {x : Next}
    → Repeats k fuel m
    → suc k * hdr_size ≤ left c
    → left c < suc k * hdr_size + hdr_size
    → Advanced m c x
    → after_step fuel m x
      ≡ some (c.current, check_repeats c.current (headers k (λ j. ahead m c (hdr_size + j))) c.sink)
unfolding check_repeats headers
after_advance k fuel m c rec lo hi (moved d w shorter same later cur snk) =
    rw (rec d w later (omega arith) (omega arith), cur, snk, same)
after_advance zero fuel m c rec lo hi (ended e) = refl
after_advance (suc k) fuel m c rec lo hi (ended e) = absurd (omega arith)

IsPlaced-with :
    (c : Cursor) (h : PktgenHdr) (s : Sink)
    → IsPlaced c
    → IsPlaced (record c { current = h; sink = s })
IsPlaced-with c h s v = record {
  offset_le = v.offset_le;
  cur_len_le = v.cur_len_le;
  offset_lt = v.offset_lt;
  filled = v.filled;
  fits = v.fits;
  small = v.small;
  roomy = v.roomy;
  rest_roomy = v.rest_roomy;
}

loop-Repeats : (k fuel : ℕ) (m : Mem) → k < fuel → Repeats k fuel m
unfolding check_loop check_repeats headers
loop-Repeats k zero m fuel c v later lo hi = absurd (omega arith)
loop-Repeats zero (suc f) m fuel c v later lo hi =
    rw (check_step_short m c v (omega arith), check_loop)
loop-Repeats (suc k) (suc f) m fuel c v later lo hi =
    let s = bump_bad_repeat (not (hdr_eq c.current (hdr_of (ahead m c)))) c.sink in
    let v' = IsPlaced-with c c.current s v in
    rw (check_step_repeat m c v (omega arith) later, check_loop)
      (after_advance k f m _ (loop-Repeats k f m (omega arith)) lo hi
        (advance-Advanced m _ v' (omega arith)))

check_step_first :
    (m : Mem) (c : Cursor)
    → IsPlaced c
    → hdr_size ≤ left c
    → c.hdr ≡ 0
    → check_step m c ≡ (
        if ltb_ℤ c.sink.p.check (pos 2)
        then stop c.current (check_first (hdr_of (ahead m c)) c.sink)
        else advance (record c {
          current = hdr_of (ahead m c);
          sink = check_first (hdr_of (ahead m c)) c.sink;
        }))
unfolding check_step
check_step_first m c v h first = rw (
  le→ltb_false ((sub64 c.cur_len c.offset + c.len) % 2 ^ 64) hdr_size (omega arith),
  fetch_flat m c v h,
  first,
)

pub start-IsPlaced :
    (b : Iov) (bs : List Iov) (len : ℕ) (s : Sink)
    → IsRoomy (b ∷ bs)
    → len ≤ capacity (b ∷ bs)
    → len < 2 ^ 31
    → IsPlaced (start b bs len s)
unfolding capacity
start-IsPlaced b bs len s roomy fits small = record {
  offset_le = omega arith;
  cur_len_le = omega arith;
  offset_lt = omega (arith, roomy.0);
  filled = min-cases len b.len;
  fits = omega arith;
  small = omega arith;
  roomy = roomy.0;
  rest_roomy = roomy.1;
}

-- what `current` holds after the loop
unfoldable pub current_of : ℤ → List PktgenHdr → PktgenHdr
current_of check [] = zero_hdr
current_of check (h ∷ hs) = if ltb_ℤ check (pos 2) then zero_hdr else h

-- The headers of a packet of `k` headers, from its start.
pub loop_start :
    (k : ℕ) (m : Mem) (b : Iov) (bs : List Iov) (len : ℕ) (s : Sink)
    → IsPlaced (start b bs len s)
    → k * hdr_size ≤ len
    → len < k * hdr_size + hdr_size
    → let hs = headers k (payload m (b ∷ bs)) in
      check_loop (suc k) m (start b bs len s) ≡ some (current_of s.p.check hs, check_headers hs s)
unfolding check_loop headers check_headers current_of
loop_start zero m b bs len s v lo hi =
    rw (check_step_short m (start b bs len s) v (omega arith), check_loop)
loop_start (suc k) m b bs len s v lo hi =
    rw (check_step_first m (start b bs len s) v (omega arith) refl, check_loop, at_start)
      (elim (Bool-cases (ltb_ℤ s.p.check (pos 2))) [
        | inl low ↦ rw low
        | inr high ↦ rw high (
            after_advance k (suc k) m _ (loop-Repeats k (suc k) m (omega arith)) (omega arith)
              (omega arith) (advance-Advanced m _ (IsPlaced-with _ _ _ v) (omega arith))
            ∙ ap
                (λ f. some (
                  hdr_of (payload m (b ∷ bs)),
                  check_repeats (hdr_of (payload m (b ∷ bs))) (headers k (λ j. f (hdr_size + j)))
                      (check_first (hdr_of (payload m (b ∷ bs))) s),
                ))
                at_start)
      ])
  where
    at_start : ahead m (start b bs len s) ≡ payload m (b ∷ bs)
    at_start = fun_ext (λ j. ap (payload m (b ∷ bs)) (omega arith))
