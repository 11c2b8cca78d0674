-- ===== src/Sink/Check.antt =====
-- `__check_pkt` of udp_sink.c: the headers of a packet that lies scattered over an io-vector.
pub mod Flat
pub mod Step
pub mod Scatter
pub mod Refine
pub mod Setup
pub mod Lenient
use network_testing.Common.{
  ℕ, zero, suc, ◌+◌, ◌-◌, ◌/◌, ◌%◌, ◌^◌, min, List, [], ◌∷◌, Bool, true, false, ◌&&◌, ◌||◌, not,
  Option, none, some, ltb, leb, ◌==◌, ◌!=◌, if◌then◌else◌, ℤ, pos, ltb_ℤ, is_nonzero, sub64,
}
use network_testing.Kernel.{Mem, M, pure, exit, crash, out_of_fuel, exit_fail_recv}
use network_testing.Pktgen.{PktgenHdr, pktgen_magic, hdr_size, zero_hdr, htonl, hdr_of, hdr_eq}
use network_testing.Sink.Params.{Sink, SinkParams}

-- `struct iovec`
pub record Iov : Type 0 where
  pub base : ℕ
  pub len : ℕ

-- Time and sequence number of a header lie before those of the last one. The headers are compared
-- in the byte order of the machine.
unfoldable pub is_behind : PktgenHdr → PktgenHdr → Bool
is_behind h last =
    ltb h.tv_sec last.tv_sec
    || (h.tv_sec == last.tv_sec && ltb h.tv_usec last.tv_usec)
    || (h.tv_sec == last.tv_sec
        && (h.tv_usec == last.tv_usec
            && (ltb h.seq_num last.seq_num && ltb last.seq_num 3_000_000_000)))

abbrev pub bump_ooo : Bool → Sink → Sink
bump_ooo b s = if b then record s { p = record s.p { ooo = s.p.ooo + 1 } } else s

abbrev pub bump_bad_magic : Bool → Sink → Sink
bump_bad_magic b s = if b then record s { p = record s.p { bad_magic = s.p.bad_magic + 1 } } else s

abbrev pub bump_bad_repeat : Bool → Sink → Sink
bump_bad_repeat b s =
    if b then record s { p = record s.p { bad_repeat = s.p.bad_repeat + 1 } } else s

-- The branch `hdr == 0`: the magic, the order, at level 3 the exact sequence; then `last = *pgh`.
unfoldable pub check_magic : PktgenHdr → Sink → Sink
check_magic h s = bump_bad_magic (htonl h.pgh_magic != pktgen_magic) s

unfoldable pub check_order : PktgenHdr → Sink → Sink
check_order h s = bump_ooo (s.last.pgh_magic != 0 && is_behind h s.last) s

unfoldable pub check_sequence : PktgenHdr → Sink → Sink
check_sequence h s =
    bump_ooo
      (ltb_ℤ (pos 2) s.p.check
        && (s.last.pgh_magic != 0 && h.seq_num != (s.last.seq_num + 1) % 2 ^ 32))
      s

unfoldable pub check_first : PktgenHdr → Sink → Sink
check_first h s = record (check_sequence h (check_order h (check_magic h s))) { last = h }

-- The variables of the loop. `iov` is `iov[i]`, and `rest` the buckets behind it.
pub record Cursor : Type 0 where
  pub iov : Iov
  pub rest : List Iov
  pub offset : ℕ
  pub cur_len : ℕ
  pub len : ℕ
  pub hdr : ℕ
  pub current : PktgenHdr
  pub sink : Sink

-- A round of the loop breaks, with `current`, or goes on.
pub data Next : Type 0 where
  stop : PktgenHdr → Sink → Next
  go : Cursor → Next

-- A header that begins in a bucket with `first_chunk` bytes at `at`, and goes on in the next;
-- `none` is the `break` at the last bucket.
pub gather : Mem → ℕ → ℕ → List Iov → Option PktgenHdr
gather m at first_chunk [] = none
gather m at first_chunk (n ∷ _) =
    some (hdr_of λ j. if ltb j first_chunk then m (at + j) else m (n.base + (j - first_chunk)))

-- The header at the cursor. `first_chunk` is an `int` that is compared as a `size_t`.
pub fetch : Mem → Cursor → Option PktgenHdr
unfolding gather
fetch m c =
    let first_chunk = sub64 c.cur_len c.offset in
    let at = c.iov.base + c.offset in
    if ltb first_chunk hdr_size
    then gather m at first_chunk c.rest
    else some (hdr_of λ j. m (at + j))

-- The step to the next bucket, `past` bytes into it, if there is one.
pub next_bucket : Cursor → ℕ → List Iov → Next
next_bucket c past [] = stop c.current c.sink
next_bucket c past (n ∷ rest) = go (record c {
  iov = n;
  rest = rest;
  offset = past;
  cur_len = min c.len n.len;
  len = c.len - min c.len n.len;
  hdr = c.hdr + 1;
})

-- "move to next chunk"
pub advance : Cursor → Next
unfolding next_bucket
advance c =
    let offset = c.offset + hdr_size in
    if leb c.iov.len offset
    then next_bucket c (offset - c.iov.len) c.rest
    else go (record c { offset = offset; hdr = c.hdr + 1 })

unfoldable pub check_step : Mem → Cursor → Next
check_step m c =
    if ltb ((sub64 c.cur_len c.offset + c.len) % 2 ^ 64) hdr_size
    then stop c.current c.sink
    else elim (fetch m c) [
      | none ↦ stop c.current c.sink
      | some h ↦
          if c.hdr == 0
          then if ltb_ℤ c.sink.p.check (pos 2)
            then stop c.current (check_first h c.sink)
            else advance (record c { current = h; sink = check_first h c.sink })
          else advance (record c { sink = bump_bad_repeat (not (hdr_eq c.current h)) c.sink })
    ]

-- `for (;;)`, with `none` if the rounds run out.
unfoldable pub check_loop : ℕ → Mem → Cursor → Option (PktgenHdr × Sink)
check_loop zero m c = none
check_loop (suc fuel) m c = elim (check_step m c) [
  | stop h s ↦ some (h, s)
  | go c' ↦ check_loop fuel m c'
]

abbrev pub start : Iov → List Iov → ℕ → Sink → Cursor
start b rest len s = record {
  iov = b;
  rest = rest;
  offset = 0;
  cur_len = min len b.len;
  len = len - min len b.len;
  hdr = 0;
  current = zero_hdr;
  sink = s;
}

-- What follows the loop.
unfoldable pub check_end : PktgenHdr → Sink → M Sink
check_end current s =
    if ltb_ℤ (pos 2) s.p.check && (s.p.ooo != 0 || s.p.bad_repeat != 0 || s.p.bad_magic != 0)
    then exit exit_fail_recv
    else pure (if current.pgh_magic != 0 then record s { last = current } else s)

-- `__check_pkt` and `check_pkt`. The loop is given a round for each whole header and one more.
unfoldable pub check_pkt : Mem → List Iov → ℕ → Sink → M Sink
check_pkt m iov len s =
    if is_nonzero s.p.check
    then elim iov [
      | [] ↦ crash
      | b ∷ rest ↦ elim (check_loop (suc (len / hdr_size)) m (start b rest len s)) [
        | none ↦ out_of_fuel
        | some (current, s') ↦ check_end current s'
      ]
    ]
    else pure s
