-- ===== src/Flood/Fill/Content.antt =====
-- What `fill_buf` leaves in the buffer.
use network_testing.Common.{
  ℕ, zero, suc, ◌+◌, ◌-◌, ◌*◌, ◌/◌, ◌%◌, ◌^◌, ◌≤◌, ◌<◌, min, ◌≡◌, refl, ap, ◌∙◌, true, ◌&&◌,
  Bool-cases, inl, inr, ltb, leb, ltb→lt, ltb_false→le, if◌then◌else◌, List, [], ◌∷◌, arith, ℤ,
  pos_part, is_nonzero,
}
use network_testing.Kernel.{Kernel, Mem, Call, Proc, done, after}
use network_testing.Pktgen.{PktgenHdr, hdr_size, htonl, hdr_byte, hdr_of, memcpy}
use network_testing.Pktgen.Layout.{IsHdr, hdr_of-hdr_byte, hdr_of-congr}
use network_testing.Sink.Check.Flat.{headers}
use network_testing.Flood.Params.{FloodParams}
use network_testing.Flood.Fill.{fill_loop, fill_buf, stamp, stamp_time}

-- what the bytes from `l` to `len` of the buffer hold, and the memory around them
abbrev pub filled : PktgenHdr → ℕ → ℕ → ℕ → Mem → Mem
filled h buf l len m a =
    if leb (buf + l) a && ltb a (buf + len) then hdr_byte h ((a - buf) % hdr_size) else m a

fill_round :
    (h : PktgenHdr) (buf l len : ℕ) (m : Mem) (a : ℕ)
    → l % hdr_size ≡ 0
    → l < len
    → filled h buf (l + hdr_size) len (memcpy m (buf + l) (hdr_byte h) (min (len - l) hdr_size)) a
      ≡ filled h buf l len m a
unfolding memcpy
fill_round h buf l len m a aligned more = ground arith

pub fill_loop-filled :
    (fuel : ℕ) (h : PktgenHdr) (buf l len : ℕ) (m : Mem) (a : ℕ)
    → l % hdr_size ≡ 0
    → len ≤ l + fuel * hdr_size
    → fill_loop fuel h buf l len m a ≡ filled h buf l len m a
unfolding fill_loop
fill_loop-filled zero h buf l len m a aligned enough = ground arith
fill_loop-filled (suc f) h buf l len m a aligned enough = elim (Bool-cases (ltb l len)) [
  | inl more ↦
      rw (more, fill_loop)
        (fill_loop-filled f h buf (l + hdr_size) len
            (memcpy m (buf + l) (hdr_byte h) (min (len - l) hdr_size)) a (omega arith) (omega arith)
          ∙ fill_round h buf l len m a aligned (ltb→lt l len more))
  | inr end ↦ let le = ltb_false→le l len end in rw (end, fill_loop) (ground arith)
]

-- copies of one header, one behind the other
abbrev pub copies : ℕ → PktgenHdr → List PktgenHdr
copies zero h = []
copies (suc k) h = h ∷ copies k h

headers-copies :
    (k : ℕ) (h : PktgenHdr) (f : Mem)
    → IsHdr h
    → ((j : ℕ) → j < k * hdr_size → f j ≡ hdr_byte h (j % hdr_size))
    → headers k f ≡ copies k h
unfolding headers
headers-copies zero h f v e = refl
headers-copies (suc k) h f v e =
    let first : hdr_of f ≡ h =
      hdr_of-congr f (hdr_byte h) (λ j hj. e j (omega arith) ∙ ap (hdr_byte h) (omega arith))
      ∙ hdr_of-hdr_byte h v in
    let rest : headers k (λ j. f (hdr_size + j)) ≡ copies k h =
      headers-copies k h (λ j. f (hdr_size + j)) v
        (λ j hj. e (hdr_size + j) (omega arith) ∙ ap (hdr_byte h) (omega arith)) in
    rw (first, rest)

-- The buffer that `fill_buf` hands on, at the call `t` and with the number `seq`.
pub stamped_buffer : Kernel → ℕ → ℕ → ℕ → Mem → Mem
stamped_buffer K len t seq m = fill_loop (len / hdr_size + 2) (stamp (stamp_time K t) seq) 0 0 len m

module _ (K : Kernel) (p : FloodParams) (len : ℤ) (seq : ℕ) (m : Mem) (s : Proc)
    (on : is_nonzero p.pktgen_hdr ≡ true) where
  pub fill_buf-stamped :
      fill_buf K p 0 len seq m s
      ≡ done
          (stamped_buffer K (pos_part len) s.tick seq m, (seq + 1) % 2 ^ 32)
          (after Call.clock_gettime s)
  unfolding fill_buf stamped_buffer
  fill_buf-stamped = rw on

pub stamp-IsHdr : (K : Kernel) (t seq : ℕ) → seq < 2 ^ 32 → IsHdr (stamp (stamp_time K t) seq)
unfolding stamp htonl
stamp-IsHdr K t seq h = record {
  pgh_magic = omega arith;
  seq_num = h;
  tv_sec = omega arith;
  tv_usec = omega arith;
}

-- Read as headers, the buffer is copies of the stamped one: the whole headers of any payload that
-- agrees with its `len` bytes.
pub headers-stamped_buffer :
    (K : Kernel) (len t seq : ℕ) (m f : Mem)
    → seq < 2 ^ 32
    → ((j : ℕ) → j < len → f j ≡ stamped_buffer K len t seq m j)
    → headers (len / hdr_size) f ≡ copies (len / hdr_size) (stamp (stamp_time K t) seq)
unfolding stamped_buffer
headers-stamped_buffer K len t seq m f small same =
    headers-copies (len / hdr_size) h f (stamp-IsHdr K t seq small) (λ j hj.
      same j (omega arith)
      ∙ fill_loop-filled (len / hdr_size + 2) h 0 0 len m j refl (omega arith)
      ∙ inside j (omega arith))
  where
    h : PktgenHdr
    h = stamp (stamp_time K t) seq

    inside : (j : ℕ) → j < len → filled h 0 0 len m j ≡ hdr_byte h (j % hdr_size)
    inside j hj = ground arith

-- With headers, `fill_buf` writes the copies of one header over the `len` bytes from `buf` on, the last one cut
-- off at the end, and changes no other byte; the next packet gets the next number.
pub fill_buf-filled :
    (K : Kernel) (p : FloodParams) (buf : ℕ) (len : ℤ) (seq : ℕ) (m : Mem) (s : Proc)
    → is_nonzero p.pktgen_hdr ≡ true
    → (m' : Mem) × (fill_buf K p buf len seq m s
        ≡ done (m', (seq + 1) % 2 ^ 32) (after Call.clock_gettime s))
      × ((a : ℕ) → m' a ≡ filled (stamp (stamp_time K s.tick) seq) buf 0 (pos_part len) m a)
unfolding fill_buf
fill_buf-filled K p buf len seq m s on =
    let n = pos_part len in
    let h = stamp (stamp_time K s.tick) seq in
    (
      fill_loop (n / hdr_size + 2) h buf 0 n m,
      rw on,
      λ a. fill_loop-filled (n / hdr_size + 2) h buf 0 n m a refl (omega arith),
    )
