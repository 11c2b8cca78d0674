-- ===== src/Pacer/Packet.antt =====
-- udp_pacer.c: what `fill_buf_pktgen` leaves in the packet.
use network_testing.Common.{
  ℕ, ◌/◌, ◌%◌, ◌^◌, ◌≤◌, ◌<◌, ◌≡◌, ◌∙◌, refl, arith, pos, to_u64, ltb, false, Bool-cases, inl, inr,
}
use network_testing.Kernel.{Mem, Timespec, Proc, Run, done, crashed}
use network_testing.Pktgen.{pktgen_magic, hdr_size, htonl, hdr_byte, hdr_of, memcpy}
use network_testing.Pktgen.Layout.{IsHdr, htonl_invol, hdr_of-hdr_byte, hdr_of-congr}
use network_testing.Pacer.Timing.{pktgen_stamp, fill_buf_pktgen}

htonl-word : (w : ℕ) → htonl w < 2 ^ 32
unfolding htonl
htonl-word w = omega arith

stamp-IsHdr : (ts : Timespec) (seq : ℕ) → IsHdr (pktgen_stamp ts seq)
unfolding pktgen_stamp
stamp-IsHdr ts seq = record {
  pgh_magic = htonl-word pktgen_magic;
  seq_num = htonl-word seq;
  tv_sec = htonl-word (ts.sec % 2 ^ 32);
  tv_usec = htonl-word (ts.nsec / 1000 % 2 ^ 32);
}

stamp-fields :
    (ts : Timespec) (seq : ℕ)
    → seq < 2 ^ 32
    → let h = pktgen_stamp ts seq in
      (htonl h.pgh_magic ≡ pktgen_magic)
      × (htonl h.seq_num ≡ seq)
      × (htonl h.tv_sec ≡ ts.sec % 2 ^ 32)
      × (htonl h.tv_usec ≡ ts.nsec / 1000 % 2 ^ 32)
unfolding pktgen_stamp
stamp-fields ts seq word = (
  htonl_invol pktgen_magic (omega arith),
  htonl_invol seq word,
  htonl_invol (ts.sec % 2 ^ 32) (omega arith),
  htonl_invol (ts.nsec / 1000 % 2 ^ 32) (omega arith),
)

-- A message of at least 16 bytes starts with the header.
pub fill_buf_pktgen-stamp :
    (len : ℕ) (ts : Timespec) (seq : ℕ) (m : Mem) (s : Proc)
    → hdr_size ≤ len
    → len < 2 ^ 31
    → (m' : Mem) × (fill_buf_pktgen (pos len) ts seq m s ≡ done m' s)
      × (hdr_of m' ≡ pktgen_stamp ts seq)
      × ((a : ℕ) → hdr_size ≤ a → m' a ≡ m a)
unfolding fill_buf_pktgen memcpy
fill_buf_pktgen-stamp len ts seq m s long small =
    let size : to_u64 (pos len) ≡ len = ground arith in
    let above : ltb len 8 ≡ false = ground arith in
    let enough : ltb len 16 ≡ false = ground arith in
    let m' = memcpy m 0 (hdr_byte (pktgen_stamp ts seq)) 16 in
    (
      m',
      rw (size, above, enough) refl,
      hdr_of-congr m' (hdr_byte (pktgen_stamp ts seq)) (λ j h. ground arith)
          ∙ hdr_of-hdr_byte (pktgen_stamp ts seq) (stamp-IsHdr ts seq),
      λ a h. ground arith,
    )

-- What `fill_buf_pktgen` makes of a message of `len` bytes: nothing below 8, a header that does not
-- fit from 8 to 15, and a message with the header in network order from 16 on.
pub data Filled (len : ℕ) (ts : Timespec) (seq : ℕ) (m : Mem) (s : Proc) : Run Mem → Type 0 where
  too_short : len < 8 → Filled len ts seq m s (done m s)
  beyond : 8 ≤ len → len < hdr_size → Filled len ts seq m s (crashed s)
  filled :
      (m' : Mem)
      → hdr_size ≤ len
      → htonl (hdr_of m').pgh_magic ≡ pktgen_magic
      → htonl (hdr_of m').seq_num ≡ seq
      → htonl (hdr_of m').tv_sec ≡ ts.sec % 2 ^ 32
      → htonl (hdr_of m').tv_usec ≡ ts.nsec / 1000 % 2 ^ 32
      → ((a : ℕ) → hdr_size ≤ a → m' a ≡ m a)
      → Filled len ts seq m s (done m' s)

-- Into a message of at least 16 bytes `fill_buf_pktgen` writes a header that, read back in network
-- order, has the magic, the number and the time that it was made with, and changes nothing behind
-- it. One below 8 bytes it leaves as it is, and in one of 8 to 15 it writes beyond the buffer.
pub fill_buf_pktgen-Filled :
    (len : ℕ) (ts : Timespec) (seq : ℕ) (m : Mem) (s : Proc)
    → len < 2 ^ 31
    → seq < 2 ^ 32
    → Filled len ts seq m s (fill_buf_pktgen (pos len) ts seq m s)
unfolding fill_buf_pktgen
fill_buf_pktgen-Filled len ts seq m s small word =
    let size : to_u64 (pos len) ≡ len = ground arith in
    elim (Bool-cases (ltb len 8)) [
      | inl short ↦ rw (fill_buf_pktgen, size, short) (too_short (ground arith))
      | inr above ↦ elim (Bool-cases (ltb len 16)) [
        | inl less ↦ rw (fill_buf_pktgen, size, above, less) (beyond (ground arith) (ground arith))
        | inr enough ↦
            let long : hdr_size ≤ len = ground arith in
            let (m', run, read, behind) = fill_buf_pktgen-stamp len ts seq m s long small in
            let (magic, number, sec, usec) = stamp-fields ts seq word in
            rw run
              (filled m' long (rw read magic) (rw read number) (rw read sec) (rw read usec) behind)
      ]
    ]
