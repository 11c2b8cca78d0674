-- ===== src/Pktgen/Layout.antt =====
-- The header's layout in memory: what is stored is read back.
use network_testing.Common.{ℕ, ◌^◌, ◌<◌, ◌≡◌, true, arith}
use network_testing.Kernel.{Mem}
use network_testing.Pktgen.{PktgenHdr, htonl, hdr_byte, hdr_of, hdr_eq, hdr_size}

-- The fields are 32-bit words.
pub record IsHdr (h : PktgenHdr) : Type 0 where
  pub pgh_magic : h.pgh_magic < 2 ^ 32
  pub seq_num : h.seq_num < 2 ^ 32
  pub tv_sec : h.tv_sec < 2 ^ 32
  pub tv_usec : h.tv_usec < 2 ^ 32

pub htonl_invol : (w : ℕ) → w < 2 ^ 32 → htonl (htonl w) ≡ w
unfolding htonl
htonl_invol w h = omega arith

pub hdr_of-hdr_byte : (h : PktgenHdr) → IsHdr h → hdr_of (hdr_byte h) ≡ h
unfolding hdr_of hdr_byte
hdr_of-hdr_byte h v = ground arith

pub hdr_eq_refl : (h : PktgenHdr) → hdr_eq h h ≡ true
unfolding hdr_eq
hdr_eq_refl h = ground arith

pub eq_of_hdr_eq : (a b : PktgenHdr) → hdr_eq a b ≡ true → a ≡ b
unfolding hdr_eq
eq_of_hdr_eq a b h = ground arith

-- Only the first 16 bytes count.
pub hdr_of-congr : (f g : Mem) → ((j : ℕ) → j < hdr_size → f j ≡ g j) → hdr_of f ≡ hdr_of g
unfolding hdr_of
hdr_of-congr f g e =
    ground
      (arith, e 0, e 1, e 2, e 3, e 4, e 5, e 6, e 7, e 8, e 9, e 10, e 11, e 12, e 13, e 14, e 15)
