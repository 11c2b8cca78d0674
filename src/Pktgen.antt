-- ===== src/Pktgen.antt =====
-- The header that the senders write and udp_sink checks: `struct pktgen_hdr` of common.h.
pub mod Layout
use network_testing.Common.{
  ℕ, ◌+◌, ◌-◌, ◌*◌, ◌/◌, ◌%◌, ◌^◌, Bool, true, false, ◌&&◌, ◌==◌, ltb, if◌then◌else◌,
}
use network_testing.Kernel.{Mem}

abbrev pub pktgen_magic : ℕ
pktgen_magic = 0xbe9be955

abbrev pub hdr_size : ℕ
hdr_size = 16

-- The four `uint32_t` as the machine holds them.
pub record PktgenHdr : Type 0 where
  pub pgh_magic : ℕ
  pub seq_num : ℕ
  pub tv_sec : ℕ
  pub tv_usec : ℕ

-- the value of an uninitialised or static header: `{ .pgh_magic = 0 }`
abbrev pub zero_hdr : PktgenHdr
zero_hdr = record { pgh_magic = 0; seq_num = 0; tv_sec = 0; tv_usec = 0 }

-- a little-endian word of four bytes, and byte `j` of a word
abbrev pub word : ℕ → ℕ → ℕ → ℕ → ℕ
word a b c d = a + 256 * b + 65536 * c + 16777216 * d

abbrev pub byte : ℕ → ℕ → ℕ
byte w j =
    if j == 0
    then w % 256
    else if j == 1
    then w / 256 % 256
    else if j == 2
    then w / 65536 % 256
    else w / 16777216 % 256

-- `htonl` and `ntohl` on a little-endian machine reverse the bytes
unfoldable pub htonl : ℕ → ℕ
htonl w = word (w / 16777216 % 256) (w / 65536 % 256) (w / 256 % 256) (w % 256)

-- Byte `j` of the struct in memory.
unfoldable pub hdr_byte : PktgenHdr → ℕ → ℕ
hdr_byte h j =
    if ltb j 4
    then byte h.pgh_magic j
    else if ltb j 8
    then byte h.seq_num (j - 4)
    else if ltb j 12
    then byte h.tv_sec (j - 8)
    else byte h.tv_usec (j - 12)

-- The struct that 16 bytes make up.
unfoldable pub hdr_of : Mem → PktgenHdr
hdr_of m = record {
  pgh_magic = word (m 0) (m 1) (m 2) (m 3);
  seq_num = word (m 4) (m 5) (m 6) (m 7);
  tv_sec = word (m 8) (m 9) (m 10) (m 11);
  tv_usec = word (m 12) (m 13) (m 14) (m 15);
}

-- `memcmp(a, b, sizeof(*a)) == 0`: the words are equal exactly if their bytes are.
unfoldable pub hdr_eq : PktgenHdr → PktgenHdr → Bool
hdr_eq a b =
    a.pgh_magic == b.pgh_magic
    && (a.seq_num == b.seq_num && (a.tv_sec == b.tv_sec && a.tv_usec == b.tv_usec))

-- `memcpy(dst, src, n)`
unfoldable pub memcpy : Mem → ℕ → Mem → ℕ → Mem
memcpy m dst src n a = if ltb a dst then m a else if ltb (a - dst) n then src (a - dst) else m a
