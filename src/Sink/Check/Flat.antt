-- ===== src/Sink/Check/Flat.antt =====
-- The specification: the same check over the payload as one row of bytes.
use network_testing.Common.{
  ℕ, zero, suc, ◌+◌, ◌-◌, ◌≤◌, List, [], ◌∷◌, not, ltb, if◌then◌else◌, pos, ltb_ℤ, is_nonzero, ◌&&◌,
  ◌||◌, ◌!=◌, Bool,
}
use network_testing.Kernel.{Mem, M, pure, exit, exit_fail_recv}
use network_testing.Pktgen.{PktgenHdr, hdr_size, hdr_of, hdr_eq}
use network_testing.Sink.Params.{Sink}
use network_testing.Sink.Check.{Iov, check_first, bump_bad_repeat}

-- Byte `j` of what the buckets hold, one behind the other.
unfoldable pub payload : Mem → List Iov → ℕ → ℕ
payload m [] j = 0
payload m (b ∷ bs) j = if ltb j b.len then m (b.base + j) else payload m bs (j - b.len)

-- The first `k` headers of a row of bytes.
unfoldable pub headers : ℕ → Mem → List PktgenHdr
headers zero f = []
headers (suc k) f = hdr_of f ∷ headers k (λ j. f (hdr_size + j))

-- Each header that is not the first is compared with it.
unfoldable pub check_repeats : PktgenHdr → List PktgenHdr → Sink → Sink
check_repeats h [] s = s
check_repeats h (g ∷ gs) s = check_repeats h gs (bump_bad_repeat (not (hdr_eq h g)) s)

-- The packet's headers are checked as a list: the first against `last`, and from level 2 on the
-- others against the first.
unfoldable pub check_headers : List PktgenHdr → Sink → Sink
check_headers [] s = s
check_headers (h ∷ hs) s =
    if ltb_ℤ s.p.check (pos 2) then check_first h s else check_repeats h hs (check_first h s)

-- The room of the buckets together.
unfoldable pub capacity : List Iov → ℕ
capacity [] = 0
capacity (b ∷ bs) = b.len + capacity bs

-- Every bucket holds a whole header.
abbrev pub IsRoomy : List Iov → Type 0
IsRoomy [] = Unit {0}
IsRoomy (b ∷ bs) = (hdr_size ≤ b.len) × IsRoomy bs

-- Level 3 ends the program at the first mistake.
abbrev pub is_fatal : Sink → Bool
is_fatal s = ltb_ℤ (pos 2) s.p.check && (s.p.ooo != 0 || s.p.bad_repeat != 0 || s.p.bad_magic != 0)

-- The check of a packet, given as the list of its headers.
unfoldable pub check_packet : List PktgenHdr → Sink → M Sink
check_packet hs s =
    if is_nonzero s.p.check
    then if is_fatal (check_headers hs s) then exit exit_fail_recv else pure (check_headers hs s)
    else pure s
