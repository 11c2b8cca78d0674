-- ===== src/Flood/Fill.antt =====
-- `fill_buf` of udp_flood.c: a buffer filled with copies of one stamped header.
pub mod Content
use network_testing.Common.{
  ℕ, zero, suc, ◌+◌, ◌-◌, ◌/◌, ◌%◌, ◌^◌, min, Bool, true, false, ltb, if◌then◌else◌, Option, none,
  some, ℤ, pos_part, is_nonzero,
}
use network_testing.Kernel.{Kernel, Mem, Timespec, Call, M, pure, ask, ◌>>=◌}
use network_testing.Pktgen.{PktgenHdr, pktgen_magic, hdr_size, htonl, hdr_byte, memcpy}
use network_testing.Flood.Params.{FloodParams}

-- The header of the `seq`-th packet. Only the magic is put into network order.
unfoldable pub stamp : Timespec → ℕ → PktgenHdr
stamp ts seq = record {
  pgh_magic = htonl pktgen_magic;
  seq_num = seq;
  tv_sec = ts.sec % 2 ^ 32;
  tv_usec = ts.nsec / 1000 % 2 ^ 32;
}

-- `for (l = 0; l < len; l += sizeof(hdr))`, from `buf` on.
pub fill_loop : ℕ → PktgenHdr → ℕ → ℕ → ℕ → Mem → Mem
fill_loop zero h buf l len m = m
fill_loop (suc fuel) h buf l len m = elim (ltb l len) [
  | false ↦ m
  | true ↦
      fill_loop fuel h buf (l + hdr_size) len
        (memcpy m (buf + l) (hdr_byte h) (min (len - l) hdr_size))
]

-- What `clock_gettime` wrote to `ts`, or what stood there if it failed.
abbrev pub stamp_time : Kernel → ℕ → Timespec
stamp_time K t = elim (K.clock t) [ some ts ↦ ts | none ↦ K.stack t ]

-- The buffer at `buf`, and the static variable `sequence`. The loop is given a round for each
-- header that is begun, and one more.
unfoldable pub fill_buf : Kernel → FloodParams → ℕ → ℤ → ℕ → Mem → M (Mem × ℕ)
unfolding fill_loop stamp
fill_buf K p buf len seq m =
    if is_nonzero p.pktgen_hdr
    then (do
      ts ← ask (stamp_time K) Call.clock_gettime
      let n = pos_part len
      pure (fill_loop (n / hdr_size + 2) (stamp ts seq) buf 0 n m, (seq + 1) % 2 ^ 32))
    else pure (m, seq)
