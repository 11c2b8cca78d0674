-- ===== src/Pacer/Timing.antt =====
-- udp_pacer.c: the arithmetic of the timer, `tsnorm` and `calcdiff`, and the packet.
pub mod Drift
use network_testing.Common.{
  ℕ, zero, suc, ◌+◌, ◌-◌, ◌*◌, ◌/◌, ◌%◌, ◌^◌, Bool, true, false, leb, ltb, if◌then◌else◌, Option,
  none, some, ℤ, pos, negsuc, ◌+ℤ◌, ◌-ℤ◌, ◌*ℤ◌, quot_ℤ, to_int, to_i64, to_u64, signed64, pos_part,
  ltb_ℤ,
}
use network_testing.Kernel.{Mem, Timespec, M, pure, crash}
use network_testing.Pktgen.{PktgenHdr, pktgen_magic, htonl, hdr_byte, memcpy}

abbrev pub usec_per_sec : ℕ
usec_per_sec = 1_000_000

abbrev pub nsec_per_sec : ℕ
nsec_per_sec = 1_000_000_000

-- The loop of `tsnorm`, with `none` if the rounds run out.
pub tsnorm_loop : ℕ → Timespec → Option Timespec
tsnorm_loop zero ts = none
tsnorm_loop (suc fuel) ts = elim (leb nsec_per_sec ts.nsec) [
  | false ↦ some ts
  | true ↦ tsnorm_loop fuel (record { sec = ts.sec + 1; nsec = ts.nsec - nsec_per_sec })
]

-- `tsnorm`. Each round takes a second off, so a round for each second and one more are enough.
unfoldable pub tsnorm : Timespec → Option Timespec
unfolding tsnorm_loop
tsnorm ts = tsnorm_loop (ts.nsec / nsec_per_sec + 1) ts

-- A `long` that holds a number from the kernel, cut down to an `int`.
abbrev pub int_of : ℕ → ℤ
int_of n = to_int (pos n)

-- `calcdiff`, in microseconds. The differences of the `int` are of seconds and nanoseconds in
-- range.
unfoldable pub calcdiff : Timespec → Timespec → ℤ
calcdiff t1 t2 = to_i64 (
    pos usec_per_sec *ℤ (int_of t1.sec -ℤ int_of t2.sec)
    +ℤ quot_ℤ (int_of t1.nsec -ℤ int_of t2.nsec) 1000)

-- `interval` of the timer thread: microseconds as a `struct timespec`.
unfoldable pub interval_of : ℕ → Timespec
interval_of usec = record { sec = usec / usec_per_sec; nsec = usec % usec_per_sec * 1000 }

-- `next` moved on by the interval.
unfoldable pub add_interval : Timespec → Timespec → Option Timespec
unfolding tsnorm
add_interval next interval =
    tsnorm (record { sec = next.sec + interval.sec; nsec = next.nsec + interval.nsec })

-- The header of the packet: every field in network order.
unfoldable pub pktgen_stamp : Timespec → ℕ → PktgenHdr
pktgen_stamp ts sequence = record {
  pgh_magic = htonl pktgen_magic;
  seq_num = htonl sequence;
  tv_sec = htonl (ts.sec % 2 ^ 32);
  tv_usec = htonl (ts.nsec / 1000 % 2 ^ 32);
}

-- `fill_buf_pktgen`: `sizeof(hdr)` is the size of a pointer, 8, compared as a `size_t`. The header of
-- 16 bytes, written into a message of 8 to 15, goes beyond its buffer, which is modelled as a crash.
unfoldable pub fill_buf_pktgen : ℤ → Timespec → ℕ → Mem → M Mem
fill_buf_pktgen len ts sequence m =
    if ltb (to_u64 len) 8
    then pure m
    else if ltb (to_u64 len) 16
    then crash
    else pure (memcpy m 0 (hdr_byte (pktgen_stamp ts sequence)) 16)
