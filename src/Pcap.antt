-- ===== src/Pcap.antt =====
-- pcap_timeread.c, pcap_read.c, pcap_dump.c and pcap_write_sample.c: packets counted, listed or
-- stored by libpcap.
pub mod Totals
pub mod Sample
mod Tests
use network_testing.Common.{
  ℕ, ◌+◌, ◌%◌, ◌^◌, ◌==◌, Bool, true, false, if◌then◌else◌, Option, none, some, List, [], ◌∷◌, ℤ,
  pos, negsuc, ◌++◌, is_nonzero, div_ℤ, to_u32,
}
use network_testing.Kernel.{Call, M, pure, exit, ask, ◌>>=◌, ◌>>◌, exit_failure}

-- `struct pcap_pkthdr`: the time stamp and the length of the packet.
pub record Pkt : Type 0 where
  pub tv_sec : ℕ
  pub tv_usec : ℕ
  pub len : ℕ

-- libpcap, by the number of calls made before: whether a call that opens something returned it;
-- the packets that `pcap_loop` handed to its callback, and its result; the result of `pcap_stats`.
pub record Pcap : Type 0 where
  pub opened : ℕ → Bool
  pub looped : ℕ → List Pkt × ℤ
  pub stats : ℕ → ℤ

-- The static variables of `pkt_handler` of pcap_timeread.c; `cnt` and `size` as bit patterns.
pub record Stat : Type 0 where
  pub cnt : ℕ
  pub size : ℕ
  pub thresh : ℕ

abbrev pub no_packets : Stat
no_packets = record { cnt = 0; size = 0; thresh = 0 }

-- What it prints at the start of an interval.
pub record Interval : Type 0 where
  pub cnt : ℕ
  pub size : ℕ

-- RESOLUTION_DEFAULT, and the second argument where it is not 0
abbrev pub resolution_of : Option ℤ → ℤ
resolution_of none = pos 300
resolution_of (some r) = if is_nonzero r then r else pos 300

-- `thresh == q`, where `thresh` is an `unsigned int` and q a `long`
abbrev pub same_interval : ℕ → ℤ → Bool
same_interval thresh (pos q) = thresh == q
same_interval thresh (negsuc q) = false

-- The packet is counted, and starts a new count if it lies in another interval.
unfoldable pub count_pkt : Bool → ℕ → ℕ → ℕ → Stat × List Interval
count_pkt true cnt size thresh = (record { cnt = cnt; size = size; thresh = thresh }, [])
count_pkt false cnt size thresh =
    (record { cnt = 0; size = 0; thresh = thresh }, record { cnt = cnt; size = size } ∷ [])

-- `pkt_handler` of pcap_timeread.c, and the line that it prints, if any.
unfoldable pub pkt_handler : ℤ → Pkt → Stat → Stat × List Interval
unfolding count_pkt
pkt_handler resolution hdr s =
    let interval = div_ℤ (pos hdr.tv_usec) resolution in
    count_pkt (same_interval s.thresh interval) ((s.cnt + 1) % 2 ^ 32) ((s.size + hdr.len) % 2 ^ 32)
      (to_u32 interval)

-- The callbacks of `pcap_loop`, in the order of the packets.
unfoldable pub handle_all : ℤ → List Pkt → Stat → Stat × List Interval
unfolding pkt_handler
handle_all resolution [] s = (s, [])
handle_all resolution (hdr ∷ hdrs) s =
    let first = pkt_handler resolution hdr s in
    let rest = handle_all resolution hdrs first.0 in (rest.0, first.1 ++ rest.1)

module _ (P : Pcap) where
  -- A call that opens something, or ends the program.
  unfoldable pub open_or_exit : Call → M (Unit {0})
  open_or_exit c = do got ← ask P.opened c; if got then pure tt else exit exit_failure

  -- `pcap_loop`, which ends the program unless it returns 0.
  unfoldable pub loop_or_exit : ℕ → M (List Pkt)
  loop_or_exit packet_count = do
    got ← ask P.looped (Call.pcap_loop packet_count)
    if is_nonzero got.1 then exit exit_failure else pure got.0

  unfoldable pub stats_or_exit : M (Unit {0})
  stats_or_exit = do
    res ← ask P.stats Call.pcap_stats
    if is_nonzero res then exit exit_failure else pure tt

  -- `pcap_close`
  abbrev pub close_pcap : M (Unit {0})
  close_pcap = do _ ← ask P.opened Call.pcap_close; pure tt

  -- `main` of pcap_timeread.c: whether there is a file name, the resolution asked for, and what was
  -- printed.
  unfoldable pub timeread_main : Bool → Option ℤ → M (List Interval)
  unfolding open_or_exit loop_or_exit handle_all
  timeread_main has_file asked = do
    if has_file then pure tt else exit exit_failure
    open_or_exit Call.pcap_open_offline
    hdrs ← loop_or_exit 10000
    close_pcap
    pure (handle_all (resolution_of asked) hdrs no_packets).1

  -- `main` of pcap_read.c, and the exit code.
  unfoldable pub read_main : Bool → M ℕ
  unfolding open_or_exit loop_or_exit stats_or_exit
  read_main has_file = do
    if has_file then pure tt else exit exit_failure
    open_or_exit Call.pcap_open_offline
    _ ← loop_or_exit 10
    stats_or_exit
    close_pcap
    pure 0

  -- `main` of pcap_dump.c.
  unfoldable pub dump_main : M (Unit {0})
  unfolding open_or_exit loop_or_exit stats_or_exit
  dump_main = do
    open_or_exit Call.pcap_open_live
    open_or_exit Call.pcap_dump_open
    _ ← loop_or_exit 10000
    stats_or_exit
    _ ← ask P.opened Call.pcap_dump_close
    close_pcap
