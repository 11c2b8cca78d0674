-- ===== src/Pcap/Totals.antt =====
-- pcap_timeread.c and pcap_read.c: the counts that are printed, and how they end.
use network_testing.Common.{
  ℕ, ◌+◌, ◌%◌, ◌^◌, ◌≡◌, refl, arith, Bool, true, false, Bool-cases, inl, inr, List, [], ◌∷◌, ◌++◌,
  length, ℤ, pos, is_nonzero, div_ℤ, to_u32,
}
use network_testing.Kernel.{Proc, exited, exit_failure}
use network_testing.Pcap.{
  Pkt, Pcap, Stat, Interval, same_interval, count_pkt, pkt_handler, handle_all, open_or_exit,
  loop_or_exit, stats_or_exit, read_main,
}

-- The packets and the bytes of what was printed.
unfoldable pub printed_cnt : List Interval → ℕ
printed_cnt [] = 0
printed_cnt (l ∷ ls) = l.cnt + printed_cnt ls

unfoldable pub printed_size : List Interval → ℕ
printed_size [] = 0
printed_size (l ∷ ls) = l.size + printed_size ls

unfoldable pub sum_len : List Pkt → ℕ
sum_len [] = 0
sum_len (p ∷ ps) = p.len + sum_len ps

-- One callback: what it prints and what it keeps make up what there was and the packet.
pkt_handler-counts :
    (resolution : ℤ) (hdr : Pkt) (s : Stat) (ls : List Interval)
    → let r = pkt_handler resolution hdr s in
      ((printed_cnt (r.1 ++ ls) + r.0.cnt) % 2 ^ 32 ≡ (s.cnt + 1 + printed_cnt ls) % 2 ^ 32)
      × ((printed_size (r.1 ++ ls) + r.0.size) % 2 ^ 32
          ≡ (s.size + hdr.len + printed_size ls) % 2 ^ 32)
unfolding pkt_handler count_pkt printed_cnt printed_size
pkt_handler-counts resolution hdr s ls =
    split (same_interval s.thresh (div_ℤ (pos hdr.tv_usec) resolution))
  where
    split :
        (b : Bool)
        → let r =
            count_pkt b
              ((s.cnt + 1) % 2 ^ 32)
              ((s.size + hdr.len) % 2 ^ 32)
              (to_u32 (div_ℤ (pos hdr.tv_usec) resolution)) in
          ((printed_cnt (r.1 ++ ls) + r.0.cnt) % 2 ^ 32 ≡ (s.cnt + 1 + printed_cnt ls) % 2 ^ 32)
          × ((printed_size (r.1 ++ ls) + r.0.size) % 2 ^ 32
              ≡ (s.size + hdr.len + printed_size ls) % 2 ^ 32)
    split true = (omega arith, omega arith)
    split false = (omega arith, omega arith)

-- No packet is lost or counted twice: the counts printed and the one that is left make up the
-- number of the packets, and so do the sizes, as 32-bit numbers.
pub handle_all-counts :
    (resolution : ℤ) (hdrs : List Pkt) (s : Stat)
    → let r = handle_all resolution hdrs s in
      ((printed_cnt r.1 + r.0.cnt) % 2 ^ 32 ≡ (s.cnt + length hdrs) % 2 ^ 32)
      × ((printed_size r.1 + r.0.size) % 2 ^ 32 ≡ (s.size + sum_len hdrs) % 2 ^ 32)
unfolding handle_all printed_cnt printed_size sum_len
handle_all-counts resolution [] s = (omega arith, omega arith)
handle_all-counts resolution (hdr ∷ hdrs) s =
    let first = pkt_handler resolution hdr s in
    let ih = handle_all-counts resolution hdrs first.0 in
    let step = pkt_handler-counts resolution hdr s (handle_all resolution hdrs first.0).1 in
    (omega arith, omega arith)

-- Where `pcap_stats` fails, as it is documented to do on a capture that is read from a file,
-- pcap_read.c always ends by EXIT_FAILURE, also behind packets that it has read and printed.
pub read_main-fails :
    (P : Pcap) (has_file : Bool) (s : Proc)
    → ((t : ℕ) → is_nonzero (P.stats t) ≡ true)
    → (t : Proc) × (read_main P has_file s ≡ exited exit_failure t)
unfolding read_main open_or_exit loop_or_exit stats_or_exit
read_main-fails P false s offline = (s, refl)
read_main-fails P true s offline = elim (Bool-cases (P.opened s.tick)) [
  | inr closed ↦ rw closed (_, refl)
  | inl opened ↦ elim (Bool-cases (is_nonzero (P.looped (s.tick + 1)).1)) [
    | inl failed ↦ rw (opened, failed) (_, refl)
    | inr read ↦ rw (opened, read, offline (s.tick + 1 + 1)) (_, refl)
  ]
]
