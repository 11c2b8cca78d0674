-- ===== src/Pcap/Tests.antt =====
-- Runs of the tools on libpcap on a file of three packets.
use network_testing.Common.{◌+◌, ◌%◌, ◌^◌, ◌≡◌, refl, true, List, [], ◌∷◌, length, pos, negsuc}
use network_testing.Pcap.Sample.{pkt1, sample_main}
use network_testing.Kernel.{Timespec, Call, Proc, done, exited, exit_failure}
use network_testing.Kernel.Tests.{idle}
use network_testing.Pcap.{Pkt, Pcap, no_packets, pkt_handler, count_pkt, handle_all, read_main}
use network_testing.Pcap.Totals.{
  printed_cnt, printed_size, sum_len, handle_all-counts, read_main-fails,
}

abbrev three : List Pkt
three =
    record { tv_sec = 1; tv_usec = 100; len = 60 }
    ∷ record { tv_sec = 1; tv_usec = 200; len = 60 }
    ∷ record { tv_sec = 1; tv_usec = 900; len = 1500 }
    ∷ []

-- The packet that opens an interval is counted with the one before it.
three_handled :
    handle_all (pos 300) three no_packets
    ≡ (record { cnt = 0; size = 0; thresh = 3 }, record { cnt = 3; size = 1620 } ∷ [])
unfolding handle_all pkt_handler count_pkt
three_handled = refl

handle_all-counts_example :
    let r = handle_all (pos 300) three no_packets in
    ((printed_cnt r.1 + r.0.cnt) % 2 ^ 32 ≡ (0 + length three) % 2 ^ 32)
    × ((printed_size r.1 + r.0.size) % 2 ^ 32 ≡ (0 + sum_len three) % 2 ^ 32)
handle_all-counts_example = handle_all-counts (pos 300) three no_packets

abbrev savefile : Pcap
savefile = record { opened = λ _. true; looped = λ _. (three, pos 0); stats = λ _. negsuc 0 }

read_main-savefile : (t : Proc) × (read_main savefile true idle ≡ exited exit_failure t)
read_main-savefile = read_main-fails savefile true idle (λ _. refl)

abbrev some_time : Timespec
some_time = record { sec = 7; nsec = 7 }

-- The sample is a whole packet of 82 bytes, with the time that happens to stand there.
sample_main-savefile :
    (t : Proc) × (sample_main savefile some_time idle ≡ done 0 t)
    × (t.calls
        ≡ Call.pcap_dump_close
          ∷ Call.pcap_dump some_time 82 82 pkt1
          ∷ Call.pcap_dump_open
          ∷ Call.pcap_open_dead
          ∷ [])
unfolding sample_main
sample_main-savefile = (_, refl, refl)
