-- ===== src/Lib.antt =====
-- network-testing: udp_flood.c sends a flood of UDP packets and udp_sink.c receives it; both measure
-- the rate, and with pktgen headers the sink finds lost, repeated, reordered and damaged packets.
--
-- Kernel.antt is the environment. A system call is answered by the parameter `Kernel`, by the number
-- of calls made before it, so one value of it is one course of events. A program is a function of the
-- process (`Proc`: the calls made, and `verbose`) to a `Run`: a value, `exit` with its code, a trap,
-- or a loop that ran out of its rounds. Output is left out.
--
-- Which file models what, paths from the root of the repository:
--   TimeBench.antt   src/common.c: gettime, time_bench_start, time_bench_stop,
--                    time_bench_calc_stats, time_func, malloc_payload_buffer, read_ip_early_demux.
--                    A `double` stands as the operations that make it.
--   Socket.antt      src/common_socket.c: setup_sockaddr, sockaddr_len, the wrappers that
--                    end the program, the allocations.
--   Pktgen.antt      src/common.h: struct pktgen_hdr, as words and as bytes of a little-endian machine.
--   Sink.antt        src/udp_sink.c. Sink/Check: __check_pkt and check_pkt, a loop over an
--                    io-vector with the static `last`; Sink/Check/Flat is its specification over
--                    the list of the headers. Sink/Receive: read, recvfrom, recv. Sink/Message:
--                    check_msg_name, check_cmsg. Sink/Recvmsg and Sink/Recvmmsg: the receive
--                    loops that check.
--   Flood.antt       src/udp_flood.c. Flood/Fill: fill_buf with the static `sequence`. Flood/Send:
--                    the floods of one packet a call. Flood/Sendmmsg: the flood in batches.
--                    Flood/Pmtu: the names of the values of --pmtu, with an access outside of
--                    the table as a crash.
--   Getopt.antt      what the main functions share: flag words, optional arguments.
--   Sink/Options, Sink/Main, Flood/Options, Flood/Main   time_function and main of the two programs;
--                    the options are the list of what getopt_long returns.
--   Pacer.antt       src/udp_pacer.c. Pacer/Timing: tsnorm, calcdiff, the header. Pacer/Timer:
--                    socket_send and timer_thread; the rounds of its loop are an argument, and the
--                    theorem asks for as many as there are cycles. Pacer/Setup: the options, the
--                    socket, setup_pthread.
--   Pacer/Shutdown   the end of main of src/udp_pacer.c and timer_thread side by side, as a relation.
--   Echo.antt        src/udp_echo.c, src/udp_client_echo.c and src/udp_example02.c; the rounds of the
--                    echo loops are an argument, and the theorem asks for as many as there are packets.
--                    Echo/Exchange: the client against a round of the server.
--   Tcp.antt         src/tcp_sink.c, src/tcp_sink_epoll.c and src/tcp_sink_client.c. Tcp/Epoll:
--                    epoll_connections; its loops are bounded by the count and the events.
--   Compare.antt     src/array_compare01.c; an access outside of the array ends in `none`.
--   NicDriver.antt   src/get_nic_driver.c.
--   Rdma.antt        rdma/mp_rq.c, with the verbs library as a parameter. Its last loop ends by an
--                    error only; its rounds are an argument, and the theorem holds for any number.
--   Bench.antt       src/syscall_overhead.c, src/overhead_cmpxchg.c with src/asm_x86.h, and
--                    src/compiler_test01.c, whose loops are given 2^32 rounds, which the theorem shows
--                    to be enough.
--   Pcap.antt        src/pcap_timeread.c, src/pcap_read.c, src/pcap_dump.c and, in Pcap/Sample,
--                    src/pcap_write_sample.c, with libpcap as a parameter.
--   Examples.antt    src/udp_snd.c, src/ipv6_example01.c, src/qdisc_bypass_test.c,
--                    src/cpu_dma_latency.c and src/burn_cpu.c. What rand returns is a parameter.
--   EndToEnd.antt    what the sink says of the flood of the other program: received one packet a
--                    call (EndToEnd/Delivery), in batches (EndToEnd/Batches), in any order with losses
--                    (EndToEnd/AnyOrder), and damaged (EndToEnd/Damage).
-- A static or global variable is an argument and a result of the functions that use it.
--
-- Loops that count are recursions on the rounds left. The loop of __check_pkt gets a round for each
-- whole header and one more, and that of fill_buf one for each header begun and one more, which the
-- theorems about them show to be enough. The loop of sink_with_recv_mmsg gets its rounds as an
-- argument: the kernel decides how often it finds the queue empty, and the theorems about it ask for
-- more rounds than calls, or, where every call brings a packet, than packets. That of burn_cpu gets
-- its rounds in the same way: it has no end.
--
-- A write beyond a buffer whose size the code gets wrong (fill_buf_pktgen, the batches of
-- flood_with_sendMmsg) ends the run as a crash does.
--
-- Not modelled: what is printed, and `free`, whose memory no later code reads. The shell,
-- perl and python scripts configure network devices, in other languages.
pub mod Common
pub mod Kernel
pub mod TimeBench
pub mod Socket
pub mod Getopt
pub mod Pktgen
pub mod Sink
pub mod Flood
pub mod Pacer
pub mod Echo
pub mod Tcp
pub mod Compare
pub mod NicDriver
pub mod Rdma
pub mod Bench
pub mod Pcap
pub mod Examples
pub mod EndToEnd
