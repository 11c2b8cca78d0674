-- ===== src/Sink/Params.antt =====
-- The parameters and the static state of udp_sink.c.
use network_testing.Common.{ℕ, ℤ, pos, negsuc}
use network_testing.Kernel.{Sockaddr}
use network_testing.Socket.{no_addr}
use network_testing.Pktgen.{PktgenHdr}

-- the bits RUN_RECVMSG, …, RUN_RECV and their union
abbrev pub run_recvmsg : ℕ
run_recvmsg = 0x1

abbrev pub run_recvmmsg : ℕ
run_recvmmsg = 0x2

abbrev pub run_recvfrom : ℕ
run_recvfrom = 0x4

abbrev pub run_read : ℕ
run_read = 0x8

abbrev pub run_recv : ℕ
run_recv = 0x10

abbrev pub run_all : ℕ
run_all = 0x1f

-- `struct sink_params`
pub record SinkParams : Type 0 where
  pub connect : ℤ
  pub lite : ℤ
  pub iov_elems : ℤ
  pub batch : ℤ
  pub count : ℤ
  pub repeat : ℤ
  pub waitforone : ℤ
  pub dontwait : ℤ
  pub bad_addr : ℤ
  pub recv_ttl : ℤ
  pub recv_pktinfo : ℤ
  pub sk_timeout : ℤ
  pub timeout : ℤ
  pub check : ℤ
  pub sender_addr : Sockaddr
  pub so_reuseport : ℤ
  pub use_bpf : ℤ
  pub buf_sz : ℤ
  pub run_flag : ℕ
  pub run_flag_curr : ℕ
  pub ooo : ℕ
  pub bad_magic : ℕ
  pub bad_repeat : ℕ

-- What the checks of udp_sink.c work on: the parameters, and `last`, the static variable of
-- `__check_pkt`.
pub record Sink : Type 0 where
  pub p : SinkParams
  pub last : PktgenHdr

abbrev pub init_params : SinkParams
init_params = record {
  connect = pos 0;
  lite = pos 0;
  iov_elems = pos 1;
  batch = pos 32;
  count = pos 1_000_000;
  repeat = pos 1;
  waitforone = pos 0;
  dontwait = pos 0;
  bad_addr = pos 0;
  recv_ttl = pos 0;
  recv_pktinfo = pos 0;
  sk_timeout = negsuc 0;
  timeout = negsuc 0;
  check = pos 0;
  sender_addr = no_addr;
  so_reuseport = pos 0;
  use_bpf = pos 0;
  buf_sz = pos 4096;
  run_flag = 0;
  run_flag_curr = 0;
  ooo = 0;
  bad_magic = 0;
  bad_repeat = 0;
}

-- The statistics that are reset between runs. `last` of `__check_pkt` is not among them.
unfoldable pub init_stats : ℕ → SinkParams → SinkParams
init_stats testrun p = record p { ooo = 0; bad_magic = 0; bad_repeat = 0; run_flag_curr = testrun }
