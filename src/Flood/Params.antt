-- ===== src/Flood/Params.antt =====
-- The parameters of udp_flood.c.
use network_testing.Common.{ℕ, ℤ, pos, negsuc}
use network_testing.Kernel.{Sockaddr}
use network_testing.Socket.{no_addr}

-- the bits RUN_SENDMSG, …, RUN_SEND and their union
abbrev pub run_sendmsg : ℕ
run_sendmsg = 0x1

abbrev pub run_sendmmsg : ℕ
run_sendmmsg = 0x2

abbrev pub run_sendto : ℕ
run_sendto = 0x4

abbrev pub run_write : ℕ
run_write = 0x8

abbrev pub run_send : ℕ
run_send = 0x10

abbrev pub run_all : ℕ
run_all = 0x1f

-- `struct flood_params`
pub record FloodParams : Type 0 where
  pub connect : ℤ
  pub lite : ℤ
  pub batch : ℤ
  pub count : ℤ
  pub msg_sz : ℤ
  pub pmtu : ℤ
  pub pktgen_hdr : ℤ
  pub dest_addr : Sockaddr

abbrev pub init_params : FloodParams
init_params = record {
  connect = pos 0;
  lite = pos 0;
  batch = pos 32;
  count = pos 1_000_000;
  msg_sz = pos 18;
  pmtu = negsuc 0;
  pktgen_hdr = pos 0;
  dest_addr = no_addr;
}
