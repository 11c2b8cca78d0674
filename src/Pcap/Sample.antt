-- ===== src/Pcap/Sample.antt =====
-- pcap_write_sample.c: one packet, written to a file by libpcap.
use network_testing.Common.{ℕ, List, [], ◌∷◌, length, if◌then◌else◌}
use network_testing.Kernel.{Timespec, Call, M, pure, crash, ask, ◌>>=◌, ◌>>◌}
use network_testing.Pcap.{Pcap}

-- an Ethernet frame with an SCTP INIT chunk
abbrev pub pkt1 : List ℕ
pkt1 =
    0x00 ∷ 0x11 ∷ 0x22 ∷ 0x33 ∷ 0x44 ∷ 0x55 ∷ 0x00 ∷ 0x00 ∷ 0x00 ∷ 0x00 ∷ 0x00 ∷ 0x00 ∷ 0x08 ∷ 0x00
    ∷ 0x45 ∷ 0x00 ∷ 0x00 ∷ 0x44 ∷ 0x55 ∷ 0xb1 ∷ 0x00 ∷ 0x00 ∷ 0x40 ∷ 0x84 ∷ 0x26 ∷ 0x83 ∷ 0x7f
    ∷ 0x00 ∷ 0x00 ∷ 0x01 ∷ 0x7f ∷ 0x00 ∷ 0x00 ∷ 0x01 ∷ 0x00 ∷ 0x01 ∷ 0x1f ∷ 0x90 ∷ 0x00 ∷ 0x00
    ∷ 0x00 ∷ 0x00 ∷ 0x68 ∷ 0xe5 ∷ 0x88 ∷ 0x1b ∷ 0x01 ∷ 0x00 ∷ 0x00 ∷ 0x24 ∷ 0x00 ∷ 0x00 ∷ 0x00
    ∷ 0x00 ∷ 0x00 ∷ 0x0f ∷ 0xa0 ∷ 0x00 ∷ 0x00 ∷ 0x04 ∷ 0xff ∷ 0xff ∷ 0x00 ∷ 0x00 ∷ 0x16 ∷ 0x2e
    ∷ 0x80 ∷ 0x00 ∷ 0x00 ∷ 0x04 ∷ 0xc0 ∷ 0x00 ∷ 0x00 ∷ 0x04 ∷ 0x00 ∷ 0x0c ∷ 0x00 ∷ 0x06 ∷ 0x00
    ∷ 0x05 ∷ 0x00 ∷ 0x00 ∷ []

-- `main` with the time that stands on the stack where `pcap_hdr` lies, since `ts` of it is never
-- set, and the exit code. The pointers that come back are not tested: a null pointer handed on to
-- libpcap is a crash.
unfoldable pub sample_main : Pcap → Timespec → M ℕ
sample_main P ts = do
  handle ← ask P.opened Call.pcap_open_dead
  if handle then pure tt else crash
  dumper ← ask P.opened Call.pcap_dump_open
  if dumper then pure tt else crash
  _ ← ask P.opened (Call.pcap_dump ts (length pkt1) (length pkt1) pkt1)
  _ ← ask P.opened Call.pcap_dump_close
  pure 0
