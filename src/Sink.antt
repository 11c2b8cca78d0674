-- ===== src/Sink.antt =====
-- udp_sink.c: receive a flood of packets, check their headers and measure the rate.
pub mod Params
pub mod Check
pub mod Receive
pub mod Message
pub mod Recvmsg
pub mod Recvmmsg
pub mod Options
pub mod Main
mod Tests
