-- ===== src/Flood.antt =====
-- udp_flood.c: send a flood of packets, each with a stamped header if asked for.
pub mod Params
pub mod Fill
pub mod Send
pub mod Sendmmsg
pub mod Options
pub mod Pmtu
pub mod Main
mod Tests
