-- ===== src/Pacer.antt =====
-- udp_pacer.c: packets sent at fixed intervals by a timer thread.
pub mod Timing
pub mod Packet
pub mod Timer
pub mod Setup
pub mod Shutdown
mod Tests
