-- ===== src/Examples.antt =====
-- The small examples: a sender, an echo server for IPv6, a socket option of raw sockets, a file that
-- holds the processor awake, and a loop that keeps it busy.
pub mod Snd
pub mod Datagram
pub mod Bypass
pub mod Latency
pub mod Burn
mod Tests
