-- ===== src/EndToEnd.antt =====
-- udp_flood.c and udp_sink.c together: the headers that one stamps and the other checks.
mod Samples
pub mod Stream
pub mod Reading
pub mod Order
pub mod AnyOrder
pub mod Delivery
pub mod Batches
pub mod Loss
pub mod Damage
mod Tests
