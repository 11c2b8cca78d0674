-- ===== src/Compare.antt =====
-- array_compare01.c: searches in an array of two entries, and the loops that time them.
pub mod Search
pub mod Measure
mod Tests
