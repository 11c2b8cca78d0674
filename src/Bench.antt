-- ===== src/Bench.antt =====
-- syscall_overhead.c, overhead_cmpxchg.c with asm_x86.h, and compiler_test01.c: timed loops.
pub mod Overhead
pub mod EmptyLoop
mod Tests
