-- ===== src/Bench/Tests.antt =====
-- Runs of the timed loops on small inputs.
use network_testing.Common.{◌+◌, ◌/◌, ◌≡◌, refl, some, pos, sub64, arith}
use network_testing.Kernel.{Kernel, ret, Call, done, after}
use network_testing.Kernel.Tests.{idle, test_kernel}
use network_testing.Kernel.Laws.{after_calls}
use network_testing.TimeBench.TimeFunc.{Report}
use network_testing.Bench.Overhead.{getuid_main, getuid_main-cycles}
use network_testing.Bench.EmptyLoop.{empty_for_loop03, last_counter, empty_for_loop03-rounds}

abbrev kernel : Kernel
kernel = test_kernel (λ _. ret 0) (λ _ _. 0)

getuid_main-cycles_run :
    (rep : Report) × (getuid_main kernel (pos 4) idle
      ≡ done rep (
          after Call.clock_gettime (
            after Call.rdtsc
              (after_calls Call.getuid 4 (after Call.rdtsc (after Call.clock_gettime idle))))))
    × (rep.tsc_cycles ≡ sub64 (kernel.tsc (0 + 2 + 4)) (kernel.tsc (0 + 1)) / 4)
getuid_main-cycles_run =
    getuid_main-cycles kernel 4 (record { sec = 0; nsec = 0 }) (record { sec = 7; nsec = 0 }) idle
      (omega arith) (omega arith) refl refl

-- 1 << 31 as an `int`, converted to `size_t`
empty_for_loop03-rounds_example :
    empty_for_loop03 0xffffffff80000000 ≡ some (last_counter 0xffffffff80000000)
empty_for_loop03-rounds_example = empty_for_loop03-rounds 0xffffffff80000000 (omega arith)
