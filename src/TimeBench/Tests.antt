-- ===== src/TimeBench/Tests.antt =====
-- A measurement on small inputs.
use network_testing.Common.{◌-◌, ◌/◌, ◌≡◌, refl, arith}
use network_testing.Kernel.{Kernel, ret, Timespec, done, Proc}
use network_testing.Kernel.Tests.{idle, test_kernel}
use network_testing.TimeBench.{TimeBench, zeroed}
use network_testing.TimeBench.Interval.{nanoseconds, measure, after_stop, measure-intervals}

abbrev kernel : Kernel
kernel = test_kernel (λ _. ret 0) (λ _ _. 0)

abbrev later : Proc
later = record idle { tick = 9 }

abbrev start_time : Timespec
start_time = record { sec = 0; nsec = 0 }

abbrev stop_time : Timespec
stop_time = record { sec = 10; nsec = 0 }

-- The clock counts seconds and the cycle counter calls; 3 packets of 50 bytes.
measure-intervals_example :
    let r = record zeroed { bytes = 150 } in
    (out : TimeBench) × (measure kernel 3 r idle later ≡ done out (after_stop later))
    × (out.time_interval ≡ nanoseconds stop_time - nanoseconds start_time)
    × (out.tsc_interval ≡ 8)
    × (out.tsc_cycles ≡ 8 / 3)
    × (out.payload_pktsz ≡ 150 / 3)
unfolding nanoseconds
measure-intervals_example =
    measure-intervals kernel start_time stop_time (record zeroed { bytes = 150 }) idle later refl
      refl 3 8 (omega arith) (omega arith) refl (omega arith) (omega arith) (omega arith)
      (omega arith)
