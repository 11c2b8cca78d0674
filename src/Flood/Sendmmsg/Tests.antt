-- ===== src/Flood/Sendmmsg/Tests.antt =====
-- A flood of udp_flood.c with headers in batches, the last of which is not full.
use network_testing.Common.{
  ℕ, ◌+◌, ◌*◌, ◌/◌, ◌%◌, ◌^◌, ◌≡◌, refl, ◌==◌, if◌then◌else◌, inl, [], pos, arith,
}
use network_testing.Kernel.{Kernel, ret, Proc, done, af_inet}
use network_testing.Kernel.Tests.{test_kernel, idle}
use network_testing.TimeBench.{zeroed}
use network_testing.Socket.{no_addr}
use network_testing.Flood.Params.{FloodParams, init_params}
use network_testing.Flood.Sendmmsg.{flood_with_send_mmsg}
use network_testing.Flood.Main.Numbers.{count_down}
use network_testing.Flood.Sendmmsg.Numbers.{handed}
use network_testing.Flood.Sendmmsg.Numbers.Batches.{send_mmsg-numbers}

abbrev kernel : Kernel
kernel = test_kernel (λ _. ret 2) (λ _ _. 0)

-- 5 packets in batches of 2
abbrev params : FloodParams
params = record init_params {
  count = pos 5;
  batch = pos 2;
  msg_sz = pos 20;
  pktgen_hdr = pos 1;
  dest_addr = record no_addr { family = af_inet };
}

-- The next number is 106, though the packets are those from 100 to 104.
send_mmsg-numbers_example :
    let begun = 5 / 2 + (if 5 % 2 == 0 then 0 else 1) in
    (total : ℕ) × (t : Proc) × (flood_with_send_mmsg kernel params 4 zeroed 100 idle
      ≡ done ((pos 5, record zeroed { bytes = total }), (100 + begun * 2) % 2 ^ 32) t)
    × (handed 20 t.calls ≡ count_down 100 5 [])
unfolding handed
send_mmsg-numbers_example =
    send_mmsg-numbers kernel params 4 2 20 refl refl refl (omega arith) (omega arith)
      (λ _. (2, refl)) 5 100 zeroed idle refl (omega arith) (λ _. refl) (inl refl) (omega arith)
