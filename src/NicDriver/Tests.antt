-- ===== src/NicDriver/Tests.antt =====
-- A run of get_nic_driver.c where the ioctl fails.
use network_testing.Common.{ℕ, ◌≡◌, refl, ◌==◌, if◌then◌else◌, [], ◌∷◌, arith}
use network_testing.Kernel.{Kernel, ret, err, Call, Proc, done, after}
use network_testing.Kernel.Tests.{idle, test_kernel}
use network_testing.NicDriver.{nic_dev, get_driver_info, main}
use network_testing.NicDriver.Closing.{Outcome, main-Outcome}

abbrev no_ethtool : Kernel
no_ethtool = test_kernel (λ t. if t == 2 then err 95 else ret 3) (λ _ _. 0)

main-Outcome_example :
    (code : ℕ) × (t : Proc) × (get_driver_info no_ethtool
        (101 ∷ 48 ∷ [])
        (after (Call.if_nametoindex (101 ∷ 48 ∷ [])) idle)
      ≡ done code t)
    × (main no_ethtool (nic_dev (101 ∷ 48 ∷ []) ∷ []) idle ≡ done 0 t)
    × Outcome no_ethtool (after (Call.if_nametoindex (101 ∷ 48 ∷ [])) idle) code t
main-Outcome_example =
    main-Outcome no_ethtool (101 ∷ 48 ∷ []) 3 idle (omega arith) refl (omega arith) (omega arith)
