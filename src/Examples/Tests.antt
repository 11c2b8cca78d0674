-- ===== src/Examples/Tests.antt =====
-- Runs of the small examples.
use network_testing.Common.{◌≡◌, refl, List, [], ◌∷◌, some, pos, ◌==◌, if◌then◌else◌}
use network_testing.Kernel.{
  Kernel, ret, err, Call, Sockaddr, Proc, done, exited, after, out_of_fuel,
}
use network_testing.Kernel.Laws.{after_calls}
use network_testing.Kernel.Tests.{idle, test_kernel}
use network_testing.Pktgen.{byte}
use network_testing.Examples.Snd.{
  SndOpt, snd_host, snd_discover, default_snd, parse_snd_opts, snd_rounds, snd_main,
}
use network_testing.Examples.Snd.Numbers.{Numbered, snd_main-numbers}
use network_testing.Examples.Datagram.{server_addr, datagram_main}
use network_testing.Examples.Bypass.{bypass_main}
use network_testing.Examples.Latency.{latency_main}
use network_testing.Examples.Latency.Holding.{latency_main-sleeps}

abbrev willing : Kernel
willing = test_kernel (λ _. ret 3) (λ _ _. 0)

abbrev discover_2 : List SndOpt
discover_2 = snd_discover (pos 2) ∷ snd_host (58 ∷ 58 ∷ 49 ∷ []) ∷ []

snd_main-numbers_example :
    (t : Proc) × (a : Sockaddr) × (before : List Call) × (snd_main willing (λ i. i) discover_2 idle
      ≡ done 0 t)
    × Numbered 3 0 snd_rounds (Call.connect 3 a ∷ before) t.calls
unfolding parse_snd_opts
snd_main-numbers_example =
    snd_main-numbers willing (λ i. i) discover_2 (58 ∷ 58 ∷ 49 ∷ []) 3 idle given refl
  where
    given : (parse_snd_opts discover_2 default_snd).host ≡ some (58 ∷ 58 ∷ 49 ∷ [])
    given = refl

-- Without a host nothing is called.
snd_main-no_host : snd_main willing (λ i. i) [] idle ≡ done 2 idle
unfolding snd_main parse_snd_opts
snd_main-no_host = refl

latency_main-sleeps_run :
    latency_main
      (test_kernel (λ t. if t == 1 then ret 4 else ret 3) (λ _ _. 0))
      2
      (some (pos 55))
      idle
    ≡ out_of_fuel (
        after_calls
          (Call.sleep 10)
          2
          (after (Call.write 3 (byte 55) (pos 4)) (after (Call.open_file 1) idle)))
latency_main-sleeps_run = latency_main-sleeps _ 2 (pos 55) 3 idle refl refl

-- An unsupported option is no failure of the program.
bypass_main-unsupported :
    bypass_main (test_kernel (λ t. if t == 2 then err 92 else ret 3) (λ _ _. 0)) idle
    ≡ done 0 (
        after
          (Call.setsockopt 3 263 20)
          (after (Call.setsockopt 3 263 10) (after (Call.socket 17 3 0) idle)))
unfolding bypass_main
bypass_main-unsupported = refl

datagram_main-fails :
    datagram_main (test_kernel (λ t. if t == 2 then err 11 else ret 3) (λ _ _. 0)) 1 idle
    ≡ exited 1 (
        after
          (Call.recvfrom 3 (pos 1024) 0)
          (after (Call.bind 3 server_addr) (after (Call.socket 10 2 0) idle)))
unfolding datagram_main
datagram_main-fails = refl
