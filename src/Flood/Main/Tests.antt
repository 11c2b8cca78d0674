-- ===== src/Flood/Main/Tests.antt =====
-- Floods of udp_flood.c: one whose third packet cannot be sent, one of which all are, and a whole
-- run.
use network_testing.Common.{
  List, ◌∷◌, some, [], ◌≡◌, ◌+◌, refl, ◌==◌, if◌then◌else◌, inl, pos, arith,
}
use network_testing.Kernel.{
  Kernel, ret, err, parsed, Call, Proc, done, exited, after, exit_fail_send, af_inet,
}
use network_testing.Kernel.Tests.{idle, test_kernel}
use network_testing.TimeBench.Clock.{IsWorking}
use network_testing.Socket.{no_addr}
use network_testing.Flood.Params.{FloodParams, init_params, run_sendto, run_sendmsg, run_write}
use network_testing.Flood.Send.{flood_with_write, flood_with_sendto}
use network_testing.Flood.Send.Counts.{send_results, all_sent, sent_bytes}
use network_testing.Flood.Main.{time_function, main}
use network_testing.Flood.Main.Numbers.{numbers, count_down}
use network_testing.Flood.Main.Numbers.Floods.{picked}
use network_testing.Flood.Main.Numbers.Whole.{main-numbers}
use network_testing.Flood.Options.{
  Opt, opt_count, opt_payload, opt_pktgen_header, opt_sendto, opt_write, Settings, defaults,
  parse_opt, parse_opts,
}
use network_testing.Flood.Main.Ends.{Ends, time_function-Ends}
use network_testing.Flood.Main.Fails.{time_function-fails}

abbrev kernel : Kernel
kernel = test_kernel (λ t. if t == 8 then err 111 else ret 20) (λ _ _. 0)

-- and where all of them can be
abbrev well : Kernel
well = test_kernel (λ _. ret 20) (λ _ _. 0)

abbrev params : FloodParams
params = record init_params {
  count = pos 4;
  msg_sz = pos 20;
  pktgen_hdr = pos 1;
  dest_addr = record no_addr { family = af_inet };
}

working : IsWorking kernel
working = record { clock = λ i. (_, refl) }

time_function-fails_run :
    ((t : Proc) × (time_function kernel (flood_with_write kernel params) 4 0 idle
        ≡ exited exit_fail_send (after (Call.close 4) t)))
    × ((t : Proc) × (time_function kernel (flood_with_sendto kernel params) 4 0 idle
          ≡ exited exit_fail_send (after (Call.close 4) t)))
unfolding all_sent send_results
time_function-fails_run =
    time_function-fails kernel params 4 0 idle working refl (λ _. refl) (inl refl) refl

IsWorking-well : IsWorking well
IsWorking-well = record { clock = λ i. (_, refl) }

time_function-Ends_example :
    let rs = send_results well 4 (0 + 1 + 1 + 1) in
    Ends 4 4 7 rs (time_function well (flood_with_write well params) 4 7 idle)
    × Ends 4 4 7 rs (time_function well (flood_with_sendto well params) 4 7 idle)
unfolding send_results sent_bytes
time_function-Ends_example =
    time_function-Ends well params 4 7 idle IsWorking-well refl (λ _. refl) (inl refl) (omega arith)
      (omega arith) (omega arith)

-- and where the address can be read, too
abbrev addressed : Kernel
addressed = record well { pton = λ _ _. parsed (127 ∷ 0 ∷ 0 ∷ 1 ∷ []) }

-- `--count=4 --payload=20 --pktgen-header --sendto --write`
abbrev opts : List Opt
opts = opt_count (pos 4) ∷ opt_payload (pos 20) ∷ opt_pktgen_header ∷ opt_sendto ∷ opt_write ∷ []

abbrev set : Settings
set = record defaults {
  p = record init_params { count = pos 4; msg_sz = pos 20; pktgen_hdr = pos 1 };
  run_flag = run_sendto + run_write;
}

main-numbers_example :
    (t : Proc) × (main addressed opts (some []) idle ≡ done 0 t)
    × (numbers t.calls
        ≡ count_down 0
            (picked set.p set.run_flag run_sendto
              + picked set.p set.run_flag run_sendmsg
              + picked set.p set.run_flag run_write)
            [])
unfolding parse_opts parse_opt numbers
main-numbers_example =
    main-numbers addressed (λ i. (20, refl, omega arith)) opts [] (127 ∷ 0 ∷ 0 ∷ 1 ∷ []) set idle
      idle (record { clock = λ i. (_, refl) }) (λ _. refl) refl refl (omega arith) (omega arith)
      (omega arith) (omega arith) refl refl (inl refl) refl (inl refl)
