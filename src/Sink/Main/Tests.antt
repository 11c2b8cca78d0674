-- ===== src/Sink/Main/Tests.antt =====
-- A whole run of udp_sink.c, with all its tests, and a test that finds no packet.
use network_testing.Common.{
  ℕ, false, List, [], ◌∷◌, ◌≤◌, ◌<◌, ◌==◌, if◌then◌else◌, inr, ◌≡◌, refl, inl, pos, arith,
}
use network_testing.Kernel.{holds, Kernel, ret, err, Proc, done, crashed, eagain, af_inet}
use network_testing.Kernel.Tests.{idle, test_kernel}
use network_testing.Socket.{no_addr}
use network_testing.Sink.Params.{Sink, init_params, run_all}
use network_testing.Sink.Main.{unchecked, time_function, main}
use network_testing.Sink.Main.Traps.{time_function-traps}
use network_testing.Sink.Receive.{sink_with_read, sink_with_recvfrom, sink_with_recv}
use network_testing.Pktgen.{zero_hdr}
use network_testing.Sink.Options.{
  Opt, opt_count, opt_repeat, Settings, defaults, parse_opt, parse_opts,
}
use network_testing.Sink.Message.{buckets}
use network_testing.Sink.Check.Flat.{capacity}
use network_testing.Sink.Main.Ends.{main-ends}
use network_testing.Sink.Main.Served.{Serves, MessagesPass}

abbrev kernel : Kernel
kernel = record (test_kernel (λ _. ret 100) (λ _ _. 0)) {
  source = λ _. record no_addr { family = af_inet };
}

-- Its second call, which is `bind`, returns 0, and all others 100.
abbrev whole_kernel : Kernel
whole_kernel = record kernel { rc = λ t. ret (if t == 1 then 0 else 100); proc_file = λ _. holds 1 }

result-bounds : (i : ℕ) → (if i == 1 then 0 else 100) ≤ 100
result-bounds i = ground arith

result-some : (i : ℕ) → 2 ≤ i → 0 < (if i == 1 then 0 else 100)
result-some i h = ground arith

serves : Serves whole_kernel
serves = record {
  calls = λ i. (_, refl, omega (arith, result-bounds i));
  alloc = λ i. refl;
  family = λ i. inl refl;
  setting = record { proc_file = λ i. inr (1, refl) };
  ntop = λ i. refl;
}

passing :
    MessagesPass whole_kernel 2 3 100 4
      (record init_params { count = pos 3; repeat = pos 2; run_flag = run_all })
unfolding buckets capacity
passing = record {
  brings = record {
    calls = λ i h. (_, refl, result-some i h, result-bounds i);
    fits = λ t i. omega arith;
    bare = λ t i. refl;
  };
  lenient = record { lenient = refl; recv_ttl = refl; recv_pktinfo = refl; any_sender = refl };
  room = record { elems = omega arith; wide = omega arith; room = omega arith };
  few = omega arith;
  rounds = omega arith;
}

-- `--count=3 --repeat=2`, all five tests
abbrev opts : List Opt
opts = opt_count (pos 3) ∷ opt_repeat (pos 2) ∷ []

abbrev set : Settings
set = record defaults { p = record init_params { count = pos 3; repeat = pos 2 } }

main-ends_example : (t : Proc) × (main whole_kernel 4 opts idle ≡ done 0 t)
unfolding parse_opts parse_opt
main-ends_example =
    main-ends whole_kernel serves 3 1 100 run_all 4 opts set idle idle
      (record { clock = λ i. (_, refl) }) (omega arith) (omega arith) refl
      (record {
        count = refl;
        repeat = refl;
        unconnected = refl;
        chosen = refl;
        messages = inr passing;
      })
      (inl refl)

-- A first packet, and no more within the timeout.
abbrev silent : Kernel
silent = record kernel { rc = λ t. if t == 0 then ret 100 else err eagain }

silence : (i : ℕ) → 1 ≤ i → silent.rc i ≡ err eagain
silence i late = let later : (i == 0) ≡ false = ground arith in rw later refl

abbrev waiting : Sink
waiting = record { p = set.p; last = zero_hdr }

time_function-traps_example :
    ((t : Proc) × (time_function silent (unchecked (sink_with_read silent)) 4 waiting idle
        ≡ crashed t))
    × ((t : Proc) × (time_function silent (unchecked (sink_with_recvfrom silent)) 4 waiting idle
          ≡ crashed t))
    × ((t : Proc) × (time_function silent (unchecked (sink_with_recv silent)) 4 waiting idle
          ≡ crashed t))
time_function-traps_example =
    time_function-traps silent 4 3 1 100 waiting idle (record { clock = λ i. (_, refl) })
      (record { proc_file = λ i. inl refl }) (λ i. refl) (omega arith) (omega arith) refl refl refl
      refl (inl refl) refl silence
