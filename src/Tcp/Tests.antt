-- ===== src/Tcp/Tests.antt =====
-- Runs of the TCP programs on small inputs.
use network_testing.Common.{[], ◌≡◌, ◌-◌, refl, ◌==◌, if◌then◌else◌, inl, inr, true, pos, arith}
use network_testing.Kernel.{Kernel, Rc, ret, err, Call, Proc, done, exited, after, af_inet}
use network_testing.Kernel.Tests.{idle, test_kernel}
use network_testing.Kernel.Laws.{after_calls}
use network_testing.Socket.{no_addr}
use network_testing.Tcp.Client.{eaddrnotavail, econnreset, connect_retries}
use network_testing.Tcp.Client.Retries.{
  AllBusy, fail_code, connect_retries-connects, connect_retries-fails,
}
use network_testing.Tcp.Accept.{Line, accept_loop, connections, accept_loop-closes}

-- The first call finds no free address, the others return `last`.
abbrev busy_once : Rc → Kernel
busy_once last = test_kernel (λ t. if t == 0 then err eaddrnotavail else last) (λ _ _. 0)

connect_retries-connects_example :
    connect_retries (busy_once (ret 0)) 4 (record no_addr { family = af_inet }) (pos 2) idle
    ≡ done 0 (after_calls (Call.connect 4 (record no_addr { family = af_inet })) 2 idle)
unfolding AllBusy
connect_retries-connects_example =
    connect_retries-connects (busy_once (ret 0)) 4 (record no_addr { family = af_inet }) (inl refl)
      2 1 0 idle (omega arith) (refl, tt) refl

connect_retries-fails_example :
    connect_retries
      (busy_once (err econnreset))
      4
      (record no_addr { family = af_inet })
      (pos 2)
      idle
    ≡ exited (fail_code (2 - 1) econnreset) (
        after
          (Call.close 4)
          (after_calls (Call.connect 4 (record no_addr { family = af_inet })) 2 idle))
unfolding AllBusy
connect_retries-fails_example =
    connect_retries-fails (busy_once (err econnreset)) 4 (record no_addr { family = af_inet })
      (inl refl) 2 1 econnreset idle (omega arith) (refl, tt) refl (inr (omega arith))

abbrev no_text : Line
no_text i = (λ _. 0, pos 14)

accept_loop-closes_run :
    (t : Proc) × (accept_loop (busy_once (ret 7)) no_text 3 1 4 true idle ≡ done tt t)
    × (t.calls ≡ connections (busy_once (ret 7)) no_text 3 1 4 true 0 [])
accept_loop-closes_run = accept_loop-closes (busy_once (ret 7)) no_text 3 1 4 true idle
