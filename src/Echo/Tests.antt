-- ===== src/Echo/Tests.antt =====
-- Two packets are sent back, and a client whose packet is too long for the server.
use network_testing.Common.{
  ℕ, [], ◌∷◌, ◌+◌, ◌≤◌, ◌<◌, ◌≡◌, refl, pos, arith, false, some, inr, ◌==◌, leb, if◌then◌else◌,
}
use network_testing.Kernel.{Kernel, ret, parsed, Proc, done, exited}
use network_testing.Kernel.Tests.{idle, test_kernel}
use network_testing.Echo.Server.{Header, echo_packet, report_packet, echo_loop}
use network_testing.Echo.Server.Echoes.{AllCome, traffic, echoes, echo_loop-echoes}
use network_testing.Socket.{no_addr}
use network_testing.Echo.Client.{ClientParams, default_client, exchange}
use network_testing.Echo.Exchange.{Connects, exchange-echo_packet}

abbrev kernel : Kernel
kernel = test_kernel (λ _. ret 3) (λ t j. t + j)

-- a server that prints each packet
abbrev loud : Proc
loud = record idle { verbose = pos 1 }

-- what a round of a longer packet left
abbrev used : Header
used = record {
  name = no_addr;
  namelen = 28;
  frame = λ _. 7;
  iov_len = pos 100;
  control = [];
  controllen = 40;
}

come : AllCome kernel 4 2 loud
unfolding AllCome
come = (3, refl, (3, refl, tt))

echo_loop-echoes_example :
    (t : Proc) × (echo_loop kernel 5 4 (pos 2) used loud ≡ done tt t)
    × (traffic t.calls ≡ echoes kernel 4 2 loud come [])
unfolding traffic
echo_loop-echoes_example = echo_loop-echoes kernel 4 1 5 used loud (omega arith) come

-- A packet of 9000 bytes to ::1, of which 8192 bytes come back.
abbrev client : Kernel
client =
    record (test_kernel (λ t. if t == 4 then ret 9000 else if t == 5 then ret 8192 else ret 3)
      (λ t j. j)) { pton = λ _ _. parsed (1 ∷ []) }

abbrev server : Kernel
server = test_kernel (λ _. ret 8192) (λ t j. j)

abbrev large : ClientParams
large = record default_client { pkt_size = pos 9000 }

client_calls : (i : ℕ) → 0 ≤ i → i < 0 + 4 → (k : ℕ) × (client.rc i ≡ ret k)
client_calls i from to =
    let not_4 : (i == 4) ≡ false = ground arith in
    let not_5 : (i == 5) ≡ false = ground arith in (3, rw (not_4, not_5) refl)

connects : Connects client large.addr_family [] (1 ∷ []) 0
connects = record { calls = client_calls; known = inr refl; address = refl }

exchange-echo_packet_example :
    (u : Proc) × (exchange client large (λ _. 0) (some []) idle
      ≡ (if leb 9000 8192 then done 0 u else exited 1 u))
unfolding echo_packet report_packet
exchange-echo_packet_example =
    exchange-echo_packet client server large (λ _. 0) [] (1 ∷ []) idle idle connects 9000 4 (pos 1)
      used (omega arith) refl refl refl
