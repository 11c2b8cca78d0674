-- ===== src/Examples/Bypass.antt =====
-- qdisc_bypass_test.c: PACKET_QDISC_BYPASS set on a raw socket.
use network_testing.Common.{ℕ}
use network_testing.Kernel.{Kernel, ret, err, Call, M, pure, exit, ask, ◌>>=◌, ◌>>◌}
use network_testing.Socket.{setsockopt}

module _ (K : Kernel) where
  -- A failure is printed, one without support for the option (ENOPROTOOPT) if `verbose`.
  unfoldable pub set_sock_qdisc_bypass : ℕ → M (Unit {0})
  set_sock_qdisc_bypass fd = do _ ← ask K.rc (Call.setsockopt fd 263 20); pure tt

  -- PF_PACKET is 17, SOCK_RAW 3, SOL_PACKET 263, PACKET_VERSION 10.
  unfoldable pub pf_tx_socket : M ℕ
  unfolding setsockopt
  pf_tx_socket = do
    res ← ask K.rc (Call.socket 17 3 0)
    elim res [ err _ ↦ exit 1 | ret sock ↦ do _ ← setsockopt K sock 263 10; pure sock ]

  unfoldable pub bypass_main : M ℕ
  unfolding pf_tx_socket set_sock_qdisc_bypass
  bypass_main = do sock ← pf_tx_socket; set_sock_qdisc_bypass sock; pure 0
