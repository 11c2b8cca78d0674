-- ===== src/Sink/Message/Accept.antt =====
-- What the checks of a message accept.
use network_testing.Common.{ℕ, ◌≡◌, false, is_nonzero}
use network_testing.Kernel.{Message, Proc, done}
use network_testing.Sink.Params.{SinkParams}
use network_testing.Sink.Message.{check_msg_name, check_cmsg}

-- Nothing is asked of the sender, and no control message was requested.
pub record IsPlain (p : SinkParams) : Type 0 where
  pub recv_ttl : is_nonzero p.recv_ttl ≡ false
  pub recv_pktinfo : is_nonzero p.recv_pktinfo ≡ false
  pub any_sender : p.sender_addr.family ≡ 0

module _ (m : Message) (p : SinkParams) (plain : IsPlain p) (s : Proc) where
  pub check_msg_name-plain : check_msg_name m p.sender_addr s ≡ done tt s
  unfolding check_msg_name
  check_msg_name-plain = rw plain.any_sender

  pub check_cmsg-plain : (max_len : ℕ) → m.controllen ≡ 0 → check_cmsg m p max_len s ≡ done tt s
  unfolding check_cmsg
  check_cmsg-plain max_len e = rw (plain.recv_ttl, plain.recv_pktinfo, e)
