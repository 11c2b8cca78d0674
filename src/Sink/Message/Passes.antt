-- ===== src/Sink/Message/Passes.antt =====
-- The packets that pass the checks of udp_sink.c, where every call brings some.
use network_testing.Common.{
  ℕ, ◌^◌, ◌≤◌, ◌<◌, ◌≡◌, refl, inl, inr, List, ◌∷◌, false, Bool-cases, pos, pos_part, ltb_ℤ,
  is_nonzero, arith,
}
use mathlib.Core.Path.{subst, sym}
use network_testing.Kernel.{Kernel, ret, Message, Proc, done}
use network_testing.Pktgen.{hdr_size}
use network_testing.Sink.Params.{SinkParams, Sink}
use network_testing.Sink.Check.{Iov, check_pkt}
use network_testing.Sink.Check.Flat.{capacity, IsRoomy}
use network_testing.Sink.Check.Refine.{check_pkt-off}
use network_testing.Sink.Check.Lenient.{check_pkt-returns}
use network_testing.Sink.Check.Setup.{settings, IsChecking}
use network_testing.Sink.Message.{check_msg_name, check_cmsg, bucket_size}
use network_testing.Sink.Message.Accept.{IsPlain, check_msg_name-plain, check_cmsg-plain}
use network_testing.Sink.Receive.{packet_count}
use network_testing.Sink.Recvmsg.{msg_iov}

-- the parameters without what the tests change
abbrev pub fixed : SinkParams → SinkParams
fixed p = record p { ooo = 0; bad_magic = 0; bad_repeat = 0; run_flag_curr = 0 }

-- From the call `from` on, every call returns a number from 1 to `most`. No message is larger, and
-- none brings control data.
pub record Brings (K : Kernel) (from most : ℕ) : Type 0 where
  pub calls : (i : ℕ) → from ≤ i → (k : ℕ) × (K.rc i ≡ ret k) × (0 < k) × (k ≤ most)
  pub fits : (t i : ℕ) → (K.message t i).len ≤ most
  pub bare : (t i : ℕ) → (K.message t i).controllen ≡ 0

-- Nothing that arrives ends the program: no check, or one at level 1 or 2, and nothing is asked of
-- the sender and of the control data.
pub record IsLenient (p : SinkParams) : Type 0 where
  pub lenient : ltb_ℤ (pos 2) p.check ≡ false
  pub recv_ttl : is_nonzero p.recv_ttl ≡ false
  pub recv_pktinfo : is_nonzero p.recv_pktinfo ≡ false
  pub any_sender : p.sender_addr.family ≡ 0

-- A header fits a bucket, and `most` bytes the buckets.
pub record HasRoom (most : ℕ) (p : SinkParams) : Type 0 where
  pub elems : 0 < pos_part p.iov_elems
  pub wide : hdr_size ≤ bucket_size p
  pub room : most ≤ capacity (msg_iov p)

-- Where no call found an empty queue, the result is the number of packets.
pub packet_count-all : (n empty : ℕ) → n < 2 ^ 31 → empty ≡ 0 → packet_count n empty ≡ pos n
packet_count-all n empty few none_empty = rw none_empty (ground arith)

pub fixed-settings :
    (P : SinkParams → Type 0) (p q : SinkParams)
    → settings p ≡ settings q
    → P (fixed q)
    → P (fixed p)
fixed-settings P p q e v = subst (λ x. P (fixed x)) (sym e) v

IsLenient-IsPlain : (p : SinkParams) → IsLenient (fixed p) → IsPlain p
IsLenient-IsPlain p v = record {
  recv_ttl = v.recv_ttl;
  recv_pktinfo = v.recv_pktinfo;
  any_sender = v.any_sender;
}

module _ (K : Kernel) (from most : ℕ) (brings : Brings K from most) (word : most < 2 ^ 31) (b : Iov)
    (bs : List Iov) (roomy : IsRoomy (b ∷ bs)) (room : most ≤ capacity (b ∷ bs)) where
  -- One packet passes the checks, and the settings stay.
  pub passes :
      (m : Message) (len : ℕ) (k : Sink) (s : Proc)
      → IsLenient (fixed k.p)
      → len ≤ most
      → m.controllen ≡ 0
      → (k' : Sink) × (check_pkt m.memory (b ∷ bs) len k s ≡ done k' s)
        × (settings k'.p ≡ settings k.p)
        × (check_msg_name m k.p.sender_addr s ≡ done tt s)
        × (check_cmsg m k.p 512 s ≡ done tt s)
  passes m len k s v small bare =
      let plain = IsLenient-IsPlain k.p v in
      let name = check_msg_name-plain m k.p plain s in
      let control = check_cmsg-plain m k.p plain s 512 bare in
      elim (Bool-cases (is_nonzero k.p.check)) [
        | inr off ↦ (k, check_pkt-off m.memory (b ∷ bs) len k s off, refl, name, control)
        | inl on ↦
            let checking : IsChecking k.p = record {
              on = on;
              lenient = v.lenient;
              recv_ttl = v.recv_ttl;
              recv_pktinfo = v.recv_pktinfo;
              any_sender = v.any_sender;
            } in
            let (k', run, same) =
              check_pkt-returns m.memory b bs len k s roomy (omega arith) (omega arith) checking in
            (k', run, same, name, control)
      ]
