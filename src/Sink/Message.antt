-- ===== src/Sink/Message.antt =====
-- udp_sink.c: what a message header asks the kernel for, and the checks of what came back.
pub mod Accept
pub mod Control
pub mod Passes
use network_testing.Common.{
  ℕ, zero, suc, ◌+◌, ◌-◌, ◌*◌, ◌/◌, ◌%◌, ◌^◌, List, [], ◌∷◌, Bool, true, false, ◌&&◌, ◌||◌, not,
  ◌==◌, ◌!=◌, ltb, if◌then◌else◌, get_or, ℤ, pos, negsuc, is_nonzero, pos_part, to_u64, sub64,
  div_ℤ,
}
use network_testing.Kernel.{
  Kernel, Rc, Call, Cmsg, Message, Sockaddr, M, pure, exit, ask, exit_fail_sock, af_inet,
}
use network_testing.Sink.Params.{SinkParams}
use network_testing.Sink.Check.{Iov}

-- `setup_msg_name`: the `msg_namelen` that the kernel is given, 0 with a null `msg_name` if the
-- sender does not matter.
unfoldable pub setup_msg_name : ℕ → ℕ
setup_msg_name family = if family == 0 then 0 else 128

-- `memcmp(a, b, n) == 0`
abbrev pub same_bytes : ℕ → List ℕ → List ℕ → Bool
same_bytes zero a b = true
same_bytes (suc n) a b = get_or a n 0 == get_or b n 0 && same_bytes n a b

unfoldable pub check_msg_name : Message → Sockaddr → M (Unit {0})
check_msg_name m sender =
    if sender.family == 0
    then pure tt
    else let v4 = sender.family == af_inet in
      if m.namelen != (if v4 then 16 else 28)
      then exit exit_fail_sock
      else if same_bytes (if v4 then 4 else 16) sender.addr m.name.addr
      then pure tt
      else exit exit_fail_sock

-- `CMSG_DLEN`
abbrev pub cmsg_dlen : Cmsg → ℕ
cmsg_dlen c = sub64 c.len 16

abbrev pub is_pktinfo : Cmsg → Bool
is_pktinfo c = c.level == 0 && (c.kind == 8 && cmsg_dlen c == 12)

abbrev pub is_ttl : Cmsg → Bool
is_ttl c = c.level == 0 && (c.kind == 2 && cmsg_dlen c == 4)

-- The walk over the control messages, with `found_pktinfo` and `found_ttl`.
pub scan_cmsg : List Cmsg → Bool → ℤ → Bool × ℤ
scan_cmsg [] pktinfo ttl = (pktinfo, ttl)
scan_cmsg (c ∷ cs) pktinfo ttl =
    scan_cmsg cs (if is_pktinfo c then true else pktinfo)
      (if is_pktinfo c then ttl else if is_ttl c then c.value else ttl)

-- `flag ^ !!found`, as a condition
abbrev pub differs : ℤ → Bool → Bool
differs (pos n) found = n != (if found then 1 else 0)
differs (negsuc n) found = true

unfoldable pub check_cmsg : Message → SinkParams → ℕ → M (Unit {0})
check_cmsg m p max_len =
    if not (is_nonzero p.recv_ttl) && not (is_nonzero p.recv_pktinfo)
    then (if m.controllen != 0 then exit exit_fail_sock else pure tt)
    else if ltb max_len m.controllen
    then exit exit_fail_sock
    else let (pktinfo, ttl) = scan_cmsg m.control false (pos 0) in
      if differs p.recv_ttl (is_nonzero ttl) || differs p.recv_pktinfo pktinfo
      then exit exit_fail_sock
      else pure tt

-- `n` buckets of `size` bytes each, one behind the other from `base` on.
unfoldable pub buckets : ℕ → ℕ → ℕ → List Iov
buckets base size zero = []
buckets base size (suc n) = record { base = base; len = size } ∷ buckets (base + size) size n

-- `p->buf_sz / p->iov_elems` as a `size_t`; `iov_elems` is not 0 here
abbrev pub bucket_size : SinkParams → ℕ
bucket_size p = to_u64 (div_ℤ p.buf_sz p.iov_elems)

-- what `recvmsg` and `recvmmsg` report of one message
abbrev pub reply : Kernel → ℕ → Rc × Message
reply K t = (K.rc t, K.message t 0)

abbrev pub replies : Kernel → ℕ → Rc × (ℕ → Message)
replies K t = (K.rc t, K.message t)
