-- ===== src/Socket.antt =====
-- common_socket.c: addresses, and system calls that end the program when they fail.
pub mod Wrappers
use network_testing.Common.{
  ℕ, ◌+◌, ◌*◌, ◌/◌, ◌%◌, ◌^◌, List, [], Bool, true, false, ◌==◌, if◌then◌else◌, ℤ,
}
use network_testing.Kernel.{
  Kernel, Rc, ret, err, Sockaddr, parsed, malformed, unsupported, Call, Proc, M, Run, pure, exit,
  ask, ◌>>=◌, ◌>>◌, exit_fail_mem, exit_fail_option, exit_fail_sock, exit_fail_sockopt,
  exit_fail_ip, af_inet, af_inet6,
}

-- `htons` on a little-endian machine
abbrev pub htons : ℕ → ℕ
htons p = (p % 256) * 256 + p / 256 % 256

-- `memset(&addr, 0, sizeof(addr))`
abbrev pub no_addr : Sockaddr
no_addr = record { family = 0; port = 0; addr = [] }

-- `sizeof(struct sockaddr_in)` or `sizeof(struct sockaddr_in6)`
unfoldable pub sockaddr_len : Sockaddr → M ℕ
sockaddr_len a =
    if a.family == af_inet
    then pure 16
    else if a.family == af_inet6
    then pure 28
    else exit exit_fail_sock

module _ (K : Kernel) where
  unfoldable pub setup_sockaddr : ℕ → List ℕ → ℕ → M Sockaddr
  setup_sockaddr family ip port =
      if (if family == af_inet6 then true else family == af_inet)
      then elim (K.pton family ip) [
        | parsed bytes ↦ pure (record { family = family; port = htons port; addr = bytes })
        | malformed ↦ exit exit_fail_ip
        | unsupported ↦ exit exit_fail_ip
      ]
      else exit exit_fail_option

  -- `Socket`, `Connect`, `Close`, `Setsockopt` and `Bind` of common_socket.c
  unfoldable pub socket : ℕ → ℕ → ℕ → M ℕ
  socket family type protocol = do
    r ← ask K.rc (Call.socket family type protocol)
    elim r [ ret n ↦ pure n | err _ ↦ exit exit_fail_sock ]

  -- `close(2)`, its result ignored
  abbrev pub close_fd : ℕ → M Rc
  close_fd fd = ask K.rc (Call.close fd)

  unfoldable pub connect : ℕ → Sockaddr → M ℕ
  connect fd a = do
    r ← ask K.rc (Call.connect fd a)
    elim r [ ret n ↦ pure n | err _ ↦ close_fd fd >> exit exit_fail_sock ]

  unfoldable pub close : ℕ → M ℕ
  close fd = do
    r ← ask K.rc (Call.close fd)
    elim r [ ret n ↦ pure n | err _ ↦ exit exit_fail_sock ]

  unfoldable pub setsockopt : ℕ → ℕ → ℕ → M ℕ
  setsockopt fd level name = do
    r ← ask K.rc (Call.setsockopt fd level name)
    elim r [ ret n ↦ pure n | err _ ↦ exit exit_fail_sockopt ]

  unfoldable pub bind : ℕ → Sockaddr → M ℕ
  unfolding sockaddr_len
  bind fd a = do
    _ ← sockaddr_len a
    r ← ask K.rc (Call.bind fd a)
    elim r [ ret n ↦ pure n | err _ ↦ close_fd fd >> exit exit_fail_sock ]

  -- `malloc_msghdr`, `malloc_mmsghdr` and `malloc_iovec`: memory or the end of the program. What
  -- the caller stores in the memory is modelled at the caller.
  unfoldable pub malloc_array : M (Unit {0})
  malloc_array = do got ← ask K.alloc Call.malloc; if got then pure tt else exit exit_fail_mem
