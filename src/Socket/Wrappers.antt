-- ===== src/Socket/Wrappers.antt =====
-- What the helpers of common_socket.c promise.
use network_testing.Common.{ℕ, List, refl, ◌≡◌, ◌⊎◌, inl, inr}
use network_testing.Kernel.{Kernel, Proc, done, parsed, Sockaddr, pure, af_inet, af_inet6}
use network_testing.Socket.{htons, sockaddr_len, setup_sockaddr}

-- The families that the programs use have a length.
pub sockaddr_len-inet :
    (a : Sockaddr)
    → (a.family ≡ af_inet) ⊎ (a.family ≡ af_inet6)
    → (l : ℕ) × (sockaddr_len a ≡ pure l)
unfolding sockaddr_len
sockaddr_len-inet a (inl e) = (16, rw e)
sockaddr_len-inet a (inr e) = (28, rw e)

-- A text in the format of the family is an address of it.
pub setup_sockaddr-parsed :
    (K : Kernel) (family : ℕ) (ip bytes : List ℕ) (port : ℕ) (s : Proc)
    → (family ≡ af_inet) ⊎ (family ≡ af_inet6)
    → K.pton family ip ≡ parsed bytes
    → setup_sockaddr K family ip port s
      ≡ done (record { family = family; port = htons port; addr = bytes }) s
unfolding setup_sockaddr
setup_sockaddr-parsed K family ip bytes port s (inl e) text = rw (setup_sockaddr, text, e) refl
setup_sockaddr-parsed K family ip bytes port s (inr e) text = rw (setup_sockaddr, text, e) refl
