-- ===== src/Tcp/Client/Retries.antt =====
-- How often `connect_retries` of tcp_sink_client.c tries.
use network_testing.Common.{
  ℕ, zero, suc, ◌+◌, ◌≤◌, ◌≡◌, ◌≢◌, Bool-cases, ◌-◌, refl, inl, inr, ◌⊎◌, false, ◌==◌,
  if◌then◌else◌, pos, arith,
}
use network_testing.Kernel.{
  Kernel, Sockaddr, Rc, ret, err, Call, Proc, done, exited, after, exit_fail_sock,
  exit_fail_reuseport, af_inet, af_inet6,
}
use network_testing.Kernel.Laws.{after_calls}
use network_testing.Socket.Wrappers.{sockaddr_len-inet}
use network_testing.Tcp.Client.{eaddrnotavail, econnreset, connect_failed, retry, connect_retries}

-- The `n` calls from the `t`-th on find that no address is available.
unfoldable pub AllBusy : Kernel → ℕ → ℕ → Type 0
AllBusy K zero t = Unit {0}
AllBusy K (suc n) t = (K.rc t ≡ err eaddrnotavail) × AllBusy K n (t + 1)

-- The exit code at the error `e` of a call that has `left` retries behind it.
abbrev pub fail_code : ℕ → ℕ → ℕ
fail_code zero e = exit_fail_sock
fail_code (suc left) e = if e == econnreset then exit_fail_reuseport else exit_fail_sock

now : (K : Kernel) (t : ℕ) {r : Rc} → K.rc (t + 0) ≡ r → K.rc t ≡ r
now K t h = let e : t + 0 ≡ t = omega arith in rw e at h

next : (K : Kernel) (t n : ℕ) {r : Rc} → K.rc (t + suc n) ≡ r → K.rc (t + 1 + n) ≡ r
next K t n h = let e : t + suc n ≡ t + 1 + n = omega arith in rw e at h

last_left :
    {e : ℕ} (left n : ℕ)
    → (suc n ≡ suc left) ⊎ (e ≢ eaddrnotavail)
    → (n ≡ left) ⊎ (e ≢ eaddrnotavail)
last_left left n (inl h) = inl (omega arith)
last_left left n (inr h) = inr h

module _ (K : Kernel) (fd : ℕ) (a : Sockaddr)
    (family : (a.family ≡ af_inet) ⊎ (a.family ≡ af_inet6)) where
  retry-connects :
      (left n k : ℕ) (s : Proc)
      → n ≤ left
      → AllBusy K n s.tick
      → K.rc (s.tick + n) ≡ ret k
      → retry K left fd a s ≡ done k (after_calls (Call.connect fd a) (suc n) s)
  unfolding retry AllBusy after_calls
  retry-connects zero zero k s enough busy came =
      let (l, len) = sockaddr_len-inet a family in rw (len, now K s.tick came) refl
  retry-connects (suc left) zero k s enough busy came =
      let (l, len) = sockaddr_len-inet a family in rw (len, retry, now K s.tick came) refl
  retry-connects zero (suc n) k s enough busy came = ground arith
  retry-connects (suc left) (suc n) k s enough (e, busy) came =
      let (l, len) = sockaddr_len-inet a family in
      rw (len, retry, e)
        (retry-connects left n k (after (Call.connect fd a) s) (omega arith) busy
          (next K s.tick n came))

  connect_failed-eq :
      (left e : ℕ) (s : Proc)
      → connect_failed K fd e s ≡ exited (fail_code (suc left) e) (after (Call.close fd) s)
  unfolding connect_failed
  connect_failed-eq left e s = elim (Bool-cases (e == econnreset)) [
    | inl reset ↦ rw reset refl
    | inr other ↦ rw other refl
  ]

  retry-fails :
      (left n e : ℕ) (s : Proc)
      → n ≤ left
      → AllBusy K n s.tick
      → K.rc (s.tick + n) ≡ err e
      → (n ≡ left) ⊎ (e ≢ eaddrnotavail)
      → retry K left fd a s
        ≡ exited
            (fail_code (left - n) e)
            (after (Call.close fd) (after_calls (Call.connect fd a) (suc n) s))
  unfolding retry AllBusy after_calls
  retry-fails zero zero e s enough busy failed last =
      let (l, len) = sockaddr_len-inet a family in rw (len, now K s.tick failed) refl
  retry-fails (suc left) zero e s enough busy failed (inl last) = ground arith
  retry-fails (suc left) zero e s enough busy failed (inr other) =
      let (l, len) = sockaddr_len-inet a family in
      let different : (e == eaddrnotavail) ≡ false = ground arith in
      let before : suc left - 0 ≡ suc left = omega arith in
      rw (len, retry, now K s.tick failed, different, before)
        (connect_failed-eq left e (after (Call.connect fd a) s))
  retry-fails zero (suc n) e s enough busy failed last = ground arith
  retry-fails (suc left) (suc n) e s enough (b, busy) failed last =
      let (l, len) = sockaddr_len-inet a family in
      let before : suc left - suc n ≡ left - n = omega arith in
      rw (len, retry, b, before)
        (retry-fails left n e (after (Call.connect fd a) s) (omega arith) busy
          (next K s.tick n failed) (last_left left n last))

  -- The busy address is tried again, up to `max_retries` times: if the `n`-th further attempt
  -- succeeds, `connect_retries` returns its result.
  pub connect_retries-connects :
      (max_retries n k : ℕ) (s : Proc)
      → n ≤ max_retries
      → AllBusy K n s.tick
      → K.rc (s.tick + n) ≡ ret k
      → connect_retries K fd a (pos max_retries) s
        ≡ done k (after_calls (Call.connect fd a) (suc n) s)
  unfolding connect_retries
  connect_retries-connects max_retries = retry-connects max_retries

  -- If the retries are used up, or an attempt fails for another reason, `connect_retries` closes the
  -- socket and exits: with EXIT_FAIL_REUSEPORT if the connection was reset before the last attempt,
  -- and with EXIT_FAIL_SOCK otherwise.
  pub connect_retries-fails :
      (max_retries n e : ℕ) (s : Proc)
      → n ≤ max_retries
      → AllBusy K n s.tick
      → K.rc (s.tick + n) ≡ err e
      → (n ≡ max_retries) ⊎ (e ≢ eaddrnotavail)
      → connect_retries K fd a (pos max_retries) s
        ≡ exited
            (fail_code (max_retries - n) e)
            (after (Call.close fd) (after_calls (Call.connect fd a) (suc n) s))
  unfolding connect_retries
  connect_retries-fails max_retries = retry-fails max_retries
