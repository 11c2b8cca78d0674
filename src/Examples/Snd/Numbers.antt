-- ===== src/Examples/Snd/Numbers.antt =====
-- udp_snd.c: which packets are sent.
use network_testing.Common.{
  ℕ, zero, suc, ◌+◌, ◌%◌, ◌^◌, ◌≤◌, ◌<◌, arith, ◌≡◌, refl, List, [], ◌∷◌, some, ℤ, pos, negsuc,
}
use network_testing.Kernel.{
  Kernel, Run, Pton, ret, Mem, Sockaddr, parsed, malformed, unsupported, Call, Proc, done, after,
}
use network_testing.Socket.{htons}
use network_testing.Pktgen.{word, byte, memcpy}
use network_testing.Examples.Snd.{
  SndParams, SndOpt, default_snd, parse_snd_opts, snd_rounds, buffer_of_ones, set_discover,
  snd_addr, snd_loop, transmit, snd_main,
}

-- A packet whose first four bytes are the number, with ones behind them up to its size.
pub record IsPacket (i size : ℕ) (m : Mem) : Type 0 where
  pub number : word (m 0) (m 1) (m 2) (m 3) ≡ i
  pub least : 100 ≤ size
  pub most : size < 300
  pub ones : (a : ℕ) → 4 ≤ a → a < size → m a ≡ 1

-- Of the calls made, the latest first: behind `rest`, the packets `first`, … were sent, `n` of them.
unfoldable pub Numbered : ℕ → ℕ → ℕ → List Call → List Call → Type 0
Numbered fd first zero rest calls = calls ≡ rest
Numbered fd first (suc n) rest calls =
    (m : Mem) × (size : ℕ) × (before : List Call) × (calls ≡ Call.send fd m (pos size) ∷ before)
    × IsPacket (first + n) size m
    × Numbered fd first n rest before

-- A packet in front of the others.
Numbered-first :
    (fd i n size : ℕ) (m : Mem) (rest calls : List Call)
    → IsPacket i size m
    → Numbered fd (i + 1) n (Call.send fd m (pos size) ∷ rest) calls
    → Numbered fd i (suc n) rest calls
unfolding Numbered
Numbered-first fd i zero size m rest calls p h =
    let e : i + 0 ≡ i = omega arith in (m, size, rest, h, rw e p, refl)
Numbered-first fd i (suc n) size m rest calls p (m', size', before, e, q, h) =
    let number : i + suc n ≡ i + 1 + n = omega arith in
    (m', size', before, e, rw number q, Numbered-first fd i n size m rest before p h)

module _ (K : Kernel) (rand : ℕ → ℕ) where
  HasOnes : Mem → Type 0
  HasOnes m = (a : ℕ) → 4 ≤ a → a < 1400 → m a ≡ 1

  memcpy-HasOnes : (i : ℕ) (m : Mem) → HasOnes m → HasOnes (memcpy m 0 (byte i) 4)
  unfolding memcpy HasOnes
  memcpy-HasOnes i m h a low high = ground (arith, h a low high)

  packet :
      (i : ℕ) (m : Mem)
      → i < 2 ^ 32
      → HasOnes m
      → IsPacket i (100 + rand i % 200) (memcpy m 0 (byte i) 4)
  unfolding memcpy HasOnes
  packet i m small h = record {
    number = ground arith;
    least = omega arith;
    most = omega arith;
    ones = λ a low high. ground (arith, h a low (omega arith));
  }

  snd_loop-numbers :
      (n i fd : ℕ) (m : Mem) (s : Proc)
      → i + n ≤ 2 ^ 32
      → HasOnes m
      → (t : Proc) × (snd_loop K rand n i fd m s ≡ done tt t) × Numbered fd i n s.calls t.calls
  unfolding snd_loop Numbered
  snd_loop-numbers zero i fd m s small h = (s, refl, refl)
  snd_loop-numbers (suc n) i fd m s small h =
      let m' = memcpy m 0 (byte i) 4 in
      let size = 100 + rand i % 200 in
      let (t, run, sent) =
        snd_loop-numbers n (i + 1) fd m' (after (Call.send fd m' (pos size)) s) (omega arith)
          (memcpy-HasOnes i m h) in
      (t, run, Numbered-first fd i n size m' s.calls t.calls (packet i m (omega arith) h) sent)

  set_discover-done :
      (fd : ℕ) (d : ℤ) (s : Proc) → (t : Proc) × (set_discover K rand fd d s ≡ done tt t)
  unfolding set_discover
  set_discover-done fd (negsuc zero) s = (_, refl)
  set_discover-done fd (negsuc (suc n)) s = (_, refl)
  set_discover-done fd (pos n) s = (_, refl)

  snd_addr-done :
      (family : ℕ) (host : List ℕ) (s : Proc)
      → (a : Sockaddr) × (snd_addr K rand family host s ≡ done a s)
  unfolding snd_addr
  snd_addr-done family host s = found (K.pton family host)
    where
      found :
          (r : Pton)
          → (a : Sockaddr) × (elim r as (λ _. Run Sockaddr) [
            | parsed bytes ↦ done (record { family = family; port = htons 9; addr = bytes }) s
            | malformed ↦ done (record { family = family; port = htons 9; addr = [] }) s
            | unsupported ↦ done (record { family = family; port = htons 9; addr = [] }) s
          ]
              ≡ done a s)
      found (parsed bytes) = (_, refl)
      found malformed = (_, refl)
      found unsupported = (_, refl)

  transmit-numbers :
      (n : ℕ) (p : SndParams) (host : List ℕ) (fd : ℕ) (s : Proc)
      → n ≤ 2 ^ 32
      → K.rc s.tick ≡ ret fd
      → (t : Proc) × (a : Sockaddr) × (before : List Call) × (transmit K rand n p host s ≡ done 0 t)
        × Numbered fd 0 n (Call.connect fd a ∷ before) t.calls
  unfolding transmit HasOnes
  transmit-numbers n p host fd s small made =
      let (s1, set) = set_discover-done fd p.discover (after (Call.socket p.family 2 0) s) in
      let (a, named) = snd_addr-done p.family host s1 in
      let (t, run, sent) =
        snd_loop-numbers n 0 fd buffer_of_ones (after (Call.connect fd a) s1) (omega arith)
          (λ b low high. ground arith) in
      (t, a, s1.calls, rw (transmit, made, set, named, run) refl, sent)

  -- Where a host is given and the socket can be made, udp_snd ends with 0, and has sent, behind
  -- `connect`, 655360000 packets in the order of their numbers: each has its
  -- number in its first four bytes, ones behind it, and 100 to 299 bytes.
  pub snd_main-numbers :
      (opts : List SndOpt) (host : List ℕ) (fd : ℕ) (s : Proc)
      → (parse_snd_opts opts default_snd).host ≡ some host
      → K.rc s.tick ≡ ret fd
      → (t : Proc) × (a : Sockaddr) × (before : List Call) × (snd_main K rand opts s ≡ done 0 t)
        × Numbered fd 0 snd_rounds (Call.connect fd a ∷ before) t.calls
  unfolding snd_main
  snd_main-numbers opts host fd s given made =
      let p = parse_snd_opts opts default_snd in
      let (t, a, before, run, sent) = transmit-numbers snd_rounds p host fd s (omega arith) made in
      (t, a, before, rw (snd_main, given, run) refl, sent)
