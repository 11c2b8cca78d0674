-- ===== src/Examples/Snd.antt =====
-- udp_snd.c: packets of random sizes, each with its number in front.
pub mod Numbers
use network_testing.Common.{
  ℕ, zero, suc, ◌+◌, ◌%◌, ◌==◌, ltb, Bool, true, false, if◌then◌else◌, List, [], ◌∷◌, Option, none,
  some, ℤ, pos, negsuc,
}
use network_testing.Kernel.{
  Kernel, ret, err, Mem, Sockaddr, parsed, malformed, unsupported, Call, M, pure, exit, ask, ◌>>=◌,
  ◌>>◌, af_inet, af_inet6,
}
use network_testing.Socket.{htons}
use network_testing.Pktgen.{byte, memcpy}

-- What the options set.
pub record SndParams : Type 0 where
  pub host : Option (List ℕ)
  pub family : ℕ
  pub discover : ℤ

abbrev pub default_snd : SndParams
default_snd = record { host = none; family = af_inet6; discover = negsuc 0 }

-- One result of `getopt`; an unknown option has no effect.
pub data SndOpt : Type 0 where
  snd_host : List ℕ → SndOpt
  snd_ipv4 snd_unknown : SndOpt
  snd_discover : ℤ → SndOpt

unfoldable pub parse_snd_opts : List SndOpt → SndParams → SndParams
parse_snd_opts [] p = p
parse_snd_opts (snd_host h ∷ os) p = parse_snd_opts os (record p { host = some h })
parse_snd_opts (snd_ipv4 ∷ os) p = parse_snd_opts os (record p { family = af_inet })
parse_snd_opts (snd_discover d ∷ os) p = parse_snd_opts os (record p { discover = d })
parse_snd_opts (snd_unknown ∷ os) p = parse_snd_opts os p

-- `memset(buffer, 1, 1400)`, of a buffer of zeros
abbrev pub buffer_of_ones : Mem
buffer_of_ones a = if ltb a 1400 then 1 else 0

-- The rounds of the loop of `main`.
abbrev pub snd_rounds : ℕ
snd_rounds = 655_360_000

-- `rand i`, from 0 on, is what the `i`-th call of `rand` returned.
module _ (K : Kernel) (rand : ℕ → ℕ) where
  -- `for (i = 0; i < 655360000; i++)`, with the rounds left. `send` is not checked.
  pub snd_loop : ℕ → ℕ → ℕ → Mem → M (Unit {0})
  unfolding memcpy
  snd_loop zero i fd buffer = pure tt
  snd_loop (suc n) i fd buffer = do
    let buffer' = memcpy buffer 0 (byte i) 4
    _ ← ask K.rc (Call.send fd buffer' (pos (100 + rand i % 200)))
    snd_loop n (i + 1) fd buffer'

  -- IP_MTU_DISCOVER, unless the option is -1. `setsockopt` is not checked.
  unfoldable pub set_discover : ℕ → ℤ → M (Unit {0})
  set_discover fd (negsuc zero) = pure tt
  set_discover fd (negsuc (suc n)) = do _ ← ask K.rc (Call.setsockopt fd 0 10); pure tt
  set_discover fd (pos n) = do _ ← ask K.rc (Call.setsockopt fd 0 10); pure tt

  -- `addr`. A text that is no address leaves zeros, written as no bytes.
  unfoldable pub snd_addr : ℕ → List ℕ → M Sockaddr
  snd_addr family host s = elim (K.pton family host) [
    | parsed bytes ↦ pure (record { family = family; port = htons 9; addr = bytes }) s
    | malformed ↦ pure (record { family = family; port = htons 9; addr = [] }) s
    | unsupported ↦ pure (record { family = family; port = htons 9; addr = [] }) s
  ]

  -- `main` behind the options, with the rounds of its loop. `connect` is not checked.
  unfoldable pub transmit : ℕ → SndParams → List ℕ → M ℕ
  unfolding set_discover snd_addr snd_loop
  transmit rounds p host = do
    res ← ask K.rc (Call.socket p.family 2 0)
    elim res [
      | err _ ↦ exit 1
      | ret fd ↦ do
        set_discover fd p.discover
        a ← snd_addr p.family host
        _ ← ask K.rc (Call.connect fd a)
        snd_loop rounds 0 fd buffer_of_ones
        pure 0
    ]

  unfoldable pub snd_main : List SndOpt → M ℕ
  unfolding transmit parse_snd_opts
  snd_main opts = do
    let p = parse_snd_opts opts default_snd
    elim p.host [ none ↦ pure 2 | some host ↦ transmit snd_rounds p host ]
