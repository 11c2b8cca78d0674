-- ===== src/Sink/Message/Control.antt =====
-- Which control messages `check_cmsg` of udp_sink.c accepts.
use network_testing.Common.{
  ℕ, ◌≤◌, ◌≡◌, refl, List, [], ◌∷◌, Bool, true, false, ◌&&◌, ◌||◌, not, if◌then◌else◌, ltb, ℤ, pos,
  is_nonzero, Bool-cases, inl, inr, arith,
}
use network_testing.Kernel.{Cmsg, Message, Proc, pure, exit, done, exited, exit_fail_sock}
use network_testing.Sink.Params.{SinkParams}
use network_testing.Sink.Message.{is_pktinfo, is_ttl, scan_cmsg, differs, check_cmsg}

-- Some message holds packet information.
unfoldable pub any_pktinfo : List Cmsg → Bool
any_pktinfo [] = false
any_pktinfo (c ∷ cs) = is_pktinfo c || any_pktinfo cs

-- The last of the values that stand in messages with a TTL, or `ttl`.
unfoldable pub last_ttl : List Cmsg → ℤ → ℤ
last_ttl [] ttl = ttl
last_ttl (c ∷ cs) ttl = last_ttl cs (if is_ttl c then c.value else ttl)

-- a flag of the parameters
abbrev pub flag : Bool → ℤ
flag b = if b then pos 1 else pos 0

-- the Boolean equality of two Booleans
abbrev pub same : Bool → Bool → Bool
same true b = b
same false b = not b

-- No message is of both kinds.
apart : (c : Cmsg) → is_pktinfo c ≡ true → is_ttl c ≡ false
apart c h = ground arith

or_true : (a b : Bool) → (a || (true || b)) ≡ true
or_true true b = refl
or_true false b = refl

scan_cmsg-finds :
    (cs : List Cmsg) (pktinfo : Bool) (ttl : ℤ)
    → scan_cmsg cs pktinfo ttl ≡ (pktinfo || any_pktinfo cs, last_ttl cs ttl)
unfolding scan_cmsg any_pktinfo last_ttl
scan_cmsg-finds [] true ttl = refl
scan_cmsg-finds [] false ttl = refl
scan_cmsg-finds (c ∷ cs) pktinfo ttl = elim (Bool-cases (is_pktinfo c)) [
  | inl info ↦
      rw (info, apart c info, or_true pktinfo (any_pktinfo cs)) (scan_cmsg-finds cs true ttl)
  | inr other ↦ rw other (scan_cmsg-finds cs pktinfo (if is_ttl c then c.value else ttl))
]

differs-flag : (t found : Bool) → differs (flag t) found ≡ not (same t found)
differs-flag true true = refl
differs-flag true false = refl
differs-flag false true = refl
differs-flag false false = refl

asked_flags :
    (t i : Bool)
    → (t || i) ≡ true
    → (not (is_nonzero (flag t)) && not (is_nonzero (flag i))) ≡ false
asked_flags true i h = refl
asked_flags false true h = refl
asked_flags false false h = cc

verdict :
    (x y : Bool) (s : Proc)
    → (if not x || not y then exit exit_fail_sock else pure tt) s
      ≡ (if x && y then done tt s else exited exit_fail_sock s)
verdict true true s = refl
verdict true false s = refl
verdict false y s = refl

-- Where control data was asked for, and the kernel reports no more of it than there is room for,
-- `check_cmsg` accepts exactly the messages with a TTL other than 0 if, and only if, a TTL was
-- asked for, and with packet information if, and only if, that was; at any other it ends the
-- program with EXIT_FAIL_SOCK.
pub check_cmsg-accepts :
    (m : Message) (p : SinkParams) (max_len : ℕ) (t i : Bool) (s : Proc)
    → p.recv_ttl ≡ flag t
    → p.recv_pktinfo ≡ flag i
    → (t || i) ≡ true
    → m.controllen ≤ max_len
    → check_cmsg m p max_len s ≡ (
        if same t (is_nonzero (last_ttl m.control (pos 0))) && same i (any_pktinfo m.control)
        then done tt s
        else exited exit_fail_sock s)
unfolding check_cmsg
check_cmsg-accepts m p max_len t i s ttl info asked room =
    let within : ltb max_len m.controllen ≡ false = ground arith in
    rw
      (
        ttl,
        info,
        asked_flags t i asked,
        within,
        scan_cmsg-finds m.control false (pos 0),
        differs-flag t (is_nonzero (last_ttl m.control (pos 0))),
        differs-flag i (any_pktinfo m.control),
      )
      (verdict (same t (is_nonzero (last_ttl m.control (pos 0)))) (same i (any_pktinfo m.control))
        s)
