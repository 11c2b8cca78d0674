-- ===== src/Sink/Check/Setup.antt =====
-- The checks of a packet change the statistics and `last`, and none of the settings.
use network_testing.Common.{
  ◌≡◌, refl, List, [], ◌∷◌, Bool, true, false, not, ◌+◌, ◌%◌, ◌^◌, ◌!=◌, ◌&&◌, if◌then◌else◌, pos,
  ltb_ℤ, is_nonzero,
}
use mathlib.Core.Path.{subst, sym, ◌∙◌}
use network_testing.Kernel.{Proc, done}
use network_testing.Pktgen.{PktgenHdr, pktgen_magic, htonl, hdr_eq}
use network_testing.Sink.Params.{Sink, SinkParams}
use network_testing.Sink.Check.{
  check_magic, check_order, check_sequence, is_behind, check_first, bump_bad_magic, bump_ooo,
  bump_bad_repeat,
}
use network_testing.Sink.Check.Flat.{check_repeats, check_headers, check_packet}
use network_testing.Sink.Message.Accept.{IsPlain}

-- the parameters without their statistics
abbrev pub settings : SinkParams → SinkParams
settings p = record p { ooo = 0; bad_magic = 0; bad_repeat = 0 }

abbrev SameSettings : Sink → Sink → Type 0
SameSettings s t = settings s.p ≡ settings t.p

bump_bad_magic-same : (b : Bool) (s : Sink) → SameSettings (bump_bad_magic b s) s
bump_bad_magic-same true s = refl
bump_bad_magic-same false s = refl

bump_ooo-same : (b : Bool) (s : Sink) → SameSettings (bump_ooo b s) s
bump_ooo-same true s = refl
bump_ooo-same false s = refl

bump_bad_repeat-same : (b : Bool) (s : Sink) → SameSettings (bump_bad_repeat b s) s
bump_bad_repeat-same true s = refl
bump_bad_repeat-same false s = refl

check_magic-same : (h : PktgenHdr) (s : Sink) → SameSettings (check_magic h s) s
unfolding check_magic
check_magic-same h s = bump_bad_magic-same (htonl h.pgh_magic != pktgen_magic) s

check_order-same : (h : PktgenHdr) (s : Sink) → SameSettings (check_order h s) s
unfolding check_order
check_order-same h s = bump_ooo-same (s.last.pgh_magic != 0 && is_behind h s.last) s

check_sequence-same : (h : PktgenHdr) (s : Sink) → SameSettings (check_sequence h s) s
unfolding check_sequence
check_sequence-same h s =
    bump_ooo-same
      (ltb_ℤ (pos 2) s.p.check
        && (s.last.pgh_magic != 0 && h.seq_num != (s.last.seq_num + 1) % 2 ^ 32))
      s

check_first-same : (h : PktgenHdr) (s : Sink) → SameSettings (check_first h s) s
unfolding check_first
check_first-same h s =
    check_sequence-same h (check_order h (check_magic h s))
    ∙ check_order-same h (check_magic h s)
    ∙ check_magic-same h s

check_repeats-same :
    (h : PktgenHdr) (hs : List PktgenHdr) (s : Sink) → SameSettings (check_repeats h hs s) s
unfolding check_repeats
check_repeats-same h [] s = refl
check_repeats-same h (g ∷ gs) s =
    check_repeats-same h gs (bump_bad_repeat (not (hdr_eq h g)) s)
    ∙ bump_bad_repeat-same (not (hdr_eq h g)) s

if-same :
    (b : Bool) (s t u : Sink)
    → SameSettings s u
    → SameSettings t u
    → SameSettings (if b then s else t) u
if-same true s t u e f = e
if-same false s t u e f = f

pub check_headers-same : (hs : List PktgenHdr) (s : Sink) → SameSettings (check_headers hs s) s
unfolding check_headers
check_headers-same [] s = refl
check_headers-same (h ∷ hs) s =
    if-same (ltb_ℤ s.p.check (pos 2)) (check_first h s) (check_repeats h hs (check_first h s)) s
      (check_first-same h s) (check_repeats-same h hs (check_first h s) ∙ check_first-same h s)

-- Headers are checked at level 1 or 2, which no mistake ends, and nothing else is asked for.
pub record IsChecking (p : SinkParams) : Type 0 where
  pub on : is_nonzero p.check ≡ true
  pub lenient : ltb_ℤ (pos 2) p.check ≡ false
  pub recv_ttl : is_nonzero p.recv_ttl ≡ false
  pub recv_pktinfo : is_nonzero p.recv_pktinfo ≡ false
  pub any_sender : p.sender_addr.family ≡ 0

to_settings : (p : SinkParams) → IsChecking p → IsChecking (settings p)
to_settings p v = record {
  on = v.on;
  lenient = v.lenient;
  recv_ttl = v.recv_ttl;
  recv_pktinfo = v.recv_pktinfo;
  any_sender = v.any_sender;
}

of_settings : (p : SinkParams) → IsChecking (settings p) → IsChecking p
of_settings p v = record {
  on = v.on;
  lenient = v.lenient;
  recv_ttl = v.recv_ttl;
  recv_pktinfo = v.recv_pktinfo;
  any_sender = v.any_sender;
}

pub check_headers-IsChecking :
    (hs : List PktgenHdr) (s : Sink) → IsChecking s.p → IsChecking (check_headers hs s).p
check_headers-IsChecking hs s v =
    of_settings _ (subst IsChecking (sym (check_headers-same hs s)) (to_settings s.p v))

pub IsChecking-IsPlain : {p : SinkParams} → IsChecking p → IsPlain p
IsChecking-IsPlain v = record {
  recv_ttl = v.recv_ttl;
  recv_pktinfo = v.recv_pktinfo;
  any_sender = v.any_sender;
}

-- Such a check never ends the program.
pub check_packet-lenient :
    (hs : List PktgenHdr) (s : Sink) (t : Proc)
    → IsChecking s.p
    → check_packet hs s t ≡ done (check_headers hs s) t
unfolding check_packet
check_packet-lenient hs s t v = let w = check_headers-IsChecking hs s v in rw (v.on, w.lenient)
