-- ===== src/Flood/Main/Numbers.antt =====
-- The numbers of the packets that a flood of udp_flood.c sends.
pub mod Floods
pub mod Whole
use network_testing.Common.{
  ℕ, zero, suc, ◌+◌, ◌-◌, ◌*◌, ◌/◌, ◌%◌, ◌^◌, ◌≤◌, ◌<◌, ◌≡◌, refl, ap, ◌∙◌, sym, ◌⊎◌, inl, inr,
  true, false, Bool, Bool-cases, if◌then◌else◌, List, [], ◌∷◌, ◌++◌, pos_part, is_nonzero, arith,
}
use network_testing.Kernel.{Kernel, ret, Mem, Call, Proc, done, after, af_inet, af_inet6}
use network_testing.Pktgen.{PktgenHdr, hdr_size, hdr_of}
use network_testing.Pktgen.Layout.{IsHdr}
use network_testing.TimeBench.{TimeBench}
use network_testing.TimeBench.Clock.{IsWorking}
use network_testing.Sink.Check.Flat.{headers}
use network_testing.Getopt.{has_flag}
use network_testing.Flood.Params.{
  FloodParams, run_sendmsg, run_sendmmsg, run_sendto, run_write, run_send,
}
use network_testing.Flood.Fill.{stamp, stamp_time}
use network_testing.Flood.Fill.Content.{stamped_buffer, headers-stamped_buffer}
use network_testing.Flood.Sendmmsg.{flood_with_send_mmsg}
use network_testing.Flood.Send.{
  flood_with_send, flood_with_write, flood_with_sendto, flood_with_sendmsg,
}
use network_testing.Flood.Send.Counts.{
  buffers, after_sends, seq_after, AllSent, Sent, zeros, flood-sends, write-sends, sendto-sends,
  all_sent, send_results, sent_bytes,
}
use network_testing.Flood.Main.Ends.{started, counts-measured}
use network_testing.Flood.Main.{FloodFunc, time_function, run_flood, run_floods}

-- The number in the header at the front of a packet.
abbrev pub number_of : Mem → ℕ
number_of m = (hdr_of m).seq_num

-- The numbers of the packets among the calls, the latest first.
unfoldable pub numbers : List Call → List ℕ
numbers [] = []
numbers (Call.write fd m len ∷ calls) = number_of m ∷ numbers calls
numbers (Call.sendto fd m len a ∷ calls) = number_of m ∷ numbers calls
numbers (Call.sendmsg fd m len ∷ calls) = number_of m ∷ numbers calls
numbers (_ ∷ calls) = numbers calls

-- the `n` numbers from `first` on as 32-bit numbers, the last first, before `rest`
unfoldable pub count_down : (first n : ℕ) → List ℕ → List ℕ
count_down first zero rest = rest
count_down first (suc n) rest = (first + n) % 2 ^ 32 ∷ count_down first n rest

pub count_down-append :
    (first n m : ℕ) (rest : List ℕ)
    → count_down ((first + n) % 2 ^ 32) m (count_down first n rest) ≡ count_down first (n + m) rest
unfolding count_down
count_down-append first n zero rest = ap (λ k. count_down first k rest) (omega arith)
count_down-append first n (suc m) rest =
    let split : n + suc m ≡ suc (n + m) = omega arith in
    let number : ((first + n) % 2 ^ 32 + m) % 2 ^ 32 ≡ (first + (n + m)) % 2 ^ 32 = omega arith in
    rw (split, count_down, number, count_down-append first n m rest) refl

pub seq_after-mod : (n seq : ℕ) → seq < 2 ^ 32 → seq_after n seq ≡ (seq + n) % 2 ^ 32
unfolding seq_after
seq_after-mod zero seq small = omega arith
seq_after-mod (suc n) seq small = seq_after-mod n ((seq + 1) % 2 ^ 32) (omega arith) ∙ omega arith

number_of-stamped_buffer :
    (K : Kernel) (len t seq : ℕ) (m : Mem)
    → hdr_size ≤ len
    → seq < 2 ^ 32
    → number_of (stamped_buffer K len t seq m) ≡ seq
unfolding stamp headers
number_of-stamped_buffer K len t seq m whole small =
    let k = len / hdr_size - 1 in
    let some_header : len / hdr_size ≡ suc k = omega arith in
    let all =
      rw some_header at
        (headers-stamped_buffer K len t seq m (stamped_buffer K len t seq m) small (λ j h. refl)) in
    ap PktgenHdr.seq_num (first_header all)
  where
    first_header : {g h : PktgenHdr} {gs hs : List PktgenHdr} → (g ∷ gs) ≡ (h ∷ hs) → g ≡ h
    first_header e = cc

module _ (K : Kernel) (len : ℕ) (send : Mem → Call) (whole : hdr_size ≤ len)
    (carries : (m : Mem) (calls : List Call)
      → numbers (send m ∷ calls) ≡ number_of m ∷ numbers calls) where
  pub after_sends-numbers :
      (n t seq : ℕ) (m : Mem) (s : Proc)
      → seq < 2 ^ 32
      → numbers (after_sends send (buffers K len n t seq m) s).calls
        ≡ count_down seq n (numbers s.calls)
  unfolding buffers after_sends numbers count_down
  after_sends-numbers zero t seq m s small = refl
  after_sends-numbers (suc n) t seq m s small =
      let m' = stamped_buffer K len t seq m in
      let s' = after (send m') (after Call.clock_gettime s) in
      let number : number_of m' ≡ (seq + 0) % 2 ^ 32 =
        number_of-stamped_buffer K len t seq m whole small ∙ omega arith in
      let one_more : 1 + n ≡ suc n = omega arith in
      after_sends-numbers n (t + 1 + 1) ((seq + 1) % 2 ^ 32) m' s' (omega arith)
      ∙ ap (count_down ((seq + 1) % 2 ^ 32) n)
          (carries m' (Call.clock_gettime ∷ s.calls) ∙ ap (λ x. x ∷ numbers s.calls) number)
      ∙ count_down-append seq 1 n (numbers s.calls)
      ∙ ap (λ k. count_down seq k (numbers s.calls)) one_more
