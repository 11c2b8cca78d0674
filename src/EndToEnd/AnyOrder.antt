-- ===== src/EndToEnd/AnyOrder.antt =====
-- A flood of which the network loses, repeats and reorders packets as it likes.
pub mod Arrives
use network_testing.Common.{
  ℕ, zero, suc, ◌+◌, ◌-◌, ◌*◌, ◌/◌, ◌%◌, ◌^◌, ◌≤◌, ◌<◌, ◌≡◌, ◌≢◌, refl, ap, ◌∙◌, sym, inl, inr,
  List, [], ◌∷◌, true, false, ◌&&◌, ◌!=◌, map, arith, get_or, length, ltb, lt→ltb, le→ltb_false,
  dec_lt, if◌then◌else◌, ltb_ℤ, pos, pos_part, is_nonzero,
}
use network_testing.Kernel.{Kernel, Mem, Timespec, Call, Proc, done, ret, after}
use network_testing.Kernel.Laws.{after_calls}
use network_testing.Pktgen.{PktgenHdr, hdr_size, pktgen_magic, htonl, zero_hdr}
use network_testing.TimeBench.{TimeBench}
use network_testing.Sink.Params.{Sink}
use network_testing.Sink.Check.{Iov, is_behind}
use network_testing.Sink.Check.Flat.{payload}
use network_testing.Sink.Check.Setup.{IsChecking}
use network_testing.Sink.Message.{bucket_size}
use network_testing.Sink.Receive.{recv_flags}
use network_testing.Sink.Receive.Counts.{replies, received, returned, empty_queue, all_served}
use network_testing.Sink.Recvmsg.{msg_iov, sink_with_recvmsg}
use network_testing.Sink.Recvmsg.Counts.{packets, check_stream, AllFit, recvmsg-checks}
use network_testing.Flood.Fill.{stamp, stamp_time}
use network_testing.Flood.Fill.Content.{copies}
use network_testing.Flood.Send.Counts.{buffers, zeros}
use network_testing.EndToEnd.Stream.{stamps, IsSteady}
use network_testing.EndToEnd.Reading.{read, headers-congr, buffers-read}
use network_testing.EndToEnd.Order.{behind_count, AllMagic, check_stream-behind_count}

-- The header that the `i`-th packet of a flood is stamped with, as long as the numbers do not wrap.
abbrev pub header_at : Kernel → ℕ → ℕ → ℕ → PktgenHdr
header_at F t seq i = stamp (stamp_time F (t + 2 * i)) (seq + i)

-- The packets with a smaller number than the one received before them.
unfoldable pub descents : ℕ → List ℕ → ℕ
descents last [] = 0
descents last (i ∷ is) = (if ltb i last then 1 else 0) + descents i is

-- All numbers are below `n`.
abbrev pub AllBelow : ℕ → List ℕ → Type 0
AllBelow n [] = Unit {0}
AllBelow n (i ∷ is) = (i < n) × AllBelow n is

abbrev nanoseconds : Timespec → ℕ
nanoseconds ts = ts.sec * 1_000_000_000 + ts.nsec

-- A time whose seconds fit 32 bits.
abbrev IsTime : Timespec → Type 0
IsTime ts = (ts.sec < 2 ^ 32) × (ts.nsec < 1_000_000_000)

is_behind-stamp_lt :
    (a b : Timespec) (m n : ℕ)
    → IsTime a
    → IsTime b
    → nanoseconds a ≤ nanoseconds b
    → m < n
    → n < 3_000_000_000
    → is_behind (stamp a m) (stamp b n) ≡ true
unfolding is_behind stamp
is_behind-stamp_lt a b m n va vb le lt small = ground arith

is_behind-stamp_ge :
    (a b : Timespec) (m n : ℕ)
    → IsTime a
    → IsTime b
    → nanoseconds b ≤ nanoseconds a
    → n ≤ m
    → is_behind (stamp a m) (stamp b n) ≡ false
unfolding is_behind stamp
is_behind-stamp_ge a b m n va vb le ge = ground arith

module _ (F : Kernel) (t seq : ℕ) (steady : IsSteady F) where
  time_at : ℕ → ℕ
  time_at i = nanoseconds (stamp_time F (t + 2 * i))

  time_at-step : (i : ℕ) → time_at i ≤ time_at (suc i)
  unfolding time_at
  time_at-step i =
      let e : t + 2 * i + 1 + 1 ≡ t + 2 * suc i = omega arith in
      let forward = steady.forward (t + 2 * i) in
      omega (arith, rw e at forward, steady.nsec (t + 2 * i))

  time_at_mono : (i d : ℕ) → time_at i ≤ time_at (d + i)
  time_at_mono i zero = let e : 0 + i ≡ i = omega arith in rw e (omega arith)
  time_at_mono i (suc d) =
      let e : suc d + i ≡ suc (d + i) = omega arith in
      rw e (omega (arith, time_at_mono i d, time_at-step (d + i)))

  time_at-le : (i j : ℕ) → i ≤ j → time_at i ≤ time_at j
  time_at-le i j h = let e : j - i + i ≡ j = omega arith in rw e at (time_at_mono i (j - i))

  is_time : (i : ℕ) → IsTime (stamp_time F (t + 2 * i))
  is_time i = (steady.sec (t + 2 * i), steady.nsec (t + 2 * i))

  -- A packet is behind exactly the packets with a larger number.
  is_behind-ltb :
      (i j : ℕ)
      → seq + j < 3_000_000_000
      → is_behind (header_at F t seq i) (header_at F t seq j) ≡ ltb i j
  unfolding time_at
  is_behind-ltb i j small = elim (dec_lt i j) [
    | yes lt ↦
        is_behind-stamp_lt (stamp_time F (t + 2 * i)) (stamp_time F (t + 2 * j)) (seq + i) (seq + j)
          (is_time i) (is_time j) (time_at-le i j (omega arith)) (omega arith) small
        ∙ sym (lt→ltb i j lt)
    | no ge ↦
        is_behind-stamp_ge (stamp_time F (t + 2 * i)) (stamp_time F (t + 2 * j)) (seq + i) (seq + j)
          (is_time i) (is_time j) (time_at-le j i (omega arith)) (omega arith)
        ∙ sym (le→ltb_false i j (omega arith))
  ]

  seen-header_at : (i : ℕ) → ((header_at F t seq i).pgh_magic != 0) ≡ true
  unfolding stamp htonl
  seen-header_at i = refl

  pub AllMagic-header_at : (is : List ℕ) → AllMagic (map (header_at F t seq) is)
  unfolding stamp
  AllMagic-header_at [] = tt
  AllMagic-header_at (i ∷ is) = (refl, AllMagic-header_at is)

  pub behind_count-descents :
      (n i : ℕ) (is : List ℕ)
      → seq + n ≤ 3_000_000_000
      → i < n
      → AllBelow n is
      → behind_count (header_at F t seq i) (map (header_at F t seq) is) ≡ descents i is
  unfolding behind_count descents
  behind_count-descents n i [] small low all = refl
  behind_count-descents n i (j ∷ is) small low (low', all) =
      rw
        (
          seen-header_at i,
          is_behind-ltb j i (omega arith),
          behind_count-descents n j is small low' all,
        )
        refl
