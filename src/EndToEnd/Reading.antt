-- ===== src/EndToEnd/Reading.antt =====
-- What udp_sink reads in the buffers that udp_flood stamps.
use network_testing.Common.{
  ℕ, zero, suc, ◌+◌, ◌*◌, ◌/◌, ◌%◌, ◌^◌, ◌<◌, ◌≡◌, refl, ap, List, length, map, arith,
}
use network_testing.Kernel.{Kernel, Mem}
use network_testing.Pktgen.{PktgenHdr, hdr_size}
use network_testing.Pktgen.Layout.{hdr_of-congr}
use network_testing.Sink.Check.Flat.{headers}
use network_testing.Flood.Fill.Content.{copies, stamped_buffer, headers-stamped_buffer}
use network_testing.Flood.Send.Counts.{buffers}
use network_testing.EndToEnd.Stream.{stamps}

pub headers-congr :
    (k : ℕ) (f g : Mem) → ((j : ℕ) → j < hdr_size * k → f j ≡ g j) → headers k f ≡ headers k g
unfolding headers
headers-congr zero f g e = refl
headers-congr (suc k) f g e =
    rw
      (
        hdr_of-congr f g (λ j h. e j (omega arith)),
        headers-congr k (λ j. f (hdr_size + j)) (λ j. g (hdr_size + j))
            (λ j h. e (hdr_size + j) (omega arith)),
      )
      refl

-- What the sink reads in a buffer.
abbrev pub read : ℕ → Mem → List PktgenHdr
read len m = headers (len / hdr_size) m

pub length-buffers : (F : Kernel) (len n t seq : ℕ) (m : Mem) → length (buffers F len n t seq m) ≡ n
unfolding buffers
length-buffers F len zero t seq m = refl
length-buffers F len (suc n) t seq m =
    ap suc (length-buffers F len n (t + 1 + 1) ((seq + 1) % 2 ^ 32) (stamped_buffer F len t seq m))

-- The buffers of a flood are read as the stamps that it made.
pub buffers-read :
    (F : Kernel) (len n t seq : ℕ) (m : Mem)
    → seq < 2 ^ 32
    → map (read len) (buffers F len n t seq m) ≡ map (copies (len / hdr_size)) (stamps F n t seq)
unfolding buffers stamps
buffers-read F len zero t seq m small = refl
buffers-read F len (suc n) t seq m small =
    let m' = stamped_buffer F len t seq m in
    rw
      (
        headers-stamped_buffer F len t seq m m' small (λ j h. refl),
        buffers-read F len n (t + 1 + 1) ((seq + 1) % 2 ^ 32) m' (omega arith),
      )
      refl
