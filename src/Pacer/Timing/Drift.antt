-- ===== src/Pacer/Timing/Drift.antt =====
-- The deadlines of udp_pacer.c, and what `calcdiff` measures.
use network_testing.Common.{
  ℕ, zero, suc, ◌+◌, ◌-◌, ◌*◌, ◌/◌, ◌%◌, ◌^◌, ◌≤◌, ◌<◌, ◌≡◌, refl, ◌∙◌, ap, ◌+ℤ◌, ◌-ℤ◌, ◌*ℤ◌,
  quot_ℤ, to_i64, leb, Bool-cases, inl, inr, some, ℤ, pos, arith,
}
use mathlib.Core.Path.{sym}
use network_testing.Kernel.{Timespec}
use network_testing.Pacer.Timing.{
  int_of, nsec_per_sec, tsnorm_loop, tsnorm, interval_of, add_interval, calcdiff,
}

-- the nanoseconds of a time, however they are split
abbrev pub nanoseconds : Timespec → ℕ
nanoseconds t = t.sec * 1_000_000_000 + t.nsec

-- The split that the kernel asks for.
abbrev pub normal : ℕ → Timespec
normal ns = record { sec = ns / 1_000_000_000; nsec = ns % 1_000_000_000 }

normal-within : (ts : Timespec) → ts.nsec < 1_000_000_000 → normal (nanoseconds ts) ≡ ts
normal-within ts h =
    let sec : nanoseconds ts / 1_000_000_000 ≡ ts.sec = omega arith in
    let nsec : nanoseconds ts % 1_000_000_000 ≡ ts.nsec = omega arith in rw (sec, nsec) refl

tsnorm_loop-eq :
    (fuel : ℕ) (ts : Timespec)
    → ts.nsec / 1_000_000_000 < fuel
    → tsnorm_loop fuel ts ≡ some (normal (nanoseconds ts))
unfolding tsnorm_loop
tsnorm_loop-eq zero ts h = ground arith
tsnorm_loop-eq (suc fuel) ts h = elim (Bool-cases (leb nsec_per_sec ts.nsec)) [
  | inl over ↦
      let enough : (ts.nsec - 1_000_000_000) / 1_000_000_000 < fuel = ground arith in
      let same : (ts.sec + 1) * 1_000_000_000 + (ts.nsec - 1_000_000_000) ≡ nanoseconds ts =
        ground arith in
      rw
        (
          over,
          tsnorm_loop,
          tsnorm_loop-eq fuel (record { sec = ts.sec + 1; nsec = ts.nsec - nsec_per_sec }) enough,
        )
        (ap (λ x. some (normal x)) same)
  | inr within ↦ rw (within, tsnorm_loop) (ap some (sym (normal-within ts (ground arith))))
]

-- `tsnorm` ends within its rounds, and splits the same number of nanoseconds anew.
pub tsnorm-normal : (ts : Timespec) → tsnorm ts ≡ some (normal (nanoseconds ts))
unfolding tsnorm
tsnorm-normal ts = tsnorm_loop-eq (ts.nsec / nsec_per_sec + 1) ts (omega arith)

interval-nanoseconds : (usec : ℕ) → nanoseconds (interval_of usec) ≡ usec * 1000
unfolding interval_of
interval-nanoseconds usec = omega arith

pub add_interval-normal :
    (next : Timespec) (usec : ℕ)
    → add_interval next (interval_of usec) ≡ some (normal (nanoseconds next + usec * 1000))
unfolding add_interval
add_interval-normal next usec =
    let interval = interval_of usec in
    let sum : nanoseconds
          (record { sec = next.sec + interval.sec; nsec = next.nsec + interval.nsec })
        ≡ nanoseconds next + usec * 1000 =
      omega (arith, interval-nanoseconds usec) in
    rw (tsnorm-normal (record { sec = next.sec + interval.sec; nsec = next.nsec + interval.nsec }))
      (ap (λ x. some (normal x)) sum)

nanoseconds-normal : (ns : ℕ) → nanoseconds (normal ns) ≡ ns
nanoseconds-normal ns = omega arith

-- The `k`-th deadline of a timer that started at `start`, of intervals of `usec` microseconds.
abbrev pub deadline : (start usec k : ℕ) → Timespec
deadline start usec k = normal (start + k * (usec * 1000))

-- Moved on by the interval, each is followed by the next.
pub add_interval-deadline :
    (start usec k : ℕ)
    → add_interval (deadline start usec k) (interval_of usec) ≡ some (deadline start usec (k + 1))
add_interval-deadline start usec k =
    let ns = start + k * (usec * 1000) in
    let next : nanoseconds (normal ns) + usec * 1000 ≡ start + (k + 1) * (usec * 1000) =
      omega (arith, nanoseconds-normal ns) in
    add_interval-normal (normal ns) usec ∙ ap (λ x. some (normal x)) next

int_of-small : (n : ℕ) → n < 2 ^ 31 → int_of n ≡ pos n
int_of-small n h = ground arith

to_i64-small : (n : ℕ) → n < 2 ^ 63 → to_i64 (pos n) ≡ pos n
to_i64-small n h = ground arith

sub-up : (a b : ℕ) → b ≤ a → pos a -ℤ pos b ≡ pos (a - b)
unfolding ◌-ℤ◌
sub-up a b h = ground arith

micros : ℕ → ℕ → ℕ → ℤ
micros s a b = pos 1_000_000 *ℤ pos s +ℤ quot_ℤ (pos a -ℤ pos b) 1000

micros-up : (s a b : ℕ) → b ≤ a → micros s a b ≡ pos (1_000_000 * s + (a - b) / 1000)
unfolding micros ◌+ℤ◌ ◌-ℤ◌ ◌*ℤ◌
micros-up s a b h = ground arith

micros-down :
    (s a b : ℕ)
    → a < b
    → (b - a) / 1000 ≤ 1_000_000 * s
    → micros s a b ≡ pos (1_000_000 * s - (b - a) / 1000)
unfolding micros ◌+ℤ◌ ◌-ℤ◌ ◌*ℤ◌
micros-down s a b h enough = ground arith

-- Of two normal times, `calcdiff` gives the microseconds from the earlier to the later, rounded up
-- or down by less than one.
pub calcdiff-microseconds :
    (t1 t2 : Timespec)
    → t1.sec < 2 ^ 31
    → t1.nsec < 1_000_000_000
    → t2.nsec < 1_000_000_000
    → nanoseconds t2 ≤ nanoseconds t1
    → (d : ℕ) × (calcdiff t1 t2 ≡ pos d)
      × (d * 1000 < nanoseconds t1 - nanoseconds t2 + 1000)
      × (nanoseconds t1 - nanoseconds t2 < d * 1000 + 1000)
unfolding calcdiff micros
calcdiff-microseconds t1 t2 s1 n1 n2 later =
    let s = t1.sec - t2.sec in
    let a = t1.nsec in
    let b = t2.nsec in
    let order : t2.sec ≤ t1.sec = omega arith in
    rw
      (
        int_of-small t1.sec s1,
        int_of-small t2.sec (omega arith),
        int_of-small a (omega arith),
        int_of-small b (omega arith),
        sub-up t1.sec t2.sec order,
      )
      (elim (Bool-cases (leb b a)) [
        | inl up ↦
            let above : b ≤ a = ground arith in
            let d = 1_000_000 * s + (a - b) / 1000 in
            (
              d,
              ap to_i64 (micros-up s a b above) ∙ to_i64-small d (omega arith),
              omega arith,
              omega arith,
            )
        | inr down ↦
            let below : a < b = ground arith in
            let d = 1_000_000 * s - (b - a) / 1000 in
            (
              d,
              ap to_i64 (micros-down s a b below (omega arith)) ∙ to_i64-small d (omega arith),
              omega arith,
              omega arith,
            )
      ])
