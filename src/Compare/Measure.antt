-- ===== src/Compare/Measure.antt =====
-- array_compare01.c: the timed loops and `main`.
pub mod Bounds
use network_testing.Common.{
  ℕ, zero, suc, ◌+◌, ◌*◌, ◌%◌, ◌^◌, ◌==◌, ◌||◌, ◌≡◌, refl, arith, Bool, true, false, Bool-cases,
  inl, inr, eq_of_==, ==_refl, if◌then◌else◌, Option, none, some, List, [], ◌∷◌, ℤ, pos, negsuc,
  pos_part, ◌+ℤ◌, signed32,
}
use network_testing.Kernel.{Kernel, M, pure, ◌>>=◌}
use network_testing.TimeBench.{gettime, rdtsc}
use network_testing.TimeBench.TimeFunc.{Measured, Report, time_func}
use network_testing.Compare.Search.{
  Entries, entry_at, array_index_match01, array_index_match02, array_index_match03, search04,
  array_index_match04, search05, array_index_match05,
}

-- The entries as `main` sets them: 1000 and the match.
unfoldable pub main_array : ℕ → Entries
main_array match i = if i == 1 then match else 1000 + i

-- A loop that sets `res` from its counter `j`, with the rounds left: the last value of `res`.
pub result_loop : (ℕ → ℤ → ℤ) → ℕ → ℕ → ℤ → ℤ
result_loop body zero j res = res
result_loop body (suc left) j res = result_loop body left (j + 1) (body j res)

-- The loop of `measure04_last_index_search`: `last_index`, or `none` if it leaves the array.
unfoldable pub loop04 : Entries → ℕ → ℕ → ℤ → Option ℤ
unfolding array_index_match04
loop04 a match zero last_index = some last_index
loop04 a match (suc left) last_index = elim (array_index_match04 a match last_index) [
  | none ↦ none
  | some index ↦ loop04 a match left index
]

-- The loop of `measure05_last_index_search`.
unfoldable pub loop05 : Entries → ℕ → ℕ → ℤ → Option ℤ
unfolding entry_at array_index_match05
loop05 a match zero last_index = some last_index
loop05 a match (suc left) last_index = elim (entry_at a last_index) [
  | none ↦ none
  | some d ↦ elim (d == match) [
    | true ↦ loop05 a match left (last_index +ℤ pos 1)
    | false ↦ elim (array_index_match05 a match last_index) [
      | none ↦ none
      | some index ↦ loop05 a match left (index +ℤ pos 1)
    ]
  ]
]

-- `(int) match == j`
abbrev pub int_is : ℤ → ℕ → Bool
int_is (pos n) j = n == j
int_is (negsuc n) j = false

-- The body of the loop of `measure0Z`.
unfoldable pub body_0z : ℕ → ℕ → ℤ → ℤ
body_0z match j res =
    if 1234 == j || (123456 == j || int_is (signed32 (match % 2 ^ 32)) j) then pos j else res

module _ (K : Kernel) where
  -- The clocks around a loop; what the loop leaves in `res`, or `none` if it leaves the array.
  unfoldable pub measure_loop : Option ℤ → ℤ → M (Option (Measured × ℤ))
  unfolding gettime
  measure_loop loop loops = do
    time_begin ← gettime K
    tsc_begin ← rdtsc K
    elim loop [
      | none ↦ pure none
      | some res ↦ do
        tsc_end ← rdtsc K
        time_end ← gettime K
        pure (
            some (
              record {
                tsc_begin = tsc_begin;
                tsc_end = tsc_end;
                time_begin = time_begin;
                time_end = time_end;
                loops_cnt = pos (pos_part loops);
              },
              res,
            ))
    ]

  unfoldable pub measure01 : Entries → ℕ → ℤ → M (Option (Measured × ℤ))
  unfolding measure_loop array_index_match01 result_loop
  measure01 a match loops =
      measure_loop
        (some (result_loop (λ _ _. array_index_match01 a match) (pos_part loops) 0 (negsuc 0)))
        loops

  unfoldable pub measure02 : Entries → ℕ → ℤ → M (Option (Measured × ℤ))
  unfolding measure_loop array_index_match02 result_loop
  measure02 a match loops =
      measure_loop
        (some (result_loop (λ _ _. array_index_match02 a match) (pos_part loops) 0 (negsuc 0)))
        loops

  unfoldable pub measure03 : Entries → ℕ → ℤ → M (Option (Measured × ℤ))
  unfolding measure_loop array_index_match03 result_loop
  measure03 a match loops =
      measure_loop
        (some (result_loop (λ _ _. array_index_match03 a match) (pos_part loops) 0 (negsuc 0)))
        loops

  unfoldable pub measure04 : Entries → ℕ → ℤ → M (Option (Measured × ℤ))
  unfolding measure_loop loop04
  measure04 a match loops = measure_loop (loop04 a match (pos_part loops) (pos 0)) loops

  unfoldable pub measure05 : Entries → ℕ → ℤ → M (Option (Measured × ℤ))
  unfolding measure_loop loop05
  measure05 a match loops = measure_loop (loop05 a match (pos_part loops) (pos 0)) loops

  unfoldable pub measure_cmp : ℕ → ℤ → M (Option (Measured × ℤ))
  unfolding measure_loop result_loop
  measure_cmp match loops =
      measure_loop
        (some
          (result_loop (λ j _. if match == j then pos 1 else pos 0) (pos_part loops) 0 (negsuc 0)))
        loops

  unfoldable pub measure0z : ℕ → ℤ → M (Option (Measured × ℤ))
  unfolding measure_loop body_0z result_loop
  measure0z match loops =
      measure_loop (some (result_loop (body_0z match) (pos_part loops) 0 (pos 0))) loops

  -- `time_func(loops, measure_loop…)`
  unfoldable pub timed : M (Option (Measured × ℤ)) → ℤ → M (Option Report)
  unfolding time_func
  timed func loops = do
    got ← func
    elim got [
      | none ↦ pure none
      | some m ↦ do rep ← time_func loops (λ _. pure m.0); pure (some rep)
    ]

  unfoldable pub in_order : List (M (Option Report)) → M (Option (List Report))
  in_order [] = pure (some [])
  in_order (m ∷ ms) = do
    got ← m
    elim got [
      | none ↦ pure none
      | some rep ↦ do
        rest ← in_order ms
        elim rest [ none ↦ pure none | some reps ↦ pure (some (rep ∷ reps)) ]
    ]

  -- `main`, with LOOPS and the global `match`.
  unfoldable pub main : ℤ → ℕ → M (Option (List Report))
  unfolding main_array measure01 measure02 measure03 measure04 measure05 measure_cmp measure0z timed
      in_order
  main loops match =
      let a = main_array match in
      in_order (
        timed (measure01 a match loops) loops
        ∷ timed (measure02 a match loops) loops
        ∷ timed (measure03 a match loops) loops
        ∷ timed (measure04 a match loops) loops
        ∷ timed (measure05 a match loops) loops
        ∷ timed (measure_cmp match loops) loops
        ∷ timed (measure0z match loops) loops
        ∷ [])
