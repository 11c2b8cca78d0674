-- ===== src/Compare/Measure/Bounds.antt =====
-- array_compare01.c: which searches of the timed loops stay within the array.
use network_testing.Common.{
  ℕ, zero, suc, ◌≡◌, refl, false, Bool-cases, inl, inr, eq_of_==, ==_refl, ◌==◌, if◌then◌else◌,
  none, some, pos, ◌+ℤ◌,
}
use network_testing.Compare.Search.{
  entry_at, search04, array_index_match04, search05, array_index_match05,
}
use network_testing.Compare.Measure.{main_array, loop04, loop05}

-- A search from an index whose entry is the match stays there.
loop04-stays :
    (match i left : ℕ)
    → entry_at (main_array match) (pos i) ≡ some match
    → loop04 (main_array match) match left (pos i) ≡ some (pos i)
unfolding loop04 array_index_match04
loop04-stays match i zero e = refl
loop04-stays match i (suc left) e =
    rw (e, search04, ==_refl match, loop04) (loop04-stays match i left e)

-- The index of the match in the array of `main`.
abbrev pub match_index : ℕ → ℕ
match_index match = if 1000 == match then 0 else 1

match_index-entry_at :
    (match : ℕ) → entry_at (main_array match) (pos (match_index match)) ≡ some match
unfolding entry_at main_array
match_index-entry_at match = elim (Bool-cases (1000 == match)) [
  | inl e ↦ rw (e, eq_of_== 1000 match e) refl
  | inr e ↦ rw e refl
]

match04-first :
    (match : ℕ)
    → array_index_match04 (main_array match) match (pos 0) ≡ some (pos (match_index match))
unfolding array_index_match04 search04 main_array entry_at ◌+ℤ◌
match04-first match = elim (Bool-cases (1000 == match)) [
  | inl e ↦ rw (e, search04) refl
  | inr e ↦ rw (e, search04, ==_refl match) refl
]

match05-first :
    (match : ℕ)
    → (1000 == match) ≡ false
    → array_index_match05 (main_array match) match (pos 0) ≡ some (pos 1)
unfolding array_index_match05 search05 main_array entry_at ◌+ℤ◌
match05-first match e = rw (e, search05, ==_refl match) refl

-- Whatever the match: the loop of `measure04_last_index_search` finds it and stays at its index,
-- and that of `measure05_last_index_search` reads beyond the array within three rounds.
pub loop04-loop05 :
    (match n : ℕ)
    → (loop04 (main_array match) match (suc n) (pos 0) ≡ some (pos (match_index match)))
      × (loop05 (main_array match) match (suc (suc (suc n))) (pos 0) ≡ none)
unfolding loop04 loop05 entry_at main_array ◌+ℤ◌
loop04-loop05 match n = (
  rw (match04-first match, loop04)
      (loop04-stays match (match_index match) n (match_index-entry_at match)),
  elim (Bool-cases (1000 == match)) [
    | inl e ↦ rw (e, loop05, ==_refl match) refl
    | inr e ↦ rw (e, match05-first match e, loop05) refl
  ],
)
