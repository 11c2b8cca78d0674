-- ===== src/Compare/Tests.antt =====
-- Runs of the searches of array_compare01.c.
use network_testing.Common.{◌≡◌, refl, none, some, pos}
use network_testing.Compare.Search.{
  nr_entries, entry_at, array_index_match01, array_index_match02, array_index_match03,
  array_index_match05, search05,
}
use network_testing.Compare.Search.Results.{IsFirst, min_ℤ, xor_int, match02-match01, match03-least}
use network_testing.Compare.Measure.{main_array, loop04, loop05}
use network_testing.Compare.Measure.Bounds.{match_index, loop04-loop05}

match02-match01_example :
    (array_index_match02 (main_array 104) 104 ≡ array_index_match01 (main_array 104) 104)
    × IsFirst (main_array 104) 104 0 nr_entries (array_index_match01 (main_array 104) 104)
match02-match01_example = match02-match01 (main_array 104) 104

match03-least_run :
    array_index_match03 (main_array 104) 104
    ≡ min_ℤ (min_ℤ (pos 0xfffff) (xor_int (main_array 104) 104 0)) (xor_int (main_array 104) 104 1)
match03-least_run = match03-least (main_array 104) 104

loop04-loop05_example :
    (loop04 (main_array 104) 104 1 (pos 0) ≡ some (pos (match_index 104)))
    × (loop05 (main_array 104) 104 3 (pos 0) ≡ none)
loop04-loop05_example = loop04-loop05 104 0

-- A search that starts behind the last entry reads there.
starts_behind : array_index_match05 (main_array 104) 104 (pos 2) ≡ none
unfolding array_index_match05 search05 entry_at
starts_behind = refl
