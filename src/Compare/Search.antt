-- ===== src/Compare/Search.antt =====
-- array_compare01.c: `array_index_match01` to `array_index_match05`.
pub mod Results
use Prim.Native.Nat.{bit_xor, bit_and}
use network_testing.Common.{
  ℕ, zero, suc, ◌+◌, ◌%◌, ◌^◌, ◌<◌, ◌≤◌, ◌≡◌, refl, fun_ext, arith, ◌≢◌, ◌⊎◌, Bool, true, false,
  Bool-cases, inl, inr, ◌==◌, ==_refl, eq_of_==, ltb, if◌then◌else◌, Option, none, some, ℤ, pos,
  negsuc, ltb_ℤ, ◌+ℤ◌, signed32,
}
use network_testing.Common.Bits.{
  xor_self, eq_of_xor, xor_xor, ones, ones_32, xor-le-ones, and_ones, and_zero,
}

-- N
abbrev pub nr_entries : ℕ
nr_entries = 2

-- The array `a`, by the `data` of its entries.
abbrev pub Entries : Type 0
Entries = ℕ → ℕ

-- `a[index].data`; `none` is an access outside of the array, whose result C leaves open.
unfoldable pub entry_at : Entries → ℤ → Option ℕ
entry_at a (pos i) = if ltb i nr_entries then some (a i) else none
entry_at a (negsuc i) = none

-- `for (i = 0; i < N; i++)` that returns the first index whose entry passes the test, with the
-- entries left.
pub first_index : Entries → (ℕ → Bool) → ℕ → ℕ → ℤ
first_index a test zero i = negsuc 0
first_index a test (suc left) i = elim (test (a i)) [
  | true ↦ pos i
  | false ↦ first_index a test left (i + 1)
]

unfoldable pub array_index_match01 : Entries → ℕ → ℤ
unfolding first_index
array_index_match01 a match = first_index a (λ d. d == match) nr_entries 0

unfoldable pub array_index_match02 : Entries → ℕ → ℤ
unfolding first_index
array_index_match02 a match = first_index a (λ d. bit_xor d match == 0) nr_entries 0

-- `my_min`, on the bit patterns of two `int`s
unfoldable pub my_min : ℕ → ℕ → ℕ
my_min x y =
    let mask = if ltb_ℤ (signed32 x) (signed32 y) then 0xffffffff else 0 in
    bit_xor y (bit_and (bit_xor x y) mask)

-- The loop of `array_index_match03`, on bit patterns.
pub min_loop : Entries → ℕ → ℕ → ℕ → ℕ → ℕ
unfolding my_min
min_loop a match zero i res = res
min_loop a match (suc left) i res =
    min_loop a match left (i + 1) (my_min res (bit_xor (a i) match % 2 ^ 32))

unfoldable pub array_index_match03 : Entries → ℕ → ℤ
unfolding min_loop
array_index_match03 a match = signed32 (min_loop a match nr_entries 0 0xfffff)

-- The loop of `array_index_match04`, with its rounds left; `none` is an access outside.
unfoldable pub search04 : Entries → ℕ → ℕ → ℤ → Option ℤ
unfolding entry_at
search04 a match zero index = some (negsuc 0)
search04 a match (suc left) index = elim (entry_at a index) [
  | none ↦ none
  | some d ↦ elim (d == match) [
    | true ↦ some index
    | false ↦ search04 a match left (if ltb_ℤ (pos nr_entries) index then pos 0 else index +ℤ pos 1)
  ]
]

unfoldable pub array_index_match04 : Entries → ℕ → ℤ → Option ℤ
unfolding search04
array_index_match04 a match index = search04 a match nr_entries index

-- The index that a round of `array_index_match05` reads.
abbrev pub wrapped : ℤ → ℤ
wrapped index = if ltb_ℤ (pos nr_entries) index then pos 0 else index

unfoldable pub search05 : Entries → ℕ → ℕ → ℤ → Option ℤ
unfolding entry_at
search05 a match zero index = some (negsuc 0)
search05 a match (suc left) index = elim (entry_at a (wrapped index)) [
  | none ↦ none
  | some d ↦ elim (d == match) [
    | true ↦ some (wrapped index)
    | false ↦ search05 a match left (wrapped index +ℤ pos 1)
  ]
]

unfoldable pub array_index_match05 : Entries → ℕ → ℤ → Option ℤ
unfolding search05
array_index_match05 a match index = search05 a match nr_entries index
