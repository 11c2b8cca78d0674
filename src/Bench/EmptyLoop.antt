-- ===== src/Bench/EmptyLoop.antt =====
-- compiler_test01.c: loops whose counter is an `int` and whose bound has another type.
use network_testing.Common.{
  ℕ, zero, suc, ◌+◌, ◌-◌, ◌%◌, ◌^◌, ◌≤◌, ◌<◌, ◌≡◌, refl, arith, true, false, ap, ◌∙◌, ltb, leb,
  if◌then◌else◌, Option, none, some, ℤ, pos_part, to_u64,
}

-- An `int`, by its bit pattern, converted to `size_t` or `unsigned long`.
abbrev pub size_of : ℕ → ℕ
size_of i = if ltb i (2 ^ 31) then i else i + (2 ^ 64 - 2 ^ 32)

-- `empty_for_loop02`: the rounds, for an `int` as the bound.
abbrev pub empty_for_loop02 : ℤ → ℕ
empty_for_loop02 n = pos_part n

-- The loop of `empty_for_loop03` and `empty_for_loop04`, whose counter wraps around as under the
-- option -fno-strict-overflow: the rounds made, or `none` if the fuel runs out.
unfoldable pub int_loop : ℕ → ℕ → ℕ → ℕ → Option ℕ
int_loop zero n i rounds = none
int_loop (suc fuel) n i rounds = elim (ltb (size_of i) n) [
  | true ↦ int_loop fuel n ((i + 1) % 2 ^ 32) (rounds + 1)
  | false ↦ some rounds
]

-- The rounds given to that loop.
int_range : ℕ
int_range = 2 ^ 32

unfoldable pub empty_for_loop03 : ℕ → Option ℕ
unfolding int_loop int_range
empty_for_loop03 n = int_loop int_range n 0 0

-- `empty_for_loop05`, whose counter is a `size_t` too.
unfoldable pub size_loop : ℕ → ℕ → ℕ → ℕ → Option ℕ
size_loop zero n i rounds = none
size_loop (suc fuel) n i rounds = elim (ltb i n) [
  | true ↦ size_loop fuel n ((i + 1) % 2 ^ 64) (rounds + 1)
  | false ↦ some rounds
]

-- `my_func`: the rounds of its three loops, the bound of the last two converted from an `int`.
unfoldable pub my_func : ℤ → ℕ × Option ℕ × Option ℕ
unfolding empty_for_loop03
my_func n = (empty_for_loop02 n, empty_for_loop03 (to_u64 n), empty_for_loop03 (to_u64 n))

-- The counter at which the loop ends.
abbrev pub last_counter : ℕ → ℕ
last_counter n =
    if leb n (2 ^ 31) then n else if leb n (2 ^ 64 - 2 ^ 31) then 2 ^ 31 else n - (2 ^ 64 - 2 ^ 32)

goes_on : (n i : ℕ) → n < 2 ^ 64 → i ≤ last_counter n → ltb (size_of i) n ≡ ltb i (last_counter n)
goes_on n i word h = ground arith

int_loop-rounds :
    (left fuel n i rounds : ℕ)
    → n < 2 ^ 64
    → i + left ≡ last_counter n
    → left < fuel
    → int_loop fuel n i rounds ≡ some (rounds + left)
unfolding int_loop
int_loop-rounds left zero n i rounds word e enough = absurd (omega arith)
int_loop-rounds zero (suc fuel) n i rounds word e enough =
    let stop : ltb (size_of i) n ≡ false = ground (arith, goes_on n i) in
    rw (stop, int_loop) (ap some (omega arith))
int_loop-rounds (suc left) (suc fuel) n i rounds word e enough =
    let go : ltb (size_of i) n ≡ true = ground (arith, goes_on n i) in
    let small : last_counter n < 2 ^ 32 = ground arith in
    let wrap : (i + 1) % 2 ^ 32 ≡ i + 1 = omega arith in
    rw (go, int_loop, wrap)
      (int_loop-rounds left fuel n (i + 1) (rounds + 1) word (omega arith) (omega arith)
        ∙ ap some (omega arith))

int_range-eq : int_range ≡ 2 ^ 32
unfolding int_range
int_range-eq = refl

-- Whatever the bound of 64 bits: the loops with an `int` as the counter end within 2^32 rounds.
-- Up to a bound of 2^31 they make as many rounds as it says; then 2^31, until the counter wraps
-- around and counts as a number above the bound; and beyond the last 2^31 numbers fewer than the bound.
pub empty_for_loop03-rounds : (n : ℕ) → n < 2 ^ 64 → empty_for_loop03 n ≡ some (last_counter n)
unfolding empty_for_loop03
empty_for_loop03-rounds n word =
    let small : last_counter n < 2 ^ 32 = ground arith in
    int_loop-rounds (last_counter n) int_range n 0 0 word (omega arith)
      (omega (arith, small, int_range-eq))
    ∙ ap some (omega arith)
