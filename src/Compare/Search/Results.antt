-- ===== src/Compare/Search/Results.antt =====
-- array_compare01.c: what `array_index_match01`, `array_index_match02` and `array_index_match03` return.
use Prim.Native.Nat.{bit_xor}
use network_testing.Common.{
  ℕ, zero, suc, ◌+◌, ◌%◌, ◌^◌, ◌<◌, ◌≤◌, ◌≡◌, refl, fun_ext, arith, ◌≢◌, inl, inr, false,
  Bool-cases, ◌==◌, ==_refl, eq_of_==, if◌then◌else◌, ℤ, pos, negsuc, ltb_ℤ, signed32,
}
use network_testing.Common.Bits.{
  xor_self, eq_of_xor, xor_xor, ones_32, xor-le-ones, and_ones, and_zero,
}
use network_testing.Compare.Search.{
  Entries, nr_entries, first_index, array_index_match01, array_index_match02, my_min, min_loop,
  array_index_match03,
}

-- Both tests for equality.
xor_test : (d match : ℕ) → (bit_xor d match == 0) ≡ (d == match)
xor_test d match = elim (Bool-cases (d == match)) [
  | inl e ↦ rw (eq_of_== d match e, xor_self match, ==_refl match) refl
  | inr e ↦ ground (arith, eq_of_xor d match)
]

-- The first index from `i` on whose entry is the match, of `left` entries, or -1 if there is none.
unfoldable pub IsFirst : Entries → ℕ → ℕ → ℕ → ℤ → Type 0
IsFirst a match i left (pos k) =
    (i ≤ k) × (k < i + left) × (a k ≡ match) × ((j : ℕ) → i ≤ j → j < k → a j ≢ match)
IsFirst a match i left (negsuc k) = (k ≡ 0) × ((j : ℕ) → i ≤ j → j < i + left → a j ≢ match)

-- What differs from `i + 1` on, and at `i`, differs from `i` on.
differs_from :
    (a : Entries) (match i j : ℕ)
    → (a i == match) ≡ false
    → (i + 1 ≤ j → a j ≢ match)
    → i ≤ j
    → a j ≢ match
differs_from a match i j differs later p = elim (Bool-cases (i == j)) [
  | inl e ↦ rw (← eq_of_== i j e) (λ m. ground arith)
  | inr e ↦ later (ground arith)
]

IsFirst-next :
    (a : Entries) (match i left : ℕ) (r : ℤ)
    → (a i == match) ≡ false
    → IsFirst a match (i + 1) left r
    → IsFirst a match i (suc left) r
unfolding IsFirst
IsFirst-next a match i left (pos k) differs h = (
  omega arith,
  omega arith,
  h.2,
  λ j p q. differs_from a match i j differs (λ later. h.3 j later q) p,
)
IsFirst-next a match i left (negsuc k) differs h =
    (h.0, λ j p q. differs_from a match i j differs (λ later. h.1 j later (omega arith)) p)

first_index-IsFirst :
    (a : Entries) (match left i : ℕ)
    → IsFirst a match i left (first_index a (λ d. d == match) left i)
unfolding IsFirst first_index
first_index-IsFirst a match zero i = (refl, λ j p q. absurd (omega arith))
first_index-IsFirst a match (suc left) i = elim (Bool-cases (a i == match)) [
  | inl e ↦
      rw (e, first_index)
        (omega arith, omega arith, eq_of_== (a i) match e, λ j p q. absurd (omega arith))
  | inr e ↦
      rw (e, first_index)
        (IsFirst-next a match i left _ e (first_index-IsFirst a match left (i + 1)))
]

-- The search by exclusive or and that by equality return the same: the index of the first entry
-- that is the match, or -1 if there is none.
pub match02-match01 :
    (a : Entries) (match : ℕ)
    → (array_index_match02 a match ≡ array_index_match01 a match)
      × IsFirst a match 0 nr_entries (array_index_match01 a match)
unfolding array_index_match01 array_index_match02
match02-match01 a match =
    (rw (fun_ext (λ d. xor_test d match)) refl, first_index-IsFirst a match nr_entries 0)

-- The smaller of two integers.
unfoldable pub min_ℤ : ℤ → ℤ → ℤ
min_ℤ x y = if ltb_ℤ x y then x else y

my_min_lem :
    (x y : ℕ)
    → x < 2 ^ 32
    → y < 2 ^ 32
    → (my_min x y < 2 ^ 32) × (signed32 (my_min x y) ≡ min_ℤ (signed32 x) (signed32 y))
unfolding my_min min_ℤ
my_min_lem x y p q = elim (Bool-cases (ltb_ℤ (signed32 x) (signed32 y))) [
  | inl less ↦
      let masked =
        and_ones 32 (bit_xor x y)
          (xor-le-ones 32 x y (omega (arith, ones_32)) (omega (arith, ones_32))) in
      rw (less, ← ones_32, masked, xor_xor x y) (p, refl)
  | inr not_less ↦ rw (not_less, and_zero (bit_xor x y), xor_zero y) (q, refl)
]
  where
    xor_zero : (z : ℕ) → bit_xor z 0 ≡ z
    xor_zero z = rw (← xor_self z) (xor_xor z z)

-- An entry compared with the match, as `ax` gets it.
abbrev pub xor_int : Entries → ℕ → ℕ → ℤ
xor_int a match i = signed32 (bit_xor (a i) match % 2 ^ 32)

-- `array_index_match03` returns no index: it returns the least of 0xfffff and of what the exclusive
-- or of each entry and the match is as an `int`.
pub match03-least :
    (a : Entries) (match : ℕ)
    → array_index_match03 a match
      ≡ min_ℤ (min_ℤ (pos 0xfffff) (xor_int a match 0)) (xor_int a match 1)
unfolding array_index_match03 min_loop
match03-least a match =
    let w = λ (i : ℕ). bit_xor (a i) match % 2 ^ 32 in
    let first = my_min_lem 0xfffff (w 0) (omega arith) (omega arith) in
    let second = my_min_lem (my_min 0xfffff (w 0)) (w 1) first.0 (omega arith) in
    rw (second.1, first.1) refl
