-- ===== src/Common/Bits.antt =====
-- Facts about `bit_xor` and `bit_and`.
use Prim.Native.Nat.{
  ℕ, zero, suc, ◌+◌, ◌*◌, ◌/◌, ◌%◌, ◌≤◌, ◌<◌, min, bit_and, bit_xor, digits, differ,
  bit_and-bitwise, bit_xor-bitwise,
}
use mathlib.Core.Path.{◌≡◌, refl}
use native.Mathlib.Omega.{arith}

-- More rounds than digits change nothing, where the second number alone gives 0 for 0.
module _ (z : ℕ → ℕ) (f : ℕ → ℕ → ℕ) where
  digits-enough : (a b k l : ℕ) → a ≤ k → a ≤ l → digits z f k a b ≡ digits z f l a b
  digits-enough zero b zero zero p q = refl
  digits-enough zero b zero (suc l) p q = refl
  digits-enough zero b (suc k) zero p q = refl
  digits-enough zero b (suc k) (suc l) p q = refl
  digits-enough (suc a) b zero l p q = absurd (omega arith)
  digits-enough (suc a) b (suc k) zero p q = absurd (omega arith)
  digits-enough (suc a) b (suc k) (suc l) p q =
      let half = digits-enough (suc a / 2) (b / 2) k l (omega arith) (omega arith) in rw half refl

zero-bit_xor : (b : ℕ) → bit_xor 0 b ≡ b
zero-bit_xor b = bit_xor-bitwise 0 b

zero-bit_and : (b : ℕ) → bit_and 0 b ≡ 0
zero-bit_and b = bit_and-bitwise 0 b

xor_digit : (a b : ℕ) → bit_xor a b ≡ bit_xor (a / 2) (b / 2) * 2 + differ (a % 2) (b % 2)
xor_digit zero b = omega (arith, zero-bit_xor b, zero-bit_xor (b / 2), differ_zero (b % 2))
  where
    differ_zero : (n : ℕ) → differ 0 n ≡ n
    differ_zero n = refl
xor_digit (suc a) b =
    let rounds =
      digits-enough (λ y. y) differ (suc a / 2) (b / 2) a (suc a / 2) (omega arith) (omega arith) in
    omega (arith, bit_xor-bitwise (suc a) b, bit_xor-bitwise (suc a / 2) (b / 2), rounds)

and_digit : (a b : ℕ) → bit_and a b ≡ bit_and (a / 2) (b / 2) * 2 + min (a % 2) (b % 2)
and_digit zero b = omega (arith, zero-bit_and b, zero-bit_and (b / 2))
and_digit (suc a) b =
    let rounds =
      digits-enough (λ _. 0) min (suc a / 2) (b / 2) a (suc a / 2) (omega arith) (omega arith) in
    omega (arith, bit_and-bitwise (suc a) b, bit_and-bitwise (suc a / 2) (b / 2), rounds)

-- The exclusive or of two digits.
differ-digits : (a b : ℕ) → a < 2 → b < 2 → differ a b ≡ (a + b) % 2
differ-digits zero b p q = omega arith
differ-digits (suc zero) zero p q = refl
differ-digits (suc zero) (suc zero) p q = refl
differ-digits (suc zero) (suc (suc b)) p q = absurd (omega arith)
differ-digits (suc (suc a)) b p q = absurd (omega arith)

pub xor_step : (a b : ℕ) → bit_xor a b ≡ bit_xor (a / 2) (b / 2) * 2 + (a + b) % 2
xor_step a b =
    omega (arith, xor_digit a b, differ-digits (a % 2) (b % 2) (omega arith) (omega arith))

-- `a ^ b` is 0 exactly where a and b are equal.
xor_self_below : (n a : ℕ) → a ≤ n → bit_xor a a ≡ 0
xor_self_below n zero h = zero-bit_xor 0
xor_self_below zero (suc a) h = absurd (omega arith)
xor_self_below (suc n) (suc a) h =
    omega (arith, xor_step (suc a) (suc a), xor_self_below n (suc a / 2) (omega arith))

pub xor_self : (a : ℕ) → bit_xor a a ≡ 0
xor_self a = xor_self_below a a (omega arith)

eq_of_xor_below : (n a b : ℕ) → a ≤ n → bit_xor a b ≡ 0 → a ≡ b
eq_of_xor_below n zero b h e = omega (arith, zero-bit_xor b)
eq_of_xor_below zero (suc a) b h e = absurd (omega arith)
eq_of_xor_below (suc n) (suc a) b h e =
    let step = xor_step (suc a) b in
    let halves : bit_xor (suc a / 2) (b / 2) ≡ 0 = omega arith in
    let half = eq_of_xor_below n (suc a / 2) (b / 2) (omega arith) halves in omega arith

pub eq_of_xor : (a b : ℕ) → bit_xor a b ≡ 0 → a ≡ b
eq_of_xor a b e = eq_of_xor_below a a b (omega arith) e

-- `y ^ (x ^ y)` is x.
xor_xor_below : (n x y : ℕ) → x ≤ n → y ≤ n → bit_xor y (bit_xor x y) ≡ x
xor_xor_below zero x y p q =
    let x0 : x ≡ 0 = omega arith in let y0 : y ≡ 0 = omega arith in rw (x0, y0) refl
xor_xor_below (suc n) x y p q =
    let inner = xor_step x y in
    let half : bit_xor x y / 2 ≡ bit_xor (x / 2) (y / 2) = omega arith in
    let outer = xor_step y (bit_xor x y) in
    let ih = xor_xor_below n (x / 2) (y / 2) (omega arith) (omega arith) in
    let outer' : bit_xor y (bit_xor x y) ≡ x / 2 * 2 + (y + bit_xor x y) % 2 =
      rw (← ih) (rw (← half) outer) in
    omega arith

pub xor_xor : (x y : ℕ) → bit_xor y (bit_xor x y) ≡ x
xor_xor x y = xor_xor_below (x + y) x y (omega arith) (omega arith)

-- The number of `k` binary ones.
pub ones : ℕ → ℕ
ones zero = 0
ones (suc k) = ones k * 2 + 1

pub xor-le-ones : (k x y : ℕ) → x ≤ ones k → y ≤ ones k → bit_xor x y ≤ ones k
unfolding ones
xor-le-ones zero x y p q =
    let x0 : x ≡ 0 = omega arith in let y0 : y ≡ 0 = omega arith in rw (x0, y0) (omega arith)
xor-le-ones (suc k) x y p q =
    omega (arith, xor_step x y, xor-le-ones k (x / 2) (y / 2) (omega arith) (omega arith))

pub and_ones : (k x : ℕ) → x ≤ ones k → bit_and x (ones k) ≡ x
unfolding ones
and_ones zero x p = let x0 : x ≡ 0 = omega arith in rw x0 (zero-bit_and 0)
and_ones (suc k) x p =
    let half : (ones k * 2 + 1) / 2 ≡ ones k = omega arith in
    let ih : bit_and (x / 2) ((ones k * 2 + 1) / 2) ≡ x / 2 =
      rw half (and_ones k (x / 2) (omega arith)) in
    omega (arith, and_digit x (ones k * 2 + 1))

and_zero_below : (n x : ℕ) → x ≤ n → bit_and x 0 ≡ 0
and_zero_below n zero h = zero-bit_and 0
and_zero_below zero (suc x) h = absurd (omega arith)
and_zero_below (suc n) (suc x) h =
    omega (arith, and_digit (suc x) 0, and_zero_below n (suc x / 2) (omega arith))

pub and_zero : (x : ℕ) → bit_and x 0 ≡ 0
and_zero x = and_zero_below x x (omega arith)

pub ones_32 : ones 32 ≡ 0xffffffff
unfolding ones
ones_32 = refl
