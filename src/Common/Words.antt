-- ===== src/Common/Words.antt =====
-- Machine words: unsigned arithmetic by `%`, conversions between widths and signs, bytes.
use Prim.Native.Nat.{ℕ, suc, ◌+◌, ◌-◌, ◌%◌, ◌^◌}
use package.network_testing.Common.Tests.{ltb, if◌then◌else◌}
use package.network_testing.Common.Int.{ℤ, pos, negsuc}

-- `uint64_t` a + b and a - b
abbrev pub add64 : ℕ → ℕ → ℕ
add64 a b = (a + b) % 2 ^ 64

abbrev pub sub64 : ℕ → ℕ → ℕ
sub64 a b = (a + 2 ^ 64 - b) % 2 ^ 64

-- a value converted to `uint64_t`, `uint32_t` or `uint16_t`
abbrev pub to_u64 : ℤ → ℕ
to_u64 (pos n) = n % 2 ^ 64
to_u64 (negsuc n) = (2 ^ 64 - (suc n) % 2 ^ 64) % 2 ^ 64

abbrev pub to_u32 : ℤ → ℕ
to_u32 (pos n) = n % 2 ^ 32
to_u32 (negsuc n) = (2 ^ 32 - (suc n) % 2 ^ 32) % 2 ^ 32

abbrev pub to_u16 : ℤ → ℕ
to_u16 (pos n) = n % 2 ^ 16
to_u16 (negsuc n) = (2 ^ 16 - (suc n) % 2 ^ 16) % 2 ^ 16

-- a bit pattern of 32 or 64 bits read as `int` or `int64_t`, as gcc converts
abbrev pub signed32 : ℕ → ℤ
signed32 w = if ltb w (2 ^ 31) then pos w else negsuc (2 ^ 32 - w - 1)

abbrev pub signed64 : ℕ → ℤ
signed64 w = if ltb w (2 ^ 63) then pos w else negsuc (2 ^ 64 - w - 1)

-- a value converted to `int` or `int64_t`
abbrev pub to_int : ℤ → ℤ
to_int z = signed32 (to_u32 z)

abbrev pub to_i64 : ℤ → ℤ
to_i64 z = signed64 (to_u64 z)
