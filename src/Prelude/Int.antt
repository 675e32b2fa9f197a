-- ===== src/Prelude/Int.antt =====
-- C++ integers as bit patterns: a signed integer of w bits is the number below 2 ^ w that its two's
-- complement bits represent.
use Prim.Native.Nat.{ℕ, ◌-◌, ◌+◌, ◌%◌, ◌^◌}
use mathlib.Core.Bool.{Bool}
use ipc_performance.Prelude.Tests.{ltb}

-- `static_cast<int>(n)`
abbrev pub to_int : ℕ → ℕ
to_int n = n % 2 ^ 32

-- The int -1.
abbrev pub minus_one : ℕ
minus_one = 2 ^ 32 - 1

-- `std::uint16_t x = n`, `std::uint32_t x = n`
abbrev pub to_u16 : ℕ → ℕ
to_u16 n = n % 2 ^ 16

abbrev pub to_u32 : ℕ → ℕ
to_u32 n = n % 2 ^ 32

-- a - b on `std::int64_t`, and its comparison a < b.
abbrev pub sub64 : ℕ → ℕ → ℕ
sub64 a b = (a + 2 ^ 64 - b) % 2 ^ 64

abbrev pub add64 : ℕ → ℕ → ℕ
add64 a b = (a + b) % 2 ^ 64

abbrev pub slt64 : ℕ → ℕ → Bool
slt64 a b = ltb ((a + 2 ^ 63) % 2 ^ 64) ((b + 2 ^ 63) % 2 ^ 64)

-- a - b on `std::uint32_t`.
abbrev pub sub32 : ℕ → ℕ → ℕ
sub32 a b = (a + 2 ^ 32 - b) % 2 ^ 32
