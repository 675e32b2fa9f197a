-- ===== src/Object/DataType.antt =====
-- include/object/data_type.hpp: `enum class DataType : std::uint16_t`. The underlying type is fixed,
-- so a header that comes from the wire can hold any 16-bit number.
use ipc_performance.Prelude.{ℕ, ◌≡◌, ◌<◌, ◌^◌, refl, arith, ◌==◌, if◌then◌else◌}

pub data DataType : Type 0 where
  invalid : DataType
  ping : DataType
  java_symbol_lookup : DataType
  binary_data : DataType
  unknown : ℕ → DataType

unfoldable pub type_code : DataType → ℕ
type_code invalid = 0
type_code ping = 1
type_code java_symbol_lookup = 2
type_code binary_data = 3
type_code (unknown n) = n

unfoldable pub type_of : ℕ → DataType
type_of n =
    if n == 0
    then invalid
    else if n == 1
    then ping
    else if n == 2
    then java_symbol_lookup
    else if n == 3
    then binary_data
    else unknown n

-- The type is the reading of a 16-bit number.
pub record IsValid (t : DataType) : Type 0 where
  pub canonical : type_of (type_code t) ≡ t
  pub in_range : type_code t < 2 ^ 16

pub type_code-type_of : (n : ℕ) → type_code (type_of n) ≡ n
unfolding type_code type_of
type_code-type_of n = ground arith

pub type_of-IsValid : (n : ℕ) → n < 2 ^ 16 → IsValid (type_of n)
type_of-IsValid n h = record {
  canonical = rw (type_code-type_of n);
  in_range = omega (arith, type_code-type_of n);
}

pub invalid-IsValid : IsValid invalid
unfolding type_of type_code
invalid-IsValid = record { canonical = refl; in_range = omega arith }

pub ping-IsValid : IsValid ping
unfolding type_of type_code
ping-IsValid = record { canonical = refl; in_range = omega arith }

pub java_symbol_lookup-IsValid : IsValid java_symbol_lookup
unfolding type_of type_code
java_symbol_lookup-IsValid = record { canonical = refl; in_range = omega arith }

pub binary_data-IsValid : IsValid binary_data
unfolding type_of type_code
binary_data-IsValid = record { canonical = refl; in_range = omega arith }
