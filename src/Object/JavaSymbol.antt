-- ===== src/Object/JavaSymbol.antt =====
-- object/java_symbol.cpp: a Java symbol with its address area.
pub mod Wire
use ipc_performance.Prelude.{
  ℕ, ◌+◌, ◌<◌, ◌^◌, ◌==◌, ltb, if◌then◌else◌, Option, none, some, List, [], take, drop, length,
  to_u32, to_int, minus_one,
}
use ipc_performance.Prelude.Bytes.{IsBytes, memcpy, window, le_bytes, le_value}

-- `symbol` is the `std::string`, as its bytes.
pub record JavaSymbol : Type 0 where
  pub address : ℕ
  pub area : ℕ
  pub symbol : List ℕ

-- sizeof(address_) + sizeof(length_) + sizeof(std::uint32_t)
abbrev pub header_size : ℕ
header_size = 16

-- `symbol.serialize(&buffer[base], size)`: the result and the buffer after it.
unfoldable pub serialize : JavaSymbol → List ℕ → ℕ → ℕ → ℕ × List ℕ
serialize s buffer base size =
    let obj_size = header_size + length s.symbol in
    let n = to_u32 (length s.symbol) in
    let b1 = memcpy buffer base (le_bytes 8 s.address) in
    let b2 = memcpy b1 (base + 8) (le_bytes 4 s.area) in
    let b3 = memcpy b2 (base + 12) (le_bytes 4 n) in
    let b4 = memcpy b3 (base + 16) (take n s.symbol) in
    if ltb size obj_size then (minus_one, buffer) else (to_int obj_size, b4)

-- `buffer` is the memory from the pointer on.
unfoldable pub deserialize : List ℕ → ℕ → Option JavaSymbol
deserialize buffer size =
    let address = le_value (window buffer 0 8) in
    let area = le_value (window buffer 8 4) in
    let symbol_length = le_value (window buffer 12 4) in
    if ltb size header_size
    then none
    else if ltb size (header_size + symbol_length)
    then none
    else if symbol_length == 0
    then some (record { address = address; area = area; symbol = [] })
    else some (record { address = address; area = area; symbol = window buffer 16 symbol_length })

-- Every member is in the range of its C++ type.
pub record IsValid (s : JavaSymbol) : Type 0 where
  pub address_fits : s.address < 2 ^ 64
  pub area_fits : s.area < 2 ^ 32
  pub symbol_fits : IsBytes s.symbol
