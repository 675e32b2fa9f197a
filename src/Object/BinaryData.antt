-- ===== src/Object/BinaryData.antt =====
-- object/binary_data.cpp: a vector of bytes.
pub mod Wire
use ipc_performance.Prelude.{
  ℕ, ◌+◌, ◌==◌, ltb, if◌then◌else◌, Option, none, some, List, [], take, drop, length, to_u32,
  to_int, minus_one,
}
use ipc_performance.Prelude.Bytes.{IsBytes, memcpy, window, le_bytes, le_value}

pub record BinaryData : Type 0 where
  pub bytes : List ℕ

-- sizeof(std::uint32_t)
abbrev pub header_size : ℕ
header_size = 4

-- `data.serialize(&buffer[base], size)`: the result and the buffer after it.
unfoldable pub serialize : BinaryData → List ℕ → ℕ → ℕ → ℕ × List ℕ
serialize d buffer base size =
    let total_size = header_size + length d.bytes in
    let n = to_u32 (length d.bytes) in
    let b1 = memcpy buffer base (le_bytes 4 n) in
    let b2 = memcpy b1 (base + 4) (take n d.bytes) in
    if ltb size total_size then (minus_one, buffer) else (to_int total_size, b2)

-- `buffer` is the memory from the pointer on.
unfoldable pub deserialize : List ℕ → ℕ → Option BinaryData
deserialize buffer size =
    let n = le_value (window buffer 0 4) in
    if ltb size header_size
    then none
    else if ltb size (header_size + n)
    then none
    else if n == 0
    then some (record { bytes = [] })
    else some (record { bytes = window buffer 4 n })

-- Every element is a byte.
abbrev pub IsValid : BinaryData → Type 0
IsValid d = IsBytes d.bytes
