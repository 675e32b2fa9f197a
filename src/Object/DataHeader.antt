-- ===== src/Object/DataHeader.antt =====
-- object/data_header.cpp: the header in front of every message, 16 bytes of plain memory.
pub mod Wire
use ipc_performance.Prelude.{
  ℕ, zero, suc, ◌+◌, ◌<◌, ◌≤◌, ◌^◌, ◌≡◌, Bool, not, ◌==◌, ltb, if◌then◌else◌, Option, none, some,
  List, ◌++◌, take, drop, to_u16, to_int, minus_one,
}
use ipc_performance.Prelude.Bytes.{memcpy, window, le_bytes, le_value}
use ipc_performance.Object.DataType.{DataType, type_code, type_of}
use ipc_performance.Object.DataType

-- `timestamp` is an `std::int64_t`, as its bit pattern.
pub record DataHeader : Type 0 where
  pub id : ℕ
  pub type : DataType
  pub body_size : ℕ
  pub timestamp : ℕ

-- `sizeof(DataHeader)`, held to 16 by a `static_assert`.
abbrev pub header_size : ℕ
header_size = 16

-- The object's memory: the members in order. There is no padding, since 4 + 2 + 2 = 8.
unfoldable pub bytes_of : DataHeader → List ℕ
bytes_of h =
    le_bytes 4 h.id
    ++ (le_bytes 2 (type_code h.type) ++ (le_bytes 2 h.body_size ++ le_bytes 8 h.timestamp))

-- The header that 16 bytes of memory hold.
unfoldable pub of_bytes : List ℕ → DataHeader
of_bytes bs = record {
  id = le_value (window bs 0 4);
  type = type_of (le_value (window bs 4 2));
  body_size = le_value (window bs 6 2);
  timestamp = le_value (window bs 8 8);
}

-- `header.serialize(&buffer[base], size)`: the result and the buffer after it.
unfoldable pub serialize : DataHeader → List ℕ → ℕ → ℕ → ℕ × List ℕ
serialize h buffer base size =
    if ltb size header_size
    then (minus_one, buffer)
    else (to_int header_size, memcpy buffer base (bytes_of h))

-- `buffer` is the memory from the pointer on.
unfoldable pub deserialize : List ℕ → ℕ → Option DataHeader
deserialize buffer size =
    if ltb size header_size then none else some (of_bytes (take header_size buffer))

unfoldable pub is_valid : DataHeader → Bool
is_valid h = not (type_code h.type == type_code DataType.invalid)

-- Every member is in the range of its C++ type.
pub record IsValid (h : DataHeader) : Type 0 where
  pub id_fits : h.id < 2 ^ 32
  pub type_fits : DataType.IsValid h.type
  pub body_size_fits : h.body_size < 2 ^ 16
  pub timestamp_fits : h.timestamp < 2 ^ 64
