-- ===== src/Communication.antt =====
-- include/handler/communication_handler.hpp and communication_error.hpp: what all handlers share, and
-- src/utility.cpp, which reads an object by its type.
pub mod Wire
pub mod Frame
use ipc_performance.Prelude.{ℕ, ◌+◌, List, Option, none, some}
use ipc_performance.Object.DataType.{
  DataType, invalid, ping, java_symbol_lookup, binary_data, unknown,
}
use ipc_performance.Object.Ping
use ipc_performance.Object.Ping.{Ping}
use ipc_performance.Object.JavaSymbol
use ipc_performance.Object.JavaSymbol.{JavaSymbol}
use ipc_performance.Object.BinaryData
use ipc_performance.Object.BinaryData.{BinaryData}
use ipc_performance.Object.DataHeader.{DataHeader}

pub data CommunicationError : Type 0 where
  connection_closed : CommunicationError
  no_data_available : CommunicationError
  read_error : CommunicationError
  invalid_header : CommunicationError
  invalid_data : CommunicationError
  unknown_data : CommunicationError

-- The variant of all data objects, which is also the class hierarchy below `IDataObject`.
pub data DataObject : Type 0 where
  ping_object : Ping → DataObject
  symbol_object : JavaSymbol → DataObject
  binary_object : BinaryData → DataObject

-- `std::variant<A, CommunicationError>`
pub data Result {ℓ} (A : Type ℓ) : Type ℓ where
  ok : A → Result A
  err : CommunicationError → Result A

-- `BUFFER_SIZE`: the limit of header and body combined.
abbrev pub buffer_size : ℕ
buffer_size = 512 + 16

-- `WAIT_TIME`, in milliseconds.
abbrev pub wait_time : ℕ
wait_time = 5000

-- `IDataObject::get_type`
unfoldable pub get_type : DataObject → DataType
get_type (ping_object p) = ping
get_type (symbol_object s) = java_symbol_lookup
get_type (binary_object d) = binary_data

-- `IDataObject::serialize`
unfoldable pub serialize : DataObject → List ℕ → ℕ → ℕ → ℕ × List ℕ
serialize (ping_object p) = Ping.serialize p
serialize (symbol_object s) = JavaSymbol.serialize s
serialize (binary_object d) = BinaryData.serialize d

abbrev pub or_invalid {ℓ} : {A : Type ℓ} → Option A → (A → DataObject) → Result DataObject
or_invalid none f = err invalid_data
or_invalid (some a) f = ok (f a)

-- `buffer` is the memory from the pointer on.
unfoldable pub deserialize_data_object : DataType → List ℕ → ℕ → Result DataObject
deserialize_data_object invalid buffer size = err invalid_data
deserialize_data_object ping buffer size = or_invalid (Ping.deserialize buffer size) ping_object
deserialize_data_object java_symbol_lookup buffer size =
    or_invalid (JavaSymbol.deserialize buffer size) symbol_object
deserialize_data_object binary_data buffer size =
    or_invalid (BinaryData.deserialize buffer size) binary_object
deserialize_data_object (unknown n) buffer size = err unknown_data

-- How a handler's `read` ends. `aborted`: an `assert` fails, which no build type of CMakeLists.txt
-- turns off, or an exception is thrown, which nothing catches. `overrun`: memory behind the end of a
-- buffer or a text is used. `waiting`: the environment has given no further answer, and the call has
-- not returned.
pub data Outcome : Type 0 where
  message : DataHeader → DataObject → Outcome
  failed : CommunicationError → Outcome
  aborted : Outcome
  overrun : Outcome
  waiting : Outcome

-- The end of every `read`: the variant of object and error becomes that of message and error.
unfoldable pub with_header : DataHeader → Result DataObject → Outcome
with_header h (ok o) = message h o
with_header h (err e) = failed e

-- Every member is in the range of its C++ type.
abbrev pub IsValid : DataObject → Type 0
IsValid (ping_object p) = Unit {0}
IsValid (symbol_object s) = JavaSymbol.IsValid s
IsValid (binary_object d) = BinaryData.IsValid d
