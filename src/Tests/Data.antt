-- ===== src/Tests/Data.antt =====
-- Objects, buffers and handlers for the runs.
use ipc_performance.Prelude.{ℕ, zero, suc, ◌<◌, ◌≡◌, refl, ap, List, [], ◌∷◌, arith, length}
use ipc_performance.Prelude.Bytes.{IsBytes}
use ipc_performance.Object.DataType.{DataType, binary_data-IsValid}
use ipc_performance.Object.DataHeader
use ipc_performance.Object.DataHeader.{DataHeader}
use ipc_performance.Object.BinaryData
use ipc_performance.Object.JavaSymbol
use ipc_performance.Communication.{DataObject, binary_object, symbol_object, IsValid}
use ipc_performance.Communication.Wire.{encode}
use ipc_performance.Communication.Frame.{Frame}
use ipc_performance.Handler.Message.{Message, Fits}
use ipc_performance.Handler.Link.{Sendable}

pub zeros : ℕ → List ℕ
zeros zero = []
zeros (suc n) = 0 ∷ zeros n

pub length-zeros : (n : ℕ) → length (zeros n) ≡ n
unfolding zeros
length-zeros zero = refl
length-zeros (suc n) = ap suc (length-zeros n)

pub zeros-IsBytes : (n : ℕ) → IsBytes (zeros n)
unfolding zeros
zeros-IsBytes zero = tt
zeros-IsBytes (suc n) = (omega arith, zeros-IsBytes n)

-- Two bytes of data.
abbrev pub two : DataObject
two = binary_object (record { bytes = 7 ∷ 8 ∷ [] })

-- A symbol named `m`.
abbrev pub symbol : DataObject
symbol = symbol_object (record { address = 4096; area = 16; symbol = 109 ∷ [] })

pub two-IsValid : IsValid two
two-IsValid = (omega arith, (omega arith, tt))

pub symbol-IsValid : IsValid symbol
symbol-IsValid = record {
  address_fits = omega arith;
  area_fits = omega arith;
  symbol_fits = (omega arith, tt);
}

pub length-two : length (encode two) ≡ 6
unfolding encode
length-two = BinaryData.Wire.length-encode (record { bytes = 7 ∷ 8 ∷ [] })

pub length-symbol : length (encode symbol) ≡ 17
unfolding encode
length-symbol =
    JavaSymbol.Wire.length-encode (record { address = 4096; area = 16; symbol = 109 ∷ [] })

pub two-Sendable : Sendable two 5
two-Sendable = record {
  object_valid = two-IsValid;
  size_fits = omega (arith, length-two);
  timestamp_fits = omega arith;
}

-- Data that fits no message.
abbrev pub huge : DataObject
huge = binary_object (record { bytes = zeros 600 })

pub huge-lt : 512 < length (encode huge)
unfolding encode
huge-lt =
    omega (arith, BinaryData.Wire.length-encode (record { bytes = zeros 600 }), length-zeros 600)

abbrev pub fresh : Frame
fresh = record { last_id = 0; buffer = zeros 528 }

abbrev pub first : Message
first = record { id = 1; timestamp = 5; object = two }

pub first-Fits : Fits first
first-Fits = record {
  id_fits = omega arith;
  timestamp_fits = omega arith;
  object_valid = two-IsValid;
  size_fits = omega (arith, length-two);
}

-- A header that announces more than a buffer holds.
abbrev pub large_header : DataHeader
large_header = record { id = 1; type = DataType.binary_data; body_size = 600; timestamp = 5 }

pub large_header-IsValid : DataHeader.IsValid large_header
large_header-IsValid = record {
  id_fits = omega arith;
  type_fits = binary_data-IsValid;
  body_size_fits = omega arith;
  timestamp_fits = omega arith;
}
