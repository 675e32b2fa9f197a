-- ===== src/Tests/Objects.antt =====
-- Objects, headers and packets at concrete inputs.
use ipc_performance.Prelude.{◌≡◌, ◌↔◌, refl, none, drop, arith, length}
use ipc_performance.Prelude.Bytes.{memcpy}
use ipc_performance.Object.DataType.{DataType}
use ipc_performance.Communication.{
  unknown_data, ok, err, get_type, serialize, deserialize_data_object,
}
use ipc_performance.Communication.Wire.{
  encode, Begins, serialize_object-fits, deserialize_object-serialize, deserialize_object-Begins,
}
use ipc_performance.Communication.Frame.{pack}
use ipc_performance.Communication.Frame.Wire.{Packed, pack-Packed, pack-refuses}
use ipc_performance.Tests.Data.{
  zeros, length-zeros, zeros-IsBytes, two, symbol, symbol-IsValid, length-two, length-symbol, huge,
  huge-lt, fresh,
}

deserialize_object-Begins_example :
    (deserialize_data_object DataType.binary_data (zeros 20) 20 ≡ ok two)
    ↔ Begins DataType.binary_data (zeros 20) 20 two
deserialize_object-Begins_example =
    deserialize_object-Begins DataType.binary_data (zeros 20) 20 two (zeros-IsBytes 20)
      (omega (arith, length-zeros 20)) (omega arith)

serialize_object-fits_example :
    serialize symbol (zeros 40) 16 24
    ≡ (length (encode symbol), memcpy (zeros 40) 16 (encode symbol))
serialize_object-fits_example =
    serialize_object-fits symbol (zeros 40) 16 24 (omega arith) (omega (arith, length-symbol))

deserialize_object-serialize_example :
    let (n, written) = serialize symbol (zeros 40) 16 24 in
    deserialize_data_object (get_type symbol) (drop 16 written) n ≡ ok symbol
deserialize_object-serialize_example =
    deserialize_object-serialize symbol (zeros 40) 16 24 symbol-IsValid (omega arith)
      (omega (arith, length-symbol)) (omega (arith, length-symbol, length-zeros 40))

unknown_type : deserialize_data_object (DataType.unknown 9) (zeros 20) 20 ≡ err unknown_data
unfolding deserialize_data_object
unknown_type = refl

pack-Packed_example : Packed fresh two 5 (pack fresh two 5)
pack-Packed_example = pack-Packed fresh two 5 (length-zeros 528) (omega (arith, length-two))

pack-refuses_example : pack fresh huge 5 ≡ (none, fresh)
pack-refuses_example = pack-refuses fresh huge 5 huge-lt
