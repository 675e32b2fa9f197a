-- ===== src/Communication/Wire.antt =====
-- Objects of any type against their encodings.
use ipc_performance.Prelude.{
  ℕ, ◌+◌, ◌≤◌, ◌<◌, ◌^◌, ◌≡◌, refl, ap, List, [], ◌∷◌, ◌++◌, arith, take, length, minus_one,
  Option-cases, inl, inr, ◌↔◌, take-append-drop, drop, length-drop, sym, ◌∙◌, suc, zero,
}
use mathlib.Core.Path.{subst}
use ipc_performance.Prelude.Bytes.{IsBytes, memcpy}
use ipc_performance.Object.DataType.{
  DataType, invalid, ping, java_symbol_lookup, binary_data, unknown,
}
use ipc_performance.Object.Ping
use ipc_performance.Object.JavaSymbol
use ipc_performance.Object.BinaryData
use ipc_performance.Communication.{
  CommunicationError, invalid_data, unknown_data, DataObject, ping_object, symbol_object,
  binary_object, ok, err, get_type, serialize, deserialize_data_object, IsValid,
}

-- The bytes that stand for an object.
unfoldable pub encode : DataObject → List ℕ
encode (ping_object p) = []
encode (symbol_object s) = JavaSymbol.Wire.encode s
encode (binary_object d) = BinaryData.Wire.encode d

memcpy_empty : (buffer : List ℕ) (base : ℕ) → memcpy buffer base [] ≡ buffer
unfolding memcpy
memcpy_empty [] base = refl
memcpy_empty (b ∷ bs) zero = refl
memcpy_empty (b ∷ bs) (suc base) = ap (◌∷◌ b) (memcpy_empty bs base)

-- An object whose encoding has at most `size` bytes, with `size` below 2 ^ 31, so that the result
-- is not negative as an `int`, is serialized: its encoding is copied to the buffer from `base`
-- on, nothing else is written, and the result is the number of bytes.
pub serialize_object-fits :
    (o : DataObject) (buffer : List ℕ) (base size : ℕ)
    → size < 2 ^ 31
    → length (encode o) ≤ size
    → serialize o buffer base size ≡ (length (encode o), memcpy buffer base (encode o))
unfolding serialize encode Ping.serialize
serialize_object-fits (ping_object p) buffer base size w h = rw (memcpy_empty buffer base)
serialize_object-fits (symbol_object s) buffer base size w h =
    JavaSymbol.Wire.serialize-fits s buffer base size (omega arith) h
serialize_object-fits (binary_object d) buffer base size w h =
    BinaryData.Wire.serialize-fits d buffer base size (omega arith) h

-- An object whose encoding has more than `size` bytes is refused with -1, and the buffer is left
-- alone.
pub serialize_object-refuses :
    (o : DataObject) (buffer : List ℕ) (base size : ℕ)
    → size < length (encode o)
    → serialize o buffer base size ≡ (minus_one, buffer)
unfolding serialize encode
serialize_object-refuses (ping_object p) buffer base size h = absurd (omega arith)
serialize_object-refuses (symbol_object s) buffer base size h =
    JavaSymbol.Wire.serialize-refuses s buffer base size h
serialize_object-refuses (binary_object d) buffer base size h =
    BinaryData.Wire.serialize-refuses d buffer base size h

-- A valid object is read back, under its own type, from memory that begins with its encoding, if
-- the encoding has at most `size` bytes and `size` is below 2 ^ 32.
pub deserialize_object-encode :
    (o : DataObject) (rest : List ℕ) (size : ℕ)
    → IsValid o
    → size < 2 ^ 32
    → length (encode o) ≤ size
    → deserialize_data_object (get_type o) (encode o ++ rest) size ≡ ok o
unfolding deserialize_data_object encode get_type Ping.deserialize
deserialize_object-encode (ping_object Ping.ping) rest size v w h = refl
deserialize_object-encode (symbol_object s) rest size v w h =
    rw (JavaSymbol.Wire.deserialize-encode s rest size v w h)
deserialize_object-encode (binary_object d) rest size v w h =
    rw (BinaryData.Wire.deserialize-encode d rest size w h)

drop-memcpy :
    (buffer : List ℕ) (base : ℕ) (bs : List ℕ)
    → base + length bs ≤ length buffer
    → drop base (memcpy buffer base bs) ≡ memcpy (drop base buffer) 0 bs
unfolding memcpy
drop-memcpy buffer zero bs h = refl
drop-memcpy [] (suc base) bs h = absurd (omega arith)
drop-memcpy (x ∷ xs) (suc base) bs h = drop-memcpy xs base bs (omega arith)

memcpy_start : (xs bs : List ℕ) → length bs ≤ length xs → memcpy xs 0 bs ≡ bs ++ drop (length bs) xs
unfolding memcpy
memcpy_start [] [] h = refl
memcpy_start [] (b ∷ bs) h = absurd (omega arith)
memcpy_start (x ∷ xs) [] h = refl
memcpy_start (x ∷ xs) (b ∷ bs) h = ap (◌∷◌ b) (memcpy_start xs bs (omega arith))

-- A valid object that is serialized into a buffer, from `base` on and with room for its encoding
-- there, within at most `size` bytes, `size` being below 2 ^ 31, is read back under its own type
-- from the buffer that results, from `base` on and with the size that `serialize` returned.
pub deserialize_object-serialize :
    (o : DataObject) (buffer : List ℕ) (base size : ℕ)
    → IsValid o
    → size < 2 ^ 31
    → length (encode o) ≤ size
    → base + length (encode o) ≤ length buffer
    → let (n, written) = serialize o buffer base size in
      deserialize_data_object (get_type o) (drop base written) n ≡ ok o
deserialize_object-serialize o buffer base size v w h room =
    let bs : List ℕ = encode o in
    let rest : List ℕ = drop base buffer in
    rw
      (
        serialize_object-fits o buffer base size w h,
        drop-memcpy buffer base bs room,
        memcpy_start rest bs (omega (arith, length-drop base buffer)),
      )
      (deserialize_object-encode o (drop (length bs) rest) (length bs) v (omega arith)
        (omega arith))

-- The buffer begins with the encoding of a valid object of this type, inside the given size.
pub record Begins (t : DataType) (buffer : List ℕ) (size : ℕ) (o : DataObject) : Type 0 where
  pub valid : IsValid o
  pub typed : get_type o ≡ t
  pub fits : length (encode o) ≤ size
  pub bytes : take (length (encode o)) buffer ≡ encode o

pub deserialize-Begins :
    (t : DataType) (buffer : List ℕ) (size : ℕ) (o : DataObject)
    → IsBytes buffer
    → size ≤ length buffer
    → deserialize_data_object t buffer size ≡ ok o
    → Begins t buffer size o
unfolding deserialize_data_object encode get_type Ping.deserialize
deserialize-Begins invalid buffer size o b s h = absurd (cc)
deserialize-Begins ping buffer size (ping_object Ping.ping) b s h = record {
  valid = tt;
  typed = refl;
  fits = omega arith;
  bytes = refl;
}
deserialize-Begins ping buffer size (symbol_object x) b s h = absurd (cc)
deserialize-Begins ping buffer size (binary_object d) b s h = absurd (cc)
deserialize-Begins java_symbol_lookup buffer size o b s h =
    elim (Option-cases (JavaSymbol.deserialize buffer size)) [
      | inl e ↦ absurd (ground arith)
      | inr (x, e) ↦
          let found : IsValid (symbol_object x)
              × (length (encode (symbol_object x)) ≤ size)
              × (take (length (encode (symbol_object x))) buffer ≡ encode (symbol_object x)) =
            JavaSymbol.Wire.deserialize_sound buffer size x b s e in
          subst (Begins java_symbol_lookup buffer size) {x = symbol_object x} (ground arith)
            (record { valid = found.0; typed = refl; fits = found.1; bytes = found.2 })
    ]
deserialize-Begins binary_data buffer size o b s h =
    elim (Option-cases (BinaryData.deserialize buffer size)) [
      | inl e ↦ absurd (ground arith)
      | inr (x, e) ↦
          let found : IsValid (binary_object x)
              × (length (encode (binary_object x)) ≤ size)
              × (take (length (encode (binary_object x))) buffer ≡ encode (binary_object x)) =
            BinaryData.Wire.deserialize_sound buffer size x b s e in
          subst (Begins binary_data buffer size) {x = binary_object x} (ground arith)
            (record { valid = found.0; typed = refl; fits = found.1; bytes = found.2 })
    ]
deserialize-Begins (unknown n) buffer size o b s h = absurd (cc)

deserialize-of_Begins :
    (t : DataType) (buffer : List ℕ) (size : ℕ) (o : DataObject)
    → size < 2 ^ 32
    → Begins t buffer size o
    → deserialize_data_object t buffer size ≡ ok o
deserialize-of_Begins t buffer size o w f =
    subst (λ u. deserialize_data_object u buffer size ≡ ok o) f.typed
      (subst (λ bs. deserialize_data_object (get_type o) bs size ≡ ok o) whole
        (deserialize_object-encode o (drop (length (encode o)) buffer) size f.valid w f.fits))
  where
    whole : encode o ++ drop (length (encode o)) buffer ≡ buffer
    whole =
        ap (λ bs. bs ++ drop (length (encode o)) buffer) (sym f.bytes)
        ∙ take-append-drop (length (encode o)) buffer

-- For memory of bytes that has at least `size` bytes, with `size` below 2 ^ 32,
-- `deserialize_data_object` returns an object exactly if the object is valid, is of the given
-- type, and the memory begins with its encoding within `size` bytes.
pub deserialize_object-Begins :
    (t : DataType) (buffer : List ℕ) (size : ℕ) (o : DataObject)
    → IsBytes buffer
    → size ≤ length buffer
    → size < 2 ^ 32
    → (deserialize_data_object t buffer size ≡ ok o) ↔ Begins t buffer size o
deserialize_object-Begins t buffer size o b s w =
    (deserialize-Begins t buffer size o b s, deserialize-of_Begins t buffer size o w)

-- The error that a buffer gets which does not begin so: UNKNOWN_DATA for a type that the program
-- does not know, INVALID_DATA for any other.
pub refusal : DataType → CommunicationError
refusal (unknown n) = unknown_data
refusal t = invalid_data

-- The only error of `deserialize_data_object` is UNKNOWN_DATA for a type that the program does
-- not know, and INVALID_DATA for any other type.
pub deserialize_object-err :
    (t : DataType) (buffer : List ℕ) (size : ℕ) (e : CommunicationError)
    → deserialize_data_object t buffer size ≡ err e
    → e ≡ refusal t
unfolding deserialize_data_object Ping.deserialize refusal
deserialize_object-err invalid buffer size e h = ground arith
deserialize_object-err ping buffer size e h = absurd (cc)
deserialize_object-err java_symbol_lookup buffer size e h = ground arith
deserialize_object-err binary_data buffer size e h = ground arith
deserialize_object-err (unknown n) buffer size e h = ground arith
