-- ===== src/Communication/Frame/Wire.antt =====
-- The packet that a handler sends, as bytes, and that a handler which finds it in its buffer reads
-- the same header and object.
use ipc_performance.Prelude.{
  ℕ, ◌+◌, ◌%◌, ◌≤◌, ◌<◌, ◌^◌, ◌≡◌, refl, ap, ◌∙◌, sym, Option, none, some, List, ◌++◌, arith, take,
  drop, length, minus_one, to_u32, length-append, drop-append_left, append_assoc, ne→==,
}
use mathlib.Core.Path.{subst}
use ipc_performance.Prelude.Bytes.{
  memcpy, length-memcpy, window, window-memcpy, window-memcpy_behind,
}
use ipc_performance.Prelude.Windows.{window-join}
use ipc_performance.Object.DataType
use ipc_performance.Object.DataType.{
  DataType, ping-IsValid, java_symbol_lookup-IsValid, binary_data-IsValid,
}
use ipc_performance.Object.DataHeader
use ipc_performance.Object.DataHeader.{DataHeader, header_size, bytes_of}
use ipc_performance.Object.DataHeader.Wire as HeaderWire
use ipc_performance.Communication.{
  DataObject, ping_object, symbol_object, binary_object, get_type, IsValid, Outcome, message,
  with_header,
}
use ipc_performance.Communication.Wire.{
  encode, serialize_object-fits, serialize_object-refuses, deserialize_object-encode,
}
use ipc_performance.Communication.Frame.{Frame, pack, read_header, read_body}

-- The header that announces an object.
unfoldable pub header_for : ℕ → ℕ → DataObject → DataHeader
header_for id timestamp o = record {
  id = id;
  type = get_type o;
  body_size = length (encode o);
  timestamp = timestamp;
}

-- The bytes of a message: its header, then its body.
unfoldable pub packet : ℕ → ℕ → DataObject → List ℕ
packet id timestamp o = bytes_of (header_for id timestamp o) ++ encode o

pub length-packet :
    (id timestamp : ℕ) (o : DataObject) → length (packet id timestamp o) ≡ 16 + length (encode o)
unfolding packet
length-packet id timestamp o = omega (
  arith,
  length-append (bytes_of (header_for id timestamp o)) (encode o),
  HeaderWire.length-bytes_of (header_for id timestamp o),
)

pub body_size-header_for :
    (id timestamp : ℕ) (o : DataObject) → (header_for id timestamp o).body_size ≡ length (encode o)
unfolding header_for
body_size-header_for id timestamp o = refl

pub get_type-IsValid : (o : DataObject) → DataType.IsValid (get_type o)
unfolding get_type
get_type-IsValid (ping_object p) = ping-IsValid
get_type-IsValid (symbol_object s) = java_symbol_lookup-IsValid
get_type-IsValid (binary_object d) = binary_data-IsValid

pub header_for-IsValid :
    (id timestamp : ℕ) (o : DataObject)
    → id < 2 ^ 32
    → timestamp < 2 ^ 64
    → length (encode o) ≤ 512
    → DataHeader.IsValid (header_for id timestamp o)
unfolding header_for
header_for-IsValid id timestamp o i t s = record {
  id_fits = i;
  type_fits = get_type-IsValid o;
  body_size_fits = omega arith;
  timestamp_fits = t;
}

-- The id of the message after the one numbered `n`: the counter is a `std::uint32_t`.
abbrev pub next_id : ℕ → ℕ
next_id n = to_u32 (n + 1)

-- An object that fits is packed: the buffer begins with its packet under the next id, and keeps its
-- length.
pub record Packed (f : Frame) (o : DataObject) (timestamp : ℕ) (r : Option ℕ × Frame) : Type 0 where
  pub size : r.0 ≡ some (length (encode o))
  pub counted : r.1.last_id ≡ next_id f.last_id
  pub room : length r.1.buffer ≡ length f.buffer
  pub bytes : take (16 + length (encode o)) r.1.buffer ≡ packet (next_id f.last_id) timestamp o

-- An object whose encoding has at most 512 bytes is packed: with a buffer of 528 bytes the size
-- of its body is returned, `last_id_` becomes the next id modulo 2 ^ 32, and the buffer keeps its
-- length and begins with the image of the header (next id, type, size, timestamp) and the
-- encoding of the object.
pub pack-Packed :
    (f : Frame) (o : DataObject) (timestamp : ℕ)
    → length f.buffer ≡ 528
    → length (encode o) ≤ 512
    → Packed f o timestamp (pack f o timestamp)
unfolding pack header_for packet
pack-Packed f o timestamp l s = subst (Packed f o timestamp) (sym packed) done
  where
    n : ℕ
    n = length (encode o)

    h : DataHeader
    h = header_for (next_id f.last_id) timestamp o

    b1 : List ℕ
    b1 = memcpy f.buffer 16 (encode o)

    b2 : List ℕ
    b2 = memcpy b1 0 (bytes_of h)

    small : n % 2 ^ 16 ≡ n
    small = omega arith

    header_in : window b2 0 16 ≡ bytes_of h
    header_in =
        window-memcpy b1 0 (bytes_of h) 16 (sym (HeaderWire.length-bytes_of h))
          (omega (arith, HeaderWire.length-bytes_of h, length-memcpy f.buffer 16 (encode o)))

    body_in : window b2 16 n ≡ encode o
    body_in =
        window-memcpy_behind b1 0 (bytes_of h) 16 n (omega (arith, HeaderWire.length-bytes_of h))
        ∙ window-memcpy f.buffer 16 (encode o) n refl (omega arith)

    packed : pack f o timestamp ≡ (some n, record { last_id = next_id f.last_id; buffer = b2 })
    packed = rw (
      serialize_object-fits o f.buffer 16 512 (omega arith) s,
      ne→== n minus_one (omega arith),
      small,
      HeaderWire.serialize-fits h b1 0 16 (omega arith),
    )

    done : Packed f o timestamp (some n, record { last_id = next_id f.last_id; buffer = b2 })
    done = record {
      size = refl;
      counted = refl;
      room = length-memcpy b1 0 (bytes_of h) ∙ length-memcpy f.buffer 16 (encode o);
      bytes = sym (window-join b2 0 16 16 n (16 + n) refl refl) ∙ rw (header_in, body_in);
    }

-- An object whose encoding has more than 512 bytes is not packed: `write` returns false, and
-- `last_id_` and the buffer stay as they were.
pub pack-refuses :
    (f : Frame) (o : DataObject) (timestamp : ℕ)
    → 512 < length (encode o)
    → pack f o timestamp ≡ (none, f)
unfolding pack
pack-refuses f o timestamp h = rw (serialize_object-refuses o f.buffer 16 512 h)

-- A buffer that begins with a packet is read as its header.
pub read_header-packet :
    (id timestamp : ℕ) (o : DataObject) (rest : List ℕ) (next : DataHeader → Outcome)
    → id < 2 ^ 32
    → timestamp < 2 ^ 64
    → length (encode o) ≤ 512
    → read_header (packet id timestamp o ++ rest) next ≡ next (header_for id timestamp o)
unfolding packet
read_header-packet id timestamp o rest next i t s = rw (
  append_assoc (bytes_of (header_for id timestamp o)) (encode o) rest,
  HeaderWire.deserialize_header-bytes_of (header_for id timestamp o) (encode o ++ rest) 16
      (header_for-IsValid id timestamp o i t s) (omega arith),
)

-- And memory that begins with the object's encoding as the message.
pub read_body-encode :
    (id timestamp : ℕ) (o : DataObject) (rest : List ℕ)
    → IsValid o
    → length (encode o) ≤ 512
    → read_body (encode o ++ rest) (header_for id timestamp o)
      ≡ message (header_for id timestamp o) o
unfolding header_for with_header
read_body-encode id timestamp o rest v s =
    rw (deserialize_object-encode o rest (length (encode o)) v (omega arith) (omega arith))

pub drop-packet :
    (id timestamp : ℕ) (o : DataObject) (rest : List ℕ)
    → drop 16 (packet id timestamp o ++ rest) ≡ encode o ++ rest
unfolding packet
drop-packet id timestamp o rest =
    ap (drop 16) (append_assoc (bytes_of h) (encode o) rest)
    ∙ drop-append_left 16 (bytes_of h) (encode o ++ rest) (HeaderWire.length-bytes_of h)
  where
    h : DataHeader
    h = header_for id timestamp o
