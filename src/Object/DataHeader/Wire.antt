-- ===== src/Object/DataHeader/Wire.antt =====
-- object/data_header.cpp: the header's memory image and the way back.
use ipc_performance.Prelude.{
  ℕ, ◌≤◌, ◌<◌, ◌≡◌, refl, ◌∙◌, none, some, List, ◌++◌, arith, take, length, minus_one,
  length-append, take-append_left, take_all, le→ltb, lt→ltb, length-take,
}
use ipc_performance.Prelude.Bytes.{
  IsBytes, memcpy, window, le_bytes, le_value, length-le_bytes, le_bytes-IsBytes,
}
use ipc_performance.Prelude.Windows.{
  le_field, le_field_last, skip_field, le_window, le_window-lt, window-join, IsBytes-take,
  IsBytes-append,
}
use ipc_performance.Object.DataType.{type_code, type_of, type_code-type_of, type_of-IsValid}
use ipc_performance.Object.DataHeader.{
  DataHeader, header_size, bytes_of, of_bytes, serialize, deserialize, IsValid,
}

pub length-bytes_of : (h : DataHeader) → length (bytes_of h) ≡ 16
unfolding bytes_of
length-bytes_of h = omega (
  arith,
  length-append (le_bytes 4 h.id)
      (le_bytes 2 (type_code h.type) ++ (le_bytes 2 h.body_size ++ le_bytes 8 h.timestamp)),
  length-append (le_bytes 2 (type_code h.type)) (le_bytes 2 h.body_size ++ le_bytes 8 h.timestamp),
  length-append (le_bytes 2 h.body_size) (le_bytes 8 h.timestamp),
  length-le_bytes 4 h.id,
  length-le_bytes 2 (type_code h.type),
  length-le_bytes 2 h.body_size,
  length-le_bytes 8 h.timestamp,
)

pub bytes_of-IsBytes : (h : DataHeader) → IsBytes (bytes_of h)
unfolding bytes_of
bytes_of-IsBytes h = IsBytes-append _ _ (le_bytes-IsBytes 4 h.id) (
    IsBytes-append _ _ (le_bytes-IsBytes 2 (type_code h.type))
      (IsBytes-append _ _ (le_bytes-IsBytes 2 h.body_size) (le_bytes-IsBytes 8 h.timestamp)))

-- A header with members in range is read back from its memory.
of_bytes-bytes_of : (h : DataHeader) → IsValid h → of_bytes (bytes_of h) ≡ h
unfolding of_bytes bytes_of
of_bytes-bytes_of h v = λ i. record {
  id = le_field 4 h.id (type_and_on) v.id_fits i;
  type = type_path i;
  body_size = size_path i;
  timestamp = time_path i;
}
  where
    type_and_on : List ℕ
    type_and_on =
        le_bytes 2 (type_code h.type) ++ (le_bytes 2 h.body_size ++ le_bytes 8 h.timestamp)

    type_path : type_of (le_value (window (le_bytes 4 h.id ++ type_and_on) 4 2)) ≡ h.type
    type_path =
        rw
          (
            skip_field 4 h.id type_and_on 4 0 2 refl,
            le_field 2 (type_code h.type) (le_bytes 2 h.body_size ++ le_bytes 8 h.timestamp)
                v.type_fits.in_range,
          )
          v.type_fits.canonical

    size_path : le_value (window (le_bytes 4 h.id ++ type_and_on) 6 2) ≡ h.body_size
    size_path =
        rw
          (
            skip_field 4 h.id type_and_on 6 2 2 refl,
            skip_field 2 (type_code h.type) (le_bytes 2 h.body_size ++ le_bytes 8 h.timestamp) 2 0 2
                refl,
          )
          (le_field 2 h.body_size (le_bytes 8 h.timestamp) v.body_size_fits)

    time_path : le_value (window (le_bytes 4 h.id ++ type_and_on) 8 8) ≡ h.timestamp
    time_path =
        rw
          (
            skip_field 4 h.id type_and_on 8 4 8 refl,
            skip_field 2 (type_code h.type) (le_bytes 2 h.body_size ++ le_bytes 8 h.timestamp) 4 2 8
                refl,
            skip_field 2 h.body_size (le_bytes 8 h.timestamp) 2 0 8 refl,
          )
          (le_field_last 8 h.timestamp v.timestamp_fits)

-- Sixteen bytes of memory are the image of the header that they hold.
bytes_of-of_bytes : (bs : List ℕ) → IsBytes bs → length bs ≡ 16 → bytes_of (of_bytes bs) ≡ bs
unfolding of_bytes bytes_of
bytes_of-of_bytes bs b e =
    rw
      (
        type_code-type_of (le_value (window bs 4 2)),
        le_window bs 0 4 b (omega arith),
        le_window bs 4 2 b (omega arith),
        le_window bs 6 2 b (omega arith),
        le_window bs 8 8 b (omega arith),
      )
      joined
  where
    joined : take 4 bs ++ (window bs 4 2 ++ (window bs 6 2 ++ window bs 8 8)) ≡ bs
    joined =
        rw (window-join bs 6 2 8 8 10 refl refl, window-join bs 4 2 6 10 12 refl refl)
          (window-join bs 0 4 4 12 16 refl refl ∙ take_all 16 bs (omega arith))

of_bytes-IsValid : (bs : List ℕ) → IsBytes bs → length bs ≡ 16 → IsValid (of_bytes bs)
unfolding of_bytes
of_bytes-IsValid bs b e = record {
  id_fits = le_window-lt bs 0 4 b (omega arith);
  type_fits = type_of-IsValid (le_value (window bs 4 2)) (le_window-lt bs 4 2 b (omega arith));
  body_size_fits = le_window-lt bs 6 2 b (omega arith);
  timestamp_fits = le_window-lt bs 8 8 b (omega arith);
}

-- `serialize` writes the memory image, or refuses a buffer of less than 16 bytes.
pub serialize-fits :
    (h : DataHeader) (buffer : List ℕ) (base size : ℕ)
    → header_size ≤ size
    → serialize h buffer base size ≡ (16, memcpy buffer base (bytes_of h))
unfolding serialize
serialize-fits h buffer base size le = rw (le→ltb size 16 le)

pub serialize-refuses :
    (h : DataHeader) (buffer : List ℕ) (base size : ℕ)
    → size < header_size
    → serialize h buffer base size ≡ (minus_one, buffer)
unfolding serialize
serialize-refuses h buffer base size lt = rw (lt→ltb size 16 lt)

-- A header with members in range is read back from a buffer that begins with its image, if at
-- least 16 bytes are given.
pub deserialize_header-bytes_of :
    (h : DataHeader) (rest : List ℕ) (size : ℕ)
    → IsValid h
    → header_size ≤ size
    → deserialize (bytes_of h ++ rest) size ≡ some h
unfolding deserialize
deserialize_header-bytes_of h rest size v le = rw (
  le→ltb size 16 le,
  take-append_left 16 (bytes_of h) rest (length-bytes_of h),
  of_bytes-bytes_of h v,
)

pub deserialize-short :
    (buffer : List ℕ) (size : ℕ) → size < header_size → deserialize buffer size ≡ none
unfolding deserialize
deserialize-short buffer size lt = rw (lt→ltb size 16 lt)

pub deserialize-long :
    (buffer : List ℕ) (size : ℕ)
    → header_size ≤ size
    → deserialize buffer size ≡ some (of_bytes (take 16 buffer))
unfolding deserialize
deserialize-long buffer size le = rw (le→ltb size 16 le)

-- From at least 16 bytes a header is always read: its members are in the range of their types,
-- and its image is the first 16 bytes.
pub deserialize_header_sound :
    (buffer : List ℕ) (size : ℕ)
    → IsBytes buffer
    → header_size ≤ size
    → size ≤ length buffer
    → (h : DataHeader) × (deserialize buffer size ≡ some h)
      × IsValid h
      × (bytes_of h ≡ take 16 buffer)
deserialize_header_sound buffer size b le s = (
  of_bytes (take 16 buffer),
  deserialize-long buffer size le,
  of_bytes-IsValid (take 16 buffer) (IsBytes-take 16 buffer b)
      (omega (arith, length-take 16 buffer)),
  bytes_of-of_bytes (take 16 buffer) (IsBytes-take 16 buffer b)
      (omega (arith, length-take 16 buffer)),
)
