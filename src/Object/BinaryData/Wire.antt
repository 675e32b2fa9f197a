-- ===== src/Object/BinaryData/Wire.antt =====
-- object/binary_data.cpp against the byte sequence that stands for a vector.
use ipc_performance.Prelude.{
  ℕ, ◌+◌, ◌≤◌, ◌<◌, ◌^◌, ◌≡◌, refl, ap, ◌∙◌, sym, some, List, ◌++◌, arith, take, length, minus_one,
  length-append, take_all, take-append_left, le→ltb, lt→ltb, ◌==◌, Bool-cases, inl, inr,
}
use ipc_performance.Prelude.Bytes.{
  IsBytes, memcpy, memcpy-append, window, le_bytes, le_value, length-le_bytes,
}
use ipc_performance.Prelude.{◌%◌, append_assoc, dec_lt}
use ipc_performance.Prelude.Windows.{
  window-append, le_field, le_window, take-add, length-window, IsBytes-take, IsBytes-drop,
}
use ipc_performance.Object.BinaryData.{BinaryData, serialize, deserialize, IsValid}

-- The length, then the bytes.
unfoldable pub encode : BinaryData → List ℕ
encode d = le_bytes 4 (length d.bytes) ++ d.bytes

pub length-encode : (d : BinaryData) → length (encode d) ≡ 4 + length d.bytes
unfolding encode
length-encode d =
    omega (
      arith,
      length-append (le_bytes 4 (length d.bytes)) d.bytes,
      length-le_bytes 4 (length d.bytes),
    )

-- A vector that fits is copied to the buffer in full, and nothing else is written.
pub serialize-fits :
    (d : BinaryData) (buffer : List ℕ) (base size : ℕ)
    → size < 2 ^ 32
    → length (encode d) ≤ size
    → serialize d buffer base size ≡ (length (encode d), memcpy buffer base (encode d))
unfolding serialize encode
serialize-fits d buffer base size w h = rw (
  le→ltb size (4 + length d.bytes) fits,
  whole_size,
  whole,
  take_all (length d.bytes) d.bytes (omega arith),
  memcpy-append buffer base (le_bytes 4 (length d.bytes)) d.bytes (base + 4)
      (omega (arith, length-le_bytes 4 (length d.bytes))),
  length-encode d,
)
  where
    fits : 4 + length d.bytes ≤ size
    fits = omega (arith, length-encode d)

    whole_size : (4 + length d.bytes) % 2 ^ 32 ≡ 4 + length d.bytes
    whole_size = omega (arith, fits)

    whole : length d.bytes % 2 ^ 32 ≡ length d.bytes
    whole = omega (arith, fits)

-- One that does not fit is refused with -1 and the buffer is left alone.
pub serialize-refuses :
    (d : BinaryData) (buffer : List ℕ) (base size : ℕ)
    → size < length (encode d)
    → serialize d buffer base size ≡ (minus_one, buffer)
unfolding serialize
serialize-refuses d buffer base size h =
    rw (lt→ltb size (4 + length d.bytes) (omega (arith, length-encode d)))

deserialize-eq :
    (buffer : List ℕ) (size n : ℕ)
    → n ≡ le_value (window buffer 0 4)
    → 4 + n ≤ size
    → deserialize buffer size ≡ some (record { bytes = window buffer 4 n })
unfolding deserialize
deserialize-eq buffer size n e h = elim (Bool-cases (n == 0)) [
  | inl z ↦
      let none_left : n ≡ 0 = ground arith in
      rw (← e, le→ltb size 4 (omega arith), le→ltb size (4 + n) h, z, none_left)
  | inr z ↦ rw (← e, le→ltb size 4 (omega arith), le→ltb size (4 + n) h, z)
]

-- What `encode` put in front of a buffer is read back.
pub deserialize-encode :
    (d : BinaryData) (rest : List ℕ) (size : ℕ)
    → size < 2 ^ 32
    → length (encode d) ≤ size
    → deserialize (encode d ++ rest) size ≡ some d
unfolding encode
deserialize-encode d rest size w h = rw (append_assoc (le_bytes 4 n) d.bytes rest) (
    deserialize-eq (le_bytes 4 n ++ (d.bytes ++ rest)) size n
      (sym (le_field 4 n (d.bytes ++ rest) (omega (arith, length-encode d))))
      (omega (arith, length-encode d))
    ∙ ap (λ bs. some (record { bytes = bs })) body)
  where
    n : ℕ
    n = length d.bytes

    body : window (le_bytes 4 n ++ (d.bytes ++ rest)) 4 n ≡ d.bytes
    body =
        window-append (le_bytes 4 n) (d.bytes ++ rest) 4 0 n (omega (arith, length-le_bytes 4 n))
        ∙ take-append_left n d.bytes rest refl

-- What a successful read has found.
record Found (buffer : List ℕ) (size : ℕ) (d : BinaryData) : Type 0 where
  n : ℕ
  n_eq : n ≡ le_value (window buffer 0 4)
  fits : 4 + n ≤ size
  d_eq : d ≡ record { bytes = window buffer 4 n }

deserialize-Found :
    (buffer : List ℕ) (size : ℕ) (d : BinaryData)
    → deserialize buffer size ≡ some d
    → Found buffer size d
unfolding deserialize
deserialize-Found buffer size d h = elim (dec_lt size (4 + n)) [
  | yes short ↦ absurd (ground arith)
  | no long ↦ record {
    n = n;
    n_eq = refl;
    fits = omega arith;
    d_eq = cc (deserialize-eq buffer size n refl (omega arith));
  }
]
  where
    n : ℕ
    n = le_value (window buffer 0 4)

-- A vector that is read consists of bytes, lies within the given size, and its encoding is what the
-- buffer begins with.
pub deserialize_sound :
    (buffer : List ℕ) (size : ℕ) (d : BinaryData)
    → IsBytes buffer
    → size ≤ length buffer
    → deserialize buffer size ≡ some d
    → IsValid d × (length (encode d) ≤ size) × (take (length (encode d)) buffer ≡ encode d)
unfolding encode
deserialize_sound buffer size d b s h = (
  rw f.d_eq (IsBytes-take f.n _ (IsBytes-drop 4 buffer b)),
  omega (arith, total, f.fits),
  rw (
    total,
    ← take-add 4 f.n buffer,
    f.d_eq,
    body,
    f.n_eq,
    le_window buffer 0 4 b (omega (arith, f.fits)),
  ),
)
  where
    f : Found buffer size d
    f = deserialize-Found buffer size d h

    body : length (window buffer 4 f.n) ≡ f.n
    body = length-window buffer 4 f.n (omega (arith, f.fits))

    total : length (encode d) ≡ 4 + f.n
    total =
        length-encode d ∙ ap (λ k. 4 + k) (ap (λ (e : BinaryData). length e.bytes) f.d_eq ∙ body)
