-- ===== src/Object/JavaSymbol/Wire.antt =====
-- object/java_symbol.cpp against the byte sequence that stands for a symbol.
use ipc_performance.Prelude.{
  ℕ, ◌+◌, ◌≤◌, ◌<◌, ◌%◌, ◌^◌, ◌≡◌, refl, ap, ◌∙◌, sym, some, List, ◌++◌, arith, take, length,
  minus_one, length-append, take_all, take-append_left, le→ltb, lt→ltb, ◌==◌, Bool-cases, inl, inr,
  append_assoc, dec_lt,
}
use ipc_performance.Prelude.Bytes.{
  IsBytes, memcpy, memcpy-append, window, le_bytes, le_value, length-le_bytes,
}
use ipc_performance.Prelude.Windows.{
  le_field, skip_field, le_window, le_window-lt, window-join, length-window, IsBytes-take,
  IsBytes-drop,
}
use ipc_performance.Object.JavaSymbol.{JavaSymbol, serialize, deserialize, IsValid}

-- Address, length of the area, length of the name, name.
unfoldable pub encode : JavaSymbol → List ℕ
encode s = le_bytes 8 s.address ++ (le_bytes 4 s.area ++ (le_bytes 4 (length s.symbol) ++ s.symbol))

pub length-encode : (s : JavaSymbol) → length (encode s) ≡ 16 + length s.symbol
unfolding encode
length-encode s = omega (
  arith,
  length-append (le_bytes 8 s.address)
      (le_bytes 4 s.area ++ (le_bytes 4 (length s.symbol) ++ s.symbol)),
  length-append (le_bytes 4 s.area) (le_bytes 4 (length s.symbol) ++ s.symbol),
  length-append (le_bytes 4 (length s.symbol)) s.symbol,
  length-le_bytes 8 s.address,
  length-le_bytes 4 s.area,
  length-le_bytes 4 (length s.symbol),
)

-- Four copies side by side are one.
memcpy_fields :
    (buffer : List ℕ) (base : ℕ) (a b c d : List ℕ)
    → length a ≡ 8
    → length b ≡ 4
    → length c ≡ 4
    → memcpy (memcpy (memcpy (memcpy buffer base a) (base + 8) b) (base + 12) c) (base + 16) d
      ≡ memcpy buffer base (a ++ (b ++ (c ++ d)))
memcpy_fields buffer base a b c d ea eb ec =
    memcpy-append (memcpy (memcpy buffer base a) (base + 8) b) (base + 12) c d (base + 16)
      (omega arith)
    ∙ memcpy-append (memcpy buffer base a) (base + 8) b (c ++ d) (base + 12) (omega arith)
    ∙ memcpy-append buffer base a (b ++ (c ++ d)) (base + 8) (omega arith)

-- A symbol that fits is copied to the buffer in full, and nothing else is written.
pub serialize-fits :
    (s : JavaSymbol) (buffer : List ℕ) (base size : ℕ)
    → size < 2 ^ 32
    → length (encode s) ≤ size
    → serialize s buffer base size ≡ (length (encode s), memcpy buffer base (encode s))
unfolding serialize encode
serialize-fits s buffer base size w h = rw (
  le→ltb size (16 + length s.symbol) fits,
  whole_size,
  whole,
  take_all (length s.symbol) s.symbol (omega arith),
  memcpy_fields buffer base (le_bytes 8 s.address) (le_bytes 4 s.area)
      (le_bytes 4 (length s.symbol)) s.symbol (length-le_bytes 8 s.address)
      (length-le_bytes 4 s.area) (length-le_bytes 4 (length s.symbol)),
  length-encode s,
)
  where
    fits : 16 + length s.symbol ≤ size
    fits = omega (arith, length-encode s)

    whole_size : (16 + length s.symbol) % 2 ^ 32 ≡ 16 + length s.symbol
    whole_size = omega (arith, fits)

    whole : length s.symbol % 2 ^ 32 ≡ length s.symbol
    whole = omega (arith, fits)

-- One that does not fit is refused with -1 and the buffer is left alone.
pub serialize-refuses :
    (s : JavaSymbol) (buffer : List ℕ) (base size : ℕ)
    → size < length (encode s)
    → serialize s buffer base size ≡ (minus_one, buffer)
unfolding serialize
serialize-refuses s buffer base size h =
    rw (lt→ltb size (16 + length s.symbol) (omega (arith, length-encode s)))

-- The symbol that a buffer holds, for a name of `n` bytes.
abbrev held : List ℕ → ℕ → JavaSymbol
held buffer n = record {
  address = le_value (window buffer 0 8);
  area = le_value (window buffer 8 4);
  symbol = window buffer 16 n;
}

deserialize-eq :
    (buffer : List ℕ) (size n : ℕ)
    → n ≡ le_value (window buffer 12 4)
    → 16 + n ≤ size
    → deserialize buffer size ≡ some (held buffer n)
unfolding deserialize
deserialize-eq buffer size n e h = elim (Bool-cases (n == 0)) [
  | inl z ↦
      let no_name : n ≡ 0 = ground arith in
      rw (← e, le→ltb size 16 (omega arith), le→ltb size (16 + n) h, z, no_name)
  | inr z ↦ rw (← e, le→ltb size 16 (omega arith), le→ltb size (16 + n) h, z)
]

-- What `encode` put in front of a buffer is read back.
pub deserialize-encode :
    (s : JavaSymbol) (rest : List ℕ) (size : ℕ)
    → IsValid s
    → size < 2 ^ 32
    → length (encode s) ≤ size
    → deserialize (encode s ++ rest) size ≡ some s
unfolding encode
deserialize-encode s rest size v w h =
    deserialize-eq (encode s ++ rest) size n (sym name_size) (omega (arith, length-encode s)) ∙ λ i.
    some (record { address = address i; area = area i; symbol = name i })
  where
    n : ℕ
    n = length s.symbol

    tail3 : List ℕ
    tail3 = s.symbol ++ rest

    tail2 : List ℕ
    tail2 = le_bytes 4 n ++ tail3

    tail1 : List ℕ
    tail1 = le_bytes 4 s.area ++ tail2

    shape : encode s ++ rest ≡ le_bytes 8 s.address ++ tail1
    shape = rw (
      append_assoc (le_bytes 8 s.address) (le_bytes 4 s.area ++ (le_bytes 4 n ++ s.symbol)) rest,
      append_assoc (le_bytes 4 s.area) (le_bytes 4 n ++ s.symbol) rest,
      append_assoc (le_bytes 4 n) s.symbol rest,
    )

    address : le_value (window (encode s ++ rest) 0 8) ≡ s.address
    address = rw shape (le_field 8 s.address tail1 v.address_fits)

    area : le_value (window (encode s ++ rest) 8 4) ≡ s.area
    area = rw (shape, skip_field 8 s.address tail1 8 0 4 refl) (le_field 4 s.area tail2 v.area_fits)

    name_size : le_value (window (encode s ++ rest) 12 4) ≡ n
    name_size =
        rw (shape, skip_field 8 s.address tail1 12 4 4 refl, skip_field 4 s.area tail2 4 0 4 refl)
          (le_field 4 n tail3 (omega (arith, length-encode s)))

    name : window (encode s ++ rest) 16 n ≡ s.symbol
    name =
        rw
          (
            shape,
            skip_field 8 s.address tail1 16 8 n refl,
            skip_field 4 s.area tail2 8 4 n refl,
            skip_field 4 n tail3 4 0 n refl,
          )
          (take-append_left n s.symbol rest refl)

-- What a successful read has found.
record Found (buffer : List ℕ) (size : ℕ) (s : JavaSymbol) : Type 0 where
  n : ℕ
  n_eq : n ≡ le_value (window buffer 12 4)
  fits : 16 + n ≤ size
  s_eq : s ≡ held buffer n

deserialize-Found :
    (buffer : List ℕ) (size : ℕ) (s : JavaSymbol)
    → deserialize buffer size ≡ some s
    → Found buffer size s
unfolding deserialize
deserialize-Found buffer size s h = elim (dec_lt size (16 + n)) [
  | yes short ↦ absurd (ground arith)
  | no long ↦ record {
    n = n;
    n_eq = refl;
    fits = omega arith;
    s_eq = cc (deserialize-eq buffer size n refl (omega arith));
  }
]
  where
    n : ℕ
    n = le_value (window buffer 12 4)

held-IsValid :
    (buffer : List ℕ) (n : ℕ) → IsBytes buffer → 16 + n ≤ length buffer → IsValid (held buffer n)
held-IsValid buffer n b h = record {
  address_fits = le_window-lt buffer 0 8 b (omega arith);
  area_fits = le_window-lt buffer 8 4 b (omega arith);
  symbol_fits = IsBytes-take n _ (IsBytes-drop 16 buffer b);
}

encode-held :
    (buffer : List ℕ) (n : ℕ)
    → IsBytes buffer
    → 16 + n ≤ length buffer
    → n ≡ le_value (window buffer 12 4)
    → encode (held buffer n) ≡ take (16 + n) buffer
unfolding encode
encode-held buffer n b h e =
    rw
      (
        length-window buffer 16 n h,
        le_window buffer 0 8 b (omega arith),
        le_window buffer 8 4 b (omega arith),
        ap (le_bytes 4) e,
        le_window buffer 12 4 b (omega arith),
        window-join buffer 12 4 16 n (4 + n) refl refl,
        window-join buffer 8 4 12 (4 + n) (8 + n) refl (omega arith),
      )
      (window-join buffer 0 8 8 (8 + n) (16 + n) refl (omega arith))

-- A symbol that is read has members in range, lies within the given size, and its encoding is what
-- the buffer begins with.
pub deserialize_sound :
    (buffer : List ℕ) (size : ℕ) (s : JavaSymbol)
    → IsBytes buffer
    → size ≤ length buffer
    → deserialize buffer size ≡ some s
    → IsValid s × (length (encode s) ≤ size) × (take (length (encode s)) buffer ≡ encode s)
deserialize_sound buffer size s b le h =
    let f : Found buffer size s = deserialize-Found buffer size s h in
    let in_buffer : 16 + f.n ≤ length buffer = omega (arith, f.fits) in
    let same : s ≡ held buffer f.n = f.s_eq in
    let name : length s.symbol ≡ f.n =
      ap (λ (e : JavaSymbol). length e.symbol) same ∙ length-window buffer 16 f.n in_buffer in
    let total : length (encode s) ≡ 16 + f.n = omega (arith, length-encode s, name) in
    (
      rw same (held-IsValid buffer f.n b in_buffer),
      omega (arith, total, f.fits),
      rw total (sym (ap encode same ∙ encode-held buffer f.n b in_buffer f.n_eq)),
    )
