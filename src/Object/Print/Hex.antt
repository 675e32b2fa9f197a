-- ===== src/Object/Print/Hex.antt =====
-- src/utility.cpp and binary_data.cpp: the bytes are read back from what is printed.
use ipc_performance.Prelude.{
  ℕ, zero, suc, ◌+◌, ◌*◌, ◌/◌, ◌%◌, ◌≤◌, ◌<◌, ◌≡◌, refl, ap, ◌≢◌, ◌∙◌, Option, none, some, List, [],
  ◌∷◌, arith, dec_lt, ne→==, ℕ_discrete,
}
use ipc_performance.Prelude.Bytes.{IsBytes}
use ipc_performance.Text.{digit_char, digits, to_text, digit_in, fill, set_width}
use ipc_performance.Text.Numbers.{digit_16}
use ipc_performance.Object.Print.{print_bytes}

-- Two digits of each byte.
abbrev pub pairs : List ℕ → List ℕ
pairs [] = []
pairs (b ∷ bs) = digit_char (b / 16) ∷ digit_char (b % 16) ∷ pairs bs

digits_zero : (fuel : ℕ) (out : List ℕ) → digits 16 fuel 0 out ≡ out
unfolding digits
digits_zero zero out = refl
digits_zero (suc fuel) out = refl

digits_step :
    (fuel n : ℕ) (out : List ℕ)
    → n ≢ 0
    → digits 16 (suc fuel) n out ≡ digits 16 fuel (n / 16) (digit_char (n % 16) ∷ out)
unfolding digits
digits_step fuel n out h = rw (ne→== n 0 h) refl

digits_byte :
    (b : ℕ) → 16 ≤ b → b < 256 → digits 16 64 b [] ≡ digit_char (b / 16) ∷ digit_char (b % 16) ∷ []
digits_byte b lo hi =
    let low : b / 16 / 16 ≡ 0 = omega arith in
    let same : b / 16 % 16 ≡ b / 16 = omega arith in
    digits_step 63 b [] (omega arith)
    ∙ digits_step 62 (b / 16) (digit_char (b % 16) ∷ []) (omega arith)
    ∙ rw (low, same) (digits_zero 62 (digit_char (b / 16) ∷ digit_char (b % 16) ∷ []))

digits_small : (b : ℕ) → b ≢ 0 → b < 16 → digits 16 64 b [] ≡ digit_char (b % 16) ∷ []
digits_small b nz hi =
    let low : b / 16 ≡ 0 = omega arith in
    digits_step 63 b [] nz ∙ rw low (digits_zero 63 (digit_char (b % 16) ∷ []))

print_byte :
    (b : ℕ) → b < 256 → set_width 2 (to_text 16 b) ≡ digit_char (b / 16) ∷ digit_char (b % 16) ∷ []
unfolding set_width to_text fill
print_byte b h = elim (ℕ_discrete b 0) [
  | yes z ↦ rw z refl
  | no nz ↦ elim (dec_lt b 16) [
    | yes small ↦
        let none_before : b / 16 ≡ 0 = omega arith in
        rw (ne→== b 0 nz, digits_small b nz small, none_before) refl
    | no large ↦ rw (ne→== b 0 nz, digits_byte b (omega arith) h) refl
  ]
]

abbrev pub with_byte : Option ℕ → Option ℕ → Option (List ℕ) → Option (List ℕ)
with_byte (some high) (some low) (some bs) = some ((high * 16 + low) ∷ bs)
with_byte high low rest = none

-- The bytes that a text of pairs of digits stands for.
unfoldable pub read_pairs : List ℕ → Option (List ℕ)
read_pairs [] = some []
read_pairs (c ∷ []) = none
read_pairs (c ∷ d ∷ s) = with_byte (digit_in 16 c) (digit_in 16 d) (read_pairs s)

print_bytes-pairs : (bs : List ℕ) → IsBytes bs → print_bytes bs ≡ pairs bs
unfolding print_bytes
print_bytes-pairs [] v = refl
print_bytes-pairs (b ∷ bs) v = rw (print_byte b v.0, print_bytes-pairs bs v.1) refl

back : (bs : List ℕ) → IsBytes bs → read_pairs (pairs bs) ≡ some bs
unfolding read_pairs
back [] v = refl
back (b ∷ bs) v =
    let whole : b / 16 * 16 + b % 16 ≡ b = omega arith in
    rw (digit_16 (b / 16) (omega (arith, v.0)), digit_16 (b % 16) (omega arith), back bs v.1)
      (ap (λ n. some (n ∷ bs)) whole)

-- What `print_array` and the operator of BinaryData print for bytes is two digits for each, from which the
-- bytes are read back.
pub print_bytes-read_pairs : (bs : List ℕ) → IsBytes bs → read_pairs (print_bytes bs) ≡ some bs
print_bytes-read_pairs bs v = rw (print_bytes-pairs bs v) (back bs v)
