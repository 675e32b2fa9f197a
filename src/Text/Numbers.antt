-- ===== src/Text/Numbers.antt =====
-- Numbers are read back from their texts.
use native.Mathlib.Nat.{pow-suc}
use mathlib.Core.Path.{subst}
use ipc_performance.Prelude.{
  ℕ, zero, suc, ◌+◌, ◌-◌, ◌*◌, ◌/◌, ◌%◌, ◌^◌, ◌≤◌, ◌<◌, ◌≡◌, ◌≢◌, refl, ap, ◌∙◌, sym, Bool, true,
  false, none, some, List, [], ◌∷◌, ◌++◌, arith, ne→==, eq→==, le→ltb, lt→leb, ℕ_discrete,
}
use ipc_performance.Text.Items.{Lacks}
use ipc_performance.Text.{
  digit_char, digits, to_text, digit_value, digit_in, scan, skip_space, sign, skip_prefix, stoull,
  stoll,
}

-- A text that does not go on with a digit.
abbrev pub Ends : ℕ → List ℕ → Type 0
Ends base [] = Unit {0}
Ends base (c ∷ s) = digit_in base c ≡ none

scan-Ends :
    (base : ℕ) (s : List ℕ) (any : Bool) (n : ℕ) → Ends base s → scan base s any n ≡ (any, n)
unfolding scan
scan-Ends base [] any n e = refl
scan-Ends base (c ∷ s) any n e = rw (e, scan) refl

digit_10 : (d : ℕ) → d < 10 → digit_in 10 (digit_char d) ≡ some d
unfolding digit_in digit_value
digit_10 d h = ground arith

pub digit_16 : (d : ℕ) → d < 16 → digit_in 16 (digit_char d) ≡ some d
unfolding digit_in digit_value
digit_16 d h = ground arith

-- What the bases 10 and 16 have in common.
record Base (base : ℕ) : Type 0 where
  whole : (n : ℕ) → n / base * base + n % base ≡ n
  digit : (n : ℕ) → digit_in base (digit_char (n % base)) ≡ some (n % base)
  half : (n m : ℕ) → n < m * 2 → n / base < m
  small : (n : ℕ) → n / base ≡ 0 → n % base ≡ n
  below : (n : ℕ) → base ≤ 16 → n % base < 16

decimal : Base 10
decimal = record {
  whole = λ n. omega arith;
  digit = λ n. digit_10 (n % 10) (omega arith);
  half = λ n m h. omega arith;
  small = λ n h. omega arith;
  below = λ n h. omega arith;
}

hexadecimal : Base 16
hexadecimal = record {
  whole = λ n. omega arith;
  digit = λ n. digit_16 (n % 16) (omega arith);
  half = λ n m h. omega arith;
  small = λ n h. omega arith;
  below = λ n h. omega arith;
}

module _ {base : ℕ} (b : Base base) where
  digits_zero : (fuel : ℕ) (out : List ℕ) → digits base fuel 0 out ≡ out
  unfolding digits
  digits_zero zero out = refl
  digits_zero (suc fuel) out = refl

  scan_digit :
      (n : ℕ) (out : List ℕ) (any : Bool) (m : ℕ)
      → scan base (digit_char (n % base) ∷ out) any m ≡ scan base out true (m * base + n % base)
  unfolding scan
  scan_digit n out any m = rw (b.digit n, scan) refl

  -- Reading the digits of a number that is not 0 gives the number.
  scan-digits :
      (fuel n : ℕ) (out : List ℕ) (any : Bool)
      → 0 < n
      → n < 2 ^ fuel
      → scan base (digits base fuel n out) any 0 ≡ scan base out true n
  unfolding digits
  scan-digits zero n out any pos h = absurd (omega arith)
  scan-digits (suc fuel) n out any pos h =
      let next : List ℕ = digit_char (n % base) ∷ out in
      rw (ne→== n 0 (omega arith)) (elim (ℕ_discrete (n / base) 0) [
        | yes z ↦
            let last : 0 * base + n % base ≡ n = omega (arith, b.small n z) in
            rw (z, digits_zero fuel next, scan_digit n out any 0, last)
        | no more ↦ rw (
          scan-digits fuel (n / base) next any (omega arith)
              (b.half n (2 ^ fuel) (omega (arith, pow-suc 2 fuel))),
          scan_digit n out true (n / base),
          b.whole n,
        )
      ])

  digits-append :
      (fuel n : ℕ) (out rest : List ℕ)
      → digits base fuel n out ++ rest ≡ digits base fuel n (out ++ rest)
  unfolding digits
  digits-append zero n out rest = refl
  digits-append (suc fuel) n out rest = elim (ℕ_discrete n 0) [
    | yes z ↦ rw (eq→== n 0 z) refl
    | no more ↦
        rw (ne→== n 0 more) (digits-append fuel (n / base) (digit_char (n % base) ∷ out) rest)
  ]

  -- The first digit.
  record Headed (s : List ℕ) : Type 0 where
    first : ℕ
    behind : List ℕ
    starts : s ≡ digit_char (first % base) ∷ behind

  digits-Headed :
      (fuel n : ℕ) (out : List ℕ) → 0 < n → n < 2 ^ fuel → Headed (digits base fuel n out)
  unfolding digits
  digits-Headed zero n out pos h = absurd (omega arith)
  digits-Headed (suc fuel) n out pos h =
      let next : List ℕ = digit_char (n % base) ∷ out in
      rw (ne→== n 0 (omega arith)) (elim (ℕ_discrete (n / base) 0) [
        | yes z ↦ rw (z, digits_zero fuel next) (record { first = n; behind = out; starts = refl })
        | no more ↦
            digits-Headed fuel (n / base) next (omega arith)
              (b.half n (2 ^ fuel) (omega (arith, pow-suc 2 fuel)))
      ])

  -- A text that begins with the digits of a number and goes on with none.
  record Spells (s : List ℕ) (n : ℕ) : Type 0 where
    head : Headed s
    value : scan base s false 0 ≡ (true, n)

  to_text-Spells :
      (n : ℕ) (rest : List ℕ) → n < 2 ^ 64 → Ends base rest → Spells (to_text base n ++ rest) n
  unfolding to_text
  to_text-Spells n rest h e = elim (ℕ_discrete n 0) [
    | yes z ↦ rw (eq→== n 0 z) (record {
      head = record { first = 0; behind = rest; starts = rw zero_char };
      value =
          ap (λ c. scan base (c ∷ rest) false 0) (sym zero_char)
          ∙ scan_digit 0 rest false 0
          ∙ ap (scan base rest true) (omega (arith, b.whole 0, zero_digit))
          ∙ scan-Ends base rest true n e;
    })
    | no more ↦
        rw (ne→== n 0 more, digits-append 64 n [] rest)
          (record {
            head = digits-Headed 64 n rest (omega arith) h;
            value = scan-digits 64 n rest false (omega arith) h ∙ scan-Ends base rest true n e;
          })
  ]
    where
      zero_digit : 0 % base ≡ 0
      zero_digit = omega (arith, b.whole 0)

      zero_char : digit_char (0 % base) ≡ b'0'
      zero_char = rw zero_digit refl

digit_not_space :
    (base n : ℕ) (s : List ℕ)
    → n % base < 16
    → (skip_space (digit_char (n % base) ∷ s) ≡ digit_char (n % base) ∷ s)
      × (sign (digit_char (n % base) ∷ s) ≡ (false, digit_char (n % base) ∷ s))
unfolding skip_space sign
digit_not_space base n s h = ground arith

-- Before a digit neither space nor a sign is skipped.
plain :
    {base n : ℕ} {s : List ℕ} (b : Base base)
    → base ≤ 16
    → Spells b s n
    → (skip_space s ≡ s) × (sign s ≡ (false, s))
plain {base} {n} {s} b small sp =
    subst (λ t. (skip_space t ≡ t) × (sign t ≡ (false, t))) (sym sp.head.starts)
      (digit_not_space base sp.head.first sp.head.behind (b.below sp.head.first small))

skip_prefix_10 : (s : List ℕ) → skip_prefix 10 s ≡ s
unfolding skip_prefix
skip_prefix_10 [] = refl
skip_prefix_10 (a ∷ []) = refl
skip_prefix_10 (a ∷ c ∷ []) = refl
skip_prefix_10 (a ∷ c ∷ d ∷ s) = refl

-- What `std::to_string` prints of 64 bits is read by `std::stoul` and `std::stoull`.
pub stoull-to_text :
    (n : ℕ) (rest : List ℕ) → n < 2 ^ 64 → Ends 10 rest → stoull 10 (to_text 10 n ++ rest) ≡ some n
unfolding stoull
stoull-to_text n rest h e =
    let sp : Spells decimal (to_text 10 n ++ rest) n = to_text-Spells decimal n rest h e in
    let p = plain decimal (omega arith) sp in
    rw
      (
        p.0,
        p.1,
        skip_prefix_10 (to_text 10 n ++ rest),
        sp.value,
        le→ltb (2 ^ 64 - 1) n (omega arith),
      )
      refl

pub stoll-to_text :
    (n : ℕ) (rest : List ℕ) → n < 2 ^ 63 → Ends 10 rest → stoll (to_text 10 n ++ rest) ≡ some n
unfolding stoll
stoll-to_text n rest h e =
    let sp : Spells decimal (to_text 10 n ++ rest) n =
      to_text-Spells decimal n rest (omega arith) e in
    let p = plain decimal (omega arith) sp in rw (p.0, p.1, sp.value, lt→leb (2 ^ 63) n h) refl

skip_0x :
    (n : ℕ) (s : List ℕ)
    → skip_prefix 16 (b'0' ∷ b'x' ∷ digit_char (n % 16) ∷ s) ≡ digit_char (n % 16) ∷ s
unfolding skip_prefix
skip_0x n s = rw (digit_16 (n % 16) (omega arith)) refl

-- And what a stream prints in base 16 behind `0x`.
pub stoull-hex :
    (n : ℕ) (rest : List ℕ)
    → n < 2 ^ 64
    → Ends 16 rest
    → stoull 16 (b'0' ∷ b'x' ∷ (to_text 16 n ++ rest)) ≡ some n
unfolding stoull
stoull-hex n rest h e =
    let sp : Spells hexadecimal (to_text 16 n ++ rest) n = to_text-Spells hexadecimal n rest h e in
    let s : List ℕ = to_text 16 n ++ rest in
    let skipped : skip_prefix 16 (b'0' ∷ b'x' ∷ s) ≡ s =
      subst (λ t. skip_prefix 16 (b'0' ∷ b'x' ∷ t) ≡ t) (sym sp.head.starts)
        (skip_0x sp.head.first sp.head.behind) in
    rw (skipped, sp.value, le→ltb (2 ^ 64 - 1) n (omega arith)) refl

-- No digit is a separator.
module _ {base : ℕ} (b : Base base) (small : base ≤ 16) (sep : ℕ) (low : sep < 48) where
  digit_char-ne : (n : ℕ) → digit_char (n % base) ≢ sep
  digit_char-ne n e = let d : n % base < 16 = b.below n small in ground (arith, d)

  digits-Lacks : (fuel n : ℕ) (out : List ℕ) → Lacks sep out → Lacks sep (digits base fuel n out)
  unfolding digits
  digits-Lacks zero n out l = l
  digits-Lacks (suc fuel) n out l = elim (ℕ_discrete n 0) [
    | yes z ↦ rw (eq→== n 0 z) l
    | no more ↦
        rw (ne→== n 0 more)
          (digits-Lacks fuel (n / base) (digit_char (n % base) ∷ out) (digit_char-ne n, l))
  ]

  text-Lacks : (n : ℕ) → Lacks sep (to_text base n)
  unfolding to_text
  text-Lacks n = elim (ℕ_discrete n 0) [
    | yes z ↦ rw (eq→== n 0 z) ((λ e. absurd (omega arith)), tt)
    | no more ↦ rw (ne→== n 0 more) (digits-Lacks 64 n [] tt)
  ]

pub to_text-Lacks : (sep : ℕ) → sep < 48 → (n : ℕ) → Lacks sep (to_text 10 n)
to_text-Lacks sep low = text-Lacks decimal (omega arith) sep low

pub to_text_hex-Lacks : (sep : ℕ) → sep < 48 → (n : ℕ) → Lacks sep (to_text 16 n)
to_text_hex-Lacks sep low = text-Lacks hexadecimal (omega arith) sep low
