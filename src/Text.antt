-- ===== src/Text.antt =====
-- The texts that the program reads and prints, as lists of bytes: what it uses of std::to_string,
-- std::stoul, std::stoull, std::stoll, the stream manipulators and std::getline.
pub mod Numbers
pub mod Items
use ipc_performance.Prelude.{
  ℕ, zero, suc, ◌+◌, ◌-◌, ◌*◌, ◌/◌, ◌%◌, ◌^◌, Bool, true, false, ◌&&◌, ◌||◌, not, ◌==◌, ltb, leb,
  if◌then◌else◌, Option, none, some, List, [], ◌∷◌, ◌++◌, length, ◌≡◌, refl, eq→==,
}

-- A digit below 36 as it is printed.
abbrev pub digit_char : ℕ → ℕ
digit_char d = if ltb d 10 then b'0' + d else b'a' + (d - 10)

-- The digits of a number below 2 ^ fuel, in front of a text; none for 0.
unfoldable pub digits : ℕ → ℕ → ℕ → List ℕ → List ℕ
digits base zero n out = out
digits base (suc fuel) n out =
    let more = digits base fuel (n / base) (digit_char (n % base) ∷ out) in
    if n == 0 then out else more

-- A number of at most 64 bits: std::to_string in base 10, a stream with std::hex in base 16.
unfoldable pub to_text : ℕ → ℕ → List ℕ
to_text base n = if n == 0 then b'0' ∷ [] else digits base 64 n []

-- The value of a character as a digit, below 36.
unfoldable pub digit_value : ℕ → Option ℕ
digit_value c =
    if leb b'0' c && leb c b'9'
    then some (c - b'0')
    else if leb b'a' c && leb c b'z'
    then some (c - b'a' + 10)
    else if leb b'A' c && leb c b'Z'
    then some (c - b'A' + 10)
    else none

-- As a digit of the base.
unfoldable pub digit_in : ℕ → ℕ → Option ℕ
unfolding digit_value
digit_in base c = elim (digit_value c) [
  | none ↦ none
  | some d ↦ if ltb d base then some d else none
]

-- The longest run of digits: whether there is any, and the number behind the digits so far.
unfoldable pub scan : ℕ → List ℕ → Bool → ℕ → Bool × ℕ
scan base [] any n = (any, n)
scan base (c ∷ s) any n = elim (digit_in base c) [
  | none ↦ (any, n)
  | some d ↦ scan base s true (n * base + d)
]

-- `isspace`
unfoldable pub skip_space : List ℕ → List ℕ
skip_space [] = []
skip_space (c ∷ s) = if c == 32 || (leb 9 c && leb c 13) then skip_space s else c ∷ s

unfoldable pub sign : List ℕ → Bool × List ℕ
sign [] = (false, [])
sign (c ∷ s) = if c == b'-' then (true, s) else if c == b'+' then (false, s) else (false, c ∷ s)

abbrev is_some : Option ℕ → Bool
is_some none = false
is_some (some d) = true

-- In base 16 a `0x` is skipped if a digit follows.
unfoldable pub skip_prefix : ℕ → List ℕ → List ℕ
unfolding digit_in
skip_prefix base (a ∷ b ∷ c ∷ s) =
    if (base == 16) && (a == b'0') && (b == b'x' || b == b'X') && is_some (digit_in base c)
    then c ∷ s
    else a ∷ b ∷ c ∷ s
skip_prefix base s = s

-- std::stoul and std::stoull, both of 64 bits; `none` where they throw.
unfoldable pub stoull : ℕ → List ℕ → Option ℕ
unfolding skip_prefix skip_space sign scan
stoull base s =
    let (negative, t) = sign (skip_space s) in
    let (any, n) = scan base (skip_prefix base t) false 0 in
    if not any
    then none
    else if ltb (2 ^ 64 - 1) n
    then none
    else some (if negative then (2 ^ 64 - n) % 2 ^ 64 else n)

-- std::stoll in base 10, as its bit pattern; `none` where it throws.
unfoldable pub stoll : List ℕ → Option ℕ
unfolding skip_space sign scan
stoll s =
    let (negative, t) = sign (skip_space s) in
    let (any, n) = scan 10 t false 0 in
    if not any
    then none
    else if negative
    then (if ltb (2 ^ 63) n then none else some ((2 ^ 64 - n) % 2 ^ 64))
    else if leb (2 ^ 63) n
    then none
    else some n

-- std::setw with std::setfill('0').
unfoldable pub fill : ℕ → List ℕ
fill zero = []
fill (suc n) = b'0' ∷ fill n

unfoldable pub set_width : ℕ → List ℕ → List ℕ
unfolding fill
set_width w s = fill (w - length s) ++ s

abbrev pub cons_first : ℕ → List (List ℕ) → List (List ℕ)
cons_first c [] = (c ∷ []) ∷ []
cons_first c (w ∷ ws) = (c ∷ w) ∷ ws

-- `while (std::getline(stream, item, sep)) items.push_back(item)`: a text that ends with the separator
-- has no empty item behind it.
unfoldable pub items : ℕ → List ℕ → List (List ℕ)
items sep [] = []
items sep (c ∷ s) = let rest = items sep s in if c == sep then [] ∷ rest else cons_first c rest

-- Whether two texts are the same: `==` of std::string.
unfoldable pub same_text : List ℕ → List ℕ → Bool
same_text [] [] = true
same_text (x ∷ xs) (y ∷ ys) = (x == y) && same_text xs ys
same_text xs ys = false

pub same_text-refl : (text : List ℕ) → same_text text text ≡ true
unfolding same_text
same_text-refl [] = refl
same_text-refl (c ∷ text) = rw (eq→== c c refl) (same_text-refl text)
