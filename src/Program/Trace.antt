-- ===== src/Program/Trace.antt =====
-- src/main.cpp: `run_real_world` reads a recorded trace, one data point from each line.
pub mod RoundTrip
use ipc_performance.Prelude.{
  ℕ, zero, suc, Bool, true, false, ◌==◌, if◌then◌else◌, Option, none, some, List, [], ◌∷◌, ◌++◌,
  drop, to_u32,
}
use ipc_performance.Text.{stoll, stoull, items}
use ipc_performance.Object.JavaSymbol.{JavaSymbol}

-- `RealWorldBenchmark::DataPoint`
pub record DataPoint : Type 0 where
  pub time : ℕ
  pub symbol : JavaSymbol

-- A result, an exception that nothing catches, or an index outside of the vector.
pub data Parsed {ℓ} (A : Type ℓ) : Type ℓ where
  parsed : A → Parsed A
  throws : Parsed A
  outside : Parsed A

infixl 1 ◌>>=◌
abbrev pub ◌>>=◌ {ℓ κ} : {A : Type ℓ} {B : Type κ} → Parsed A → (A → Parsed B) → Parsed B
parsed a >>= f = f a
throws >>= f = throws
outside >>= f = outside

abbrev pub or_throws {ℓ} : {A : Type ℓ} → Option A → Parsed A
or_throws none = throws
or_throws (some a) = parsed a

-- `elems[n]`
unfoldable pub item {ℓ} : {A : Type ℓ} → ℕ → List A → Parsed A
item n [] = outside
item zero (x ∷ xs) = parsed x
item (suc n) (x ∷ xs) = item n xs

-- `s.erase(s.size() - 1)`, which throws if the text is empty.
unfoldable pub erase_last : List ℕ → Option (List ℕ)
erase_last [] = none
erase_last (c ∷ []) = some []
erase_last (c ∷ d ∷ s) = elim (erase_last (d ∷ s)) [ none ↦ none | some t ↦ some (c ∷ t) ]

-- The loop that puts the items from the seventh on behind the name.
unfoldable pub add_items : List ℕ → List (List ℕ) → List ℕ
add_items name [] = name
add_items name (p ∷ ps) = add_items (name ++ 32 ∷ p) ps

-- `std::remove` and `erase`
unfoldable pub remove_char : ℕ → List ℕ → List ℕ
remove_char x [] = []
remove_char x (c ∷ s) = let rest = remove_char x s in if c == x then rest else c ∷ rest

unfoldable pub parse_items : List (List ℕ) → Parsed DataPoint
unfolding item erase_last add_items remove_char
parse_items elems = do
  t ← item 2 elems
  time ← or_throws (stoll (drop 1 t))
  a ← item 3 elems
  address ← or_throws (stoull 16 a)
  l ← item 4 elems
  shorter ← or_throws (erase_last l)
  area ← or_throws (stoull 10 shorter)
  first ← item 5 elems
  parsed (record {
    time = time;
    symbol = record {
      address = address;
      area = to_u32 area;
      symbol = remove_char 13 (add_items first (drop 6 elems));
    };
  })

unfoldable pub parse_line : List ℕ → Parsed DataPoint
unfolding parse_items
parse_line s = parse_items (items 32 s)

unfoldable pub parse_lines : List (List ℕ) → Parsed (List DataPoint)
unfolding parse_line
parse_lines [] = parsed []
parse_lines (l ∷ ls) = do point ← parse_line l; points ← parse_lines ls; parsed (point ∷ points)

-- The loop over the file's lines.
unfoldable pub parse_trace : List ℕ → Parsed (List DataPoint)
unfolding parse_lines
parse_trace text = parse_lines (items 10 text)
