-- ===== src/Program/Trace/RoundTrip.antt =====
-- src/main.cpp: the points of a trace are read back from its lines.
use ipc_performance.Prelude.{
  ℕ, ◌^◌, ◌<◌, ◌≡◌, refl, ap, ◌∙◌, sym, some, List, [], ◌∷◌, ◌++◌, arith, append_assoc, append-nil,
  to_u32, ne→==,
}
use ipc_performance.Text.{to_text, stoull, stoll, items}
use ipc_performance.Text.Numbers.{
  stoull-to_text, stoll-to_text, stoull-hex, to_text-Lacks, to_text_hex-Lacks,
}
use ipc_performance.Text.Items.{
  Lacks, Lacks-append, items-front, join, EndsWell, Joined, join-items,
}
use ipc_performance.Program.Trace.{
  DataPoint, parsed, erase_last, add_items, remove_char, parse_items, parse_line, parse_lines,
  parse_trace,
}

-- A line of a trace: two words, the time behind an @, the address, the length and a colon, the name.
unfoldable pub line : List ℕ → List ℕ → DataPoint → List ℕ
line v w p =
    v
    ++ 32
      ∷ (w
          ++ 32
            ∷ ((64 ∷ to_text 10 p.time)
                ++ 32
                  ∷ ((b'0' ∷ b'x' ∷ to_text 16 p.symbol.address)
                      ++ 32 ∷ ((to_text 10 p.symbol.area ++ 58 ∷ []) ++ 32 ∷ p.symbol.symbol))))

-- The numbers are in range, and the name neither ends with a space nor has a line break.
pub record Printable (p : DataPoint) : Type 0 where
  pub time_fits : p.time < 2 ^ 63
  pub address_fits : p.symbol.address < 2 ^ 64
  pub area_fits : p.symbol.area < 2 ^ 32
  pub name_ends : EndsWell 32 p.symbol.symbol
  pub no_return : Lacks 13 p.symbol.symbol
  pub no_break : Lacks 10 p.symbol.symbol

add_items-join : (name : List ℕ) (ps : List (List ℕ)) → add_items name ps ≡ join 32 (name ∷ ps)
unfolding add_items
add_items-join name [] = refl
add_items-join name (p ∷ []) = refl
add_items-join name (p ∷ q ∷ ps) =
    add_items-join (name ++ 32 ∷ p) (q ∷ ps) ∙ append_assoc name (32 ∷ p) (32 ∷ join 32 (q ∷ ps))

remove_char-Lacks : (x : ℕ) (s : List ℕ) → Lacks x s → remove_char x s ≡ s
unfolding remove_char
remove_char-Lacks x [] l = refl
remove_char-Lacks x (c ∷ s) l = rw (ne→== c x l.0, remove_char-Lacks x s l.1) refl

erase_last-append : (s : List ℕ) (c : ℕ) → erase_last (s ++ c ∷ []) ≡ some s
unfolding erase_last
erase_last-append [] c = refl
erase_last-append (a ∷ []) c = refl
erase_last-append (a ∷ b ∷ s) c = rw (erase_last-append (b ∷ s) c, erase_last) refl

module _ (v w : List ℕ) (lv : Lacks 32 v) (lw : Lacks 32 w) (p : DataPoint) (ok : Printable p) where
  time : List ℕ
  time = 64 ∷ to_text 10 p.time

  address : List ℕ
  address = b'0' ∷ b'x' ∷ to_text 16 p.symbol.address

  area : List ℕ
  area = to_text 10 p.symbol.area ++ 58 ∷ []

  items-line : items 32 (line v w p) ≡ v ∷ w ∷ time ∷ address ∷ area ∷ items 32 p.symbol.symbol
  unfolding line time address area
  items-line =
      items-front 32 v _ lv
      ∙ ap (λ i. v ∷ i)
          (items-front 32 w _ lw
            ∙ ap (λ i. w ∷ i)
                (items-front 32 time _
                    ((λ e. absurd (omega arith)), to_text-Lacks 32 (omega arith) p.time)
                  ∙ ap (λ i. time ∷ i)
                      (items-front 32 address _ (
                        (λ e. absurd (omega arith)),
                        (
                          (λ e. absurd (omega arith)),
                          to_text_hex-Lacks 32 (omega arith) p.symbol.address,
                        ),
                      )
                        ∙ ap (λ i. address ∷ i)
                            (items-front 32 area p.symbol.symbol (
                              Lacks-append 32 (to_text 10 p.symbol.area) (58 ∷ [])
                                (to_text-Lacks 32 (omega arith) p.symbol.area)
                                ((λ e. absurd (omega arith)), tt))))))

  time_read : stoll (to_text 10 p.time) ≡ some p.time
  time_read =
      ap stoll (sym (append-nil (to_text 10 p.time))) ∙ stoll-to_text p.time [] ok.time_fits tt

  address_read : stoull 16 (b'0' ∷ b'x' ∷ to_text 16 p.symbol.address) ≡ some p.symbol.address
  address_read =
      ap (λ s. stoull 16 (b'0' ∷ b'x' ∷ s)) (sym (append-nil (to_text 16 p.symbol.address)))
      ∙ stoull-hex p.symbol.address [] ok.address_fits tt

  area_read : stoull 10 (to_text 10 p.symbol.area) ≡ some p.symbol.area
  area_read =
      ap (stoull 10) (sym (append-nil (to_text 10 p.symbol.area)))
      ∙ stoull-to_text p.symbol.area [] (omega (arith, ok.area_fits)) tt

  parse_items-line :
      (first : List ℕ) (others : List (List ℕ))
      → join 32 (first ∷ others) ≡ p.symbol.symbol
      → parse_items (v ∷ w ∷ time ∷ address ∷ area ∷ first ∷ others) ≡ parsed p
  unfolding parse_items time address area
  parse_items-line first others e =
      rw (time_read, address_read, erase_last-append (to_text 10 p.symbol.area) 58, area_read)
        (λ i. parsed (record {
          time = p.time;
          symbol = record { address = p.symbol.address; area = area_path i; symbol = name_path i };
        }))
    where
      area_path : to_u32 p.symbol.area ≡ p.symbol.area
      area_path = omega (arith, ok.area_fits)

      name_path : remove_char 13 (add_items first others) ≡ p.symbol.symbol
      name_path =
          ap (remove_char 13) (add_items-join first others ∙ e)
          ∙ remove_char-Lacks 13 p.symbol.symbol ok.no_return

  pub parse_line-line : parse_line (line v w p) ≡ parsed p
  unfolding parse_line
  parse_line-line =
      let j : Joined 32 p.symbol.symbol (items 32 p.symbol.symbol) =
        join-items 32 p.symbol.symbol ok.name_ends in
      ap parse_items (items-line ∙ ap (λ i. v ∷ w ∷ time ∷ address ∷ area ∷ i) j.some_items)
      ∙ parse_items-line j.first j.others j.joined

  -- The line has no line break if the words have none.
  line-Lacks : Lacks 10 v → Lacks 10 w → Lacks 10 (line v w p)
  unfolding line
  line-Lacks bv bw = Lacks-append 10 v _ bv (
    (λ e. absurd (omega arith)),
    Lacks-append 10 w _ bw (
      (λ e. absurd (omega arith)),
      Lacks-append 10 (64 ∷ to_text 10 p.time) _
          ((λ e. absurd (omega arith)), to_text-Lacks 10 (omega arith) p.time)
          (
            (λ e. absurd (omega arith)),
            Lacks-append 10 (b'0' ∷ b'x' ∷ to_text 16 p.symbol.address) _
                (
                  (λ e. absurd (omega arith)),
                  (
                    (λ e. absurd (omega arith)),
                    to_text_hex-Lacks 10 (omega arith) p.symbol.address,
                  ),
                )
                (
                  (λ e. absurd (omega arith)),
                  Lacks-append 10 (to_text 10 p.symbol.area ++ 58 ∷ []) _
                      (Lacks-append 10 (to_text 10 p.symbol.area) (58 ∷ [])
                        (to_text-Lacks 10 (omega arith) p.symbol.area)
                        ((λ e. absurd (omega arith)), tt))
                      ((λ e. absurd (omega arith)), ok.no_break),
                ),
          ),
    ),
  )

-- A file of one line for each point, all with the same two words.
unfoldable pub trace : List ℕ → List ℕ → List DataPoint → List ℕ
trace v w [] = []
trace v w (p ∷ ps) = line v w p ++ 10 ∷ trace v w ps

abbrev pub AllPrintable : List DataPoint → Type 0
AllPrintable [] = Unit {0}
AllPrintable (p ∷ ps) = Printable p × AllPrintable ps

-- A word of a trace.
abbrev pub IsWord : List ℕ → Type 0
IsWord v = Lacks 32 v × Lacks 10 v

items_none : (sep : ℕ) → items sep [] ≡ []
unfolding items
items_none sep = refl

-- The recorded traces of the real world benchmark: from a file with one line for each point, of
-- two words without spaces and line breaks, the time behind an @, the address in base 16 behind
-- 0x, the length in base 10 with a colon behind it, and the name, the loop of `run_real_world`
-- reads back just these points, for times below 2 ^ 63, addresses of 64 bits, lengths of 32 bits,
-- and names that are not empty, do not end with a space and have no line break or carriage
-- return, although they may have spaces.
pub parse_trace-trace :
    (v w : List ℕ) (ps : List DataPoint)
    → IsWord v
    → IsWord w
    → AllPrintable ps
    → parse_trace (trace v w ps) ≡ parsed ps
unfolding parse_trace parse_lines trace
parse_trace-trace v w [] iv iw ok = ap parse_lines (items_none 10)
parse_trace-trace v w (p ∷ ps) iv iw ok =
    ap parse_lines
      (items-front 10 (line v w p) (trace v w ps) (line-Lacks v w iv.0 iw.0 p ok.0 iv.1 iw.1))
    ∙ rw (parse_line-line v w iv.0 iw.0 p ok.0, parse_trace-trace v w ps iv iw ok.1) refl
