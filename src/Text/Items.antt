-- ===== src/Text/Items.antt =====
-- A text is cut at its separators.
use ipc_performance.Prelude.{
  ℕ, ◌≡◌, ◌≢◌, refl, ap, ◌∙◌, List, [], ◌∷◌, ◌++◌, ne→==, eq→==, ℕ_discrete,
}
use ipc_performance.Text.{items}

abbrev pub Lacks : ℕ → List ℕ → Type 0
Lacks sep [] = Unit {0}
Lacks sep (c ∷ s) = (c ≢ sep) × Lacks sep s

-- What stands in front of a separator is the first item.
pub items-front :
    (sep : ℕ) (w rest : List ℕ) → Lacks sep w → items sep (w ++ sep ∷ rest) ≡ w ∷ items sep rest
unfolding items
items-front sep [] rest l = rw (eq→== sep sep refl) refl
items-front sep (c ∷ w) rest l = rw (ne→== c sep l.0, items-front sep w rest l.1) refl

-- Items with the separator between them.
abbrev pub join : ℕ → List (List ℕ) → List ℕ
join sep [] = []
join sep (w ∷ []) = w
join sep (w ∷ v ∷ ws) = w ++ sep ∷ join sep (v ∷ ws)

-- A text whose last character is not the separator is the join of its items, which are not none.
abbrev pub EndsWell : ℕ → List ℕ → Type 0
EndsWell sep [] = ⊥
EndsWell sep (c ∷ []) = c ≢ sep
EndsWell sep (c ∷ d ∷ s) = EndsWell sep (d ∷ s)

pub record Joined (sep : ℕ) (s : List ℕ) (ws : List (List ℕ)) : Type 0 where
  pub first : List ℕ
  pub others : List (List ℕ)
  pub some_items : ws ≡ first ∷ others
  pub joined : join sep (first ∷ others) ≡ s

join_first :
    (sep c : ℕ) (w : List ℕ) (ws : List (List ℕ)) → join sep ((c ∷ w) ∷ ws) ≡ c ∷ join sep (w ∷ ws)
join_first sep c w [] = refl
join_first sep c w (v ∷ ws) = refl

pub join-items : (sep : ℕ) (s : List ℕ) → EndsWell sep s → Joined sep s (items sep s)
unfolding items
join-items sep [] e = absurd e
join-items sep (c ∷ []) e =
    rw (ne→== c sep e) (record { first = c ∷ []; others = []; some_items = refl; joined = refl })
join-items sep (c ∷ d ∷ s) e =
    let more : Joined sep (d ∷ s) (items sep (d ∷ s)) = join-items sep (d ∷ s) e in
    elim (ℕ_discrete c sep) [
      | yes is ↦
          rw (eq→== c sep is, more.some_items)
            (record {
              first = [];
              others = more.first ∷ more.others;
              some_items = refl;
              joined = rw (more.joined, is) refl;
            })
      | no is_not ↦
          rw (ne→== c sep is_not, more.some_items)
            (record {
              first = c ∷ more.first;
              others = more.others;
              some_items = refl;
              joined = join_first sep c more.first more.others ∙ ap (λ t. c ∷ t) more.joined;
            })
    ]

pub Lacks-append : (sep : ℕ) (s t : List ℕ) → Lacks sep s → Lacks sep t → Lacks sep (s ++ t)
Lacks-append sep [] t l m = m
Lacks-append sep (c ∷ s) t l m = (l.0, Lacks-append sep s t l.1 m)
