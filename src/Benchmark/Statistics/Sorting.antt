-- ===== src/Benchmark/Statistics/Sorting.antt =====
-- benchmark/stats.hpp: sorted values ascend.
use mathlib.Core.Path.{subst}
use ipc_performance.Prelude.{
  ◌⊎◌, inl, inr, ℕ, zero, suc, ◌*◌, ◌<◌, ◌≤◌, ◌≡◌, refl, ap, ◌∙◌, some, List, [], ◌∷◌, arith,
  length, get_elem?, dec_lt, lt→leb, le→leb,
}
use ipc_performance.Benchmark.Statistics.{insert, sort}

-- All values are within bounds that are given in units of 1/8.
abbrev pub AllWithin : ℕ → ℕ → List ℕ → Type 0
AllWithin lo hi [] = Unit {0}
AllWithin lo hi (x ∷ xs) = (lo ≤ 8 * x) × (8 * x ≤ hi) × AllWithin lo hi xs

abbrev pub AllFrom : ℕ → List ℕ → Type 0
AllFrom lo [] = Unit {0}
AllFrom lo (x ∷ xs) = (lo ≤ x) × AllFrom lo xs

abbrev pub Sorted : List ℕ → Type 0
Sorted [] = Unit {0}
Sorted (x ∷ xs) = AllFrom x xs × Sorted xs

lower : (m n : ℕ) (xs : List ℕ) → m ≤ n → AllFrom n xs → AllFrom m xs
lower m n [] h a = tt
lower m n (x ∷ xs) h a = (omega (arith, a.0), lower m n xs h a.1)

insert-AllFrom : (lo x : ℕ) (xs : List ℕ) → lo ≤ x → AllFrom lo xs → AllFrom lo (insert x xs)
unfolding insert
insert-AllFrom lo x [] h a = (h, tt)
insert-AllFrom lo x (y ∷ ys) h a = elim (dec_lt y x) [
  | yes p ↦ rw (lt→leb x y p) (a.0, insert-AllFrom lo x ys h a.1)
  | no p ↦ rw (le→leb x y (omega arith)) (h, a)
]

insert-Sorted : (x : ℕ) (xs : List ℕ) → Sorted xs → Sorted (insert x xs)
unfolding insert
insert-Sorted x [] s = (tt, tt)
insert-Sorted x (y ∷ ys) s = elim (dec_lt y x) [
  | yes p ↦ rw (lt→leb x y p) (insert-AllFrom y x ys (omega arith) s.0, insert-Sorted x ys s.1)
  | no p ↦ rw (le→leb x y (omega arith)) ((omega arith, lower x y ys (omega arith) s.0), s)
]

pub sort-Sorted : (xs : List ℕ) → Sorted (sort xs)
unfolding sort
sort-Sorted [] = tt
sort-Sorted (x ∷ xs) = insert-Sorted x (sort xs) (sort-Sorted xs)

length-insert : (x : ℕ) (xs : List ℕ) → length (insert x xs) ≡ suc (length xs)
unfolding insert
length-insert x [] = refl
length-insert x (y ∷ ys) = elim (dec_lt y x) [
  | yes p ↦ rw (lt→leb x y p) (ap suc (length-insert x ys))
  | no p ↦ rw (le→leb x y (omega arith)) refl
]

pub length-sort : (xs : List ℕ) → length (sort xs) ≡ length xs
unfolding sort
length-sort [] = refl
length-sort (x ∷ xs) = length-insert x (sort xs) ∙ ap suc (length-sort xs)

insert-AllWithin :
    (lo hi x : ℕ) (xs : List ℕ) → AllWithin lo hi (insert x xs) → AllWithin lo hi (x ∷ xs)
unfolding insert
insert-AllWithin lo hi x [] a = a
insert-AllWithin lo hi x (y ∷ ys) a = elim (dec_lt y x) [
  | yes p ↦
      let there : insert x (y ∷ ys) ≡ y ∷ insert x ys = rw (lt→leb x y p) refl in
      let b : AllWithin lo hi (y ∷ insert x ys) = subst (AllWithin lo hi) there a in
      let c : AllWithin lo hi (x ∷ ys) = insert-AllWithin lo hi x ys b.2 in
      (c.0, c.1, (b.0, b.1, c.2))
  | no p ↦
      let here : insert x (y ∷ ys) ≡ x ∷ y ∷ ys = rw (le→leb x y (omega arith)) refl in
      subst (AllWithin lo hi) here a
]

pub sort-AllWithin : (lo hi : ℕ) (xs : List ℕ) → AllWithin lo hi (sort xs) → AllWithin lo hi xs
unfolding sort
sort-AllWithin lo hi [] a = tt
sort-AllWithin lo hi (x ∷ xs) a =
    let b : AllWithin lo hi (x ∷ sort xs) = insert-AllWithin lo hi x (sort xs) a in
    (b.0, b.1, sort-AllWithin lo hi xs b.2)

-- The value at a position inside the list.
pub inside : (xs : List ℕ) (i : ℕ) → i < length xs → (a : ℕ) × (get_elem? xs i ≡ some a)
inside [] i h = absurd (omega arith)
inside (x ∷ xs) zero h = (x, refl)
inside (x ∷ xs) (suc i) h = inside xs i (omega arith)

pub bounded : (xs : List ℕ) (i a : ℕ) → get_elem? xs i ≡ some a → i < length xs
bounded [] i a e = absurd (cc)
bounded (x ∷ xs) zero a e = omega arith
bounded (x ∷ xs) (suc i) a e = omega (arith, bounded xs i a e)

from_front : (lo : ℕ) (xs : List ℕ) (i b : ℕ) → AllFrom lo xs → get_elem? xs i ≡ some b → lo ≤ b
from_front lo [] i b a e = absurd (cc)
from_front lo (x ∷ xs) zero b a e = ground arith
from_front lo (x ∷ xs) (suc i) b a e = from_front lo xs i b a.1 e

-- A sorted list ascends.
pub ascends :
    (xs : List ℕ) (i j a b : ℕ)
    → Sorted xs
    → i ≤ j
    → get_elem? xs i ≡ some a
    → get_elem? xs j ≡ some b
    → a ≤ b
ascends [] i j a b s h p q = absurd (cc)
ascends (x ∷ xs) zero zero a b s h p q = ground arith
ascends (x ∷ xs) zero (suc j) a b s h p q =
    let low : x ≤ b = from_front x xs j b s.0 q in ground arith
ascends (x ∷ xs) (suc i) zero a b s h p q = absurd (omega arith)
ascends (x ∷ xs) (suc i) (suc j) a b s h p q = ascends xs i j a b s.1 (omega arith) p q

-- A list lies within its ends.
pub ends :
    (xs : List ℕ) (lo hi : ℕ)
    → ((i a : ℕ) → get_elem? xs i ≡ some a → (lo ≤ 8 * a) × (8 * a ≤ hi))
    → AllWithin lo hi xs
ends [] lo hi f = tt
ends (x ∷ xs) lo hi f =
    let h : (lo ≤ 8 * x) × (8 * x ≤ hi) = f 0 x refl in
    (h.0, h.1, ends xs lo hi (λ i a e. f (suc i) a e))

-- A value is one of the list.
abbrev pub Has : ℕ → List ℕ → Type 0
Has a [] = ⊥
Has a (x ∷ xs) = (a ≡ x) ⊎ Has a xs

cons-Has : (a x : ℕ) (xs ys : List ℕ) → (Has a xs → Has a ys) → Has a (x ∷ xs) → Has a (x ∷ ys)
cons-Has a x xs ys f (inl e) = inl e
cons-Has a x xs ys f (inr h) = inr (f h)

swap-Has : (a x y : ℕ) (xs : List ℕ) → Has a (y ∷ x ∷ xs) → Has a (x ∷ y ∷ xs)
swap-Has a x y xs (inl e) = inr (inl e)
swap-Has a x y xs (inr (inl e)) = inl e
swap-Has a x y xs (inr (inr h)) = inr (inr h)

insert-Has : (a x : ℕ) (xs : List ℕ) → Has a (insert x xs) → Has a (x ∷ xs)
unfolding insert
insert-Has a x [] h = h
insert-Has a x (y ∷ ys) h = elim (dec_lt y x) [
  | yes p ↦
      let there : insert x (y ∷ ys) ≡ y ∷ insert x ys = rw (lt→leb x y p) refl in
      swap-Has a x y ys
        (cons-Has a y (insert x ys) (x ∷ ys) (insert-Has a x ys) (subst (Has a) there h))
  | no p ↦
      let here : insert x (y ∷ ys) ≡ x ∷ y ∷ ys = rw (le→leb x y (omega arith)) refl in
      subst (Has a) here h
]

sort-Has : (a : ℕ) (xs : List ℕ) → Has a (sort xs) → Has a xs
unfolding sort
sort-Has a [] h = h
sort-Has a (x ∷ xs) h = cons-Has a x (sort xs) xs (sort-Has a xs) (insert-Has a x (sort xs) h)

get-Has : (xs : List ℕ) (i a : ℕ) → get_elem? xs i ≡ some a → Has a xs
get-Has [] i a e = absurd (cc)
get-Has (x ∷ xs) zero a e = inl (ground arith)
get-Has (x ∷ xs) (suc i) a e = inr (get-Has xs i a e)

-- What stands in the sorted list is one of the values.
pub get-sort-Has : (xs : List ℕ) (i a : ℕ) → get_elem? (sort xs) i ≡ some a → Has a xs
get-sort-Has xs i a e = sort-Has a xs (get-Has (sort xs) i a e)
