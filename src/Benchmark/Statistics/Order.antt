-- ===== src/Benchmark/Statistics/Order.antt =====
-- benchmark/stats.hpp: the order of the quantiles.
use Prim.Native.Nat.{min}
use native.Mathlib.Nat.{mul-add, add-mul, mul-le-mul_right}
use ipc_performance.Prelude.{
  ℕ, zero, suc, ◌+◌, ◌-◌, ◌*◌, ◌/◌, ◌%◌, ◌<◌, ◌≤◌, ◌≡◌, ap, ◌∙◌, sym, some, List, [], ◌∷◌, arith,
  length, get_elem?, dec_lt,
}
use ipc_performance.Benchmark.Statistics.{interpolate, quantile_at}
use ipc_performance.Benchmark.Statistics.Sorting.{Sorted, inside, ascends}

-- A value between `a` and `b`, `r` quarters of the way.
abbrev pub mix : ℕ → ℕ → ℕ → ℕ
mix r a b = (4 - r) * a + r * b

mix-rest : (r a b : ℕ) → r ≤ 4 → a ≤ b → mix r a b ≡ 4 * a + r * (b - a)
mix-rest r a b h o =
    let d : ℕ = b - a in
    let e : b ≡ a + d = omega arith in
    let f : (4 - r) * a + r * a ≡ 4 * a =
      sym (add-mul (4 - r) r a) ∙ ap (λ t. t * a) (omega arith) in
    let g : r * b ≡ r * a + r * d = ap (λ t. r * t) e ∙ mul-add r a d in omega (arith, f, g)

mix-le : (r s a b : ℕ) → r ≤ s → s < 4 → a ≤ b → mix r a b ≤ mix s a b
mix-le r s a b h w o = omega (
  arith,
  mix-rest r a b (omega arith) o,
  mix-rest s a b (omega arith) o,
  mul-le-mul_right (b - a) h,
)

pub mix-lower : (r a b : ℕ) → r < 4 → a ≤ b → 4 * a ≤ mix r a b
mix-lower r a b w o = omega (arith, mix-rest r a b (omega arith) o)

pub mix-upper : (r a b : ℕ) → r < 4 → a ≤ b → mix r a b ≤ 4 * b
mix-upper r a b w o =
    let h : r ≤ 4 = omega arith in omega (arith, mix-rest r a b h o, mul-le-mul_right (b - a) h)

-- What `interpolate` computes from the second value on.
interpolate-mix : (l r a b : ℕ) → r < 4 → interpolate (2 + (4 * l + r)) l a b ≡ mix r a b
unfolding interpolate
interpolate-mix l r a b w =
    let e : 6 + 4 * l - (2 + (4 * l + r)) ≡ 4 - r = omega arith in
    let f : (2 + (4 * l + r)) * b ≡ (2 + 4 * l) * b + r * b =
      ap (λ t. t * b) (omega arith) ∙ add-mul (2 + 4 * l) r b in
    rw e (omega (arith, f))

-- The quantile at a position: the two values that it lies between, and how far behind the first.
pub record Point (xs : List ℕ) (position : ℕ) : Type 0 where
  pub left : ℕ
  pub rest : ℕ
  pub a : ℕ
  pub b : ℕ
  pub split : position ≡ 2 + (4 * left + rest)
  pub rest_small : rest < 4
  pub ordered : a ≤ b
  pub left_value : get_elem? xs left ≡ some a
  pub right_value : get_elem? xs (min ((position + 1) / 4) (length xs - 1)) ≡ some b
  pub value : quantile_at xs position ≡ some (mix rest a b)

pub point :
    (xs : List ℕ) (position : ℕ)
    → Sorted xs
    → 2 ≤ length xs
    → 2 ≤ position
    → position ≤ 3 * length xs
    → Point xs position
unfolding quantile_at
point xs position s n lo hi =
    let l : ℕ = (position - 2) / 4 in
    let right : ℕ = min ((position + 1) / 4) (length xs - 1) in
    let r : ℕ = (position - 2) % 4 in
    let split : position ≡ 2 + (4 * l + r) = omega arith in
    let (a, left_value) = inside xs l (omega arith) in
    let (b, right_value) = inside xs right (omega arith) in
    let same : interpolate position l a b ≡ mix r a b =
      ap (λ p. interpolate p l a b) split ∙ interpolate-mix l r a b (omega arith) in
    record {
      left = l;
      rest = r;
      a = a;
      b = b;
      split = split;
      rest_small = omega arith;
      ordered = ascends xs l right a b s (omega arith) left_value right_value;
      left_value = left_value;
      right_value = right_value;
      value = rw (left_value, right_value) (ap some same);
    }

-- Quantiles ascend with their positions.
pub rising :
    (xs : List ℕ) (p q : ℕ)
    → Sorted xs
    → p ≤ q
    → (x : Point xs p) (y : Point xs q) → mix x.rest x.a x.b ≤ mix y.rest y.a y.b
rising xs p q s h x y = elim (dec_lt x.left y.left) [
  | yes before ↦
      let over : x.b ≤ y.a =
        ascends xs (min ((p + 1) / 4) (length xs - 1)) y.left x.b y.a s
          (omega (arith, x.split, x.rest_small)) x.right_value y.left_value in
      omega (
        arith,
        over,
        mix-upper x.rest x.a x.b x.rest_small x.ordered,
        mix-lower y.rest y.a y.b y.rest_small y.ordered,
      )
  | no same ↦
      let lefts : x.left ≡ y.left = omega (arith, x.split, y.split, y.rest_small) in
      let up : x.a ≤ y.a =
        ascends xs x.left y.left x.a y.a s (omega (arith, lefts)) x.left_value y.left_value in
      let a_down : y.a ≤ x.a =
        ascends xs y.left x.left y.a x.a s (omega (arith, lefts)) y.left_value x.left_value in
      elim (dec_lt 0 x.rest) [
        | no none_behind ↦
            let start : x.rest ≡ 0 = omega arith in
            rw start (omega (arith, up, mix-lower y.rest y.a y.b y.rest_small y.ordered))
        | yes behind ↦
            let i : ℕ = min ((p + 1) / 4) (length xs - 1) in
            let j : ℕ = min ((q + 1) / 4) (length xs - 1) in
            let rights : i ≡ j =
              ap (λ n. min n (length xs - 1))
                (omega (arith, x.split, y.split, lefts, x.rest_small, y.rest_small)) in
            let b_up : x.b ≤ y.b =
              ascends xs i j x.b y.b s (omega (arith, rights)) x.right_value y.right_value in
            let b_down : y.b ≤ x.b =
              ascends xs j i y.b x.b s (omega (arith, rights)) y.right_value x.right_value in
            let a_same : y.a ≡ x.a = omega (arith, up, a_down) in
            let b_same : y.b ≡ x.b = omega (arith, b_up, b_down) in
            rw (a_same, b_same)
              (mix-le x.rest y.rest x.a x.b (omega (arith, x.split, y.split, lefts)) y.rest_small
                x.ordered)
      ]
]

-- The quantiles of one value.
pub single :
    (x position : ℕ) → 1 ≤ position → position ≤ 3 → quantile_at (x ∷ []) position ≡ some (4 * x)
unfolding quantile_at interpolate
single x zero lo hi = absurd (omega arith)
single x (suc zero) lo hi = ap some (omega arith)
single x (suc (suc zero)) lo hi = ap some (omega arith)
single x (suc (suc (suc zero))) lo hi = ap some (omega arith)
single x (suc (suc (suc (suc n)))) lo hi = absurd (omega arith)
