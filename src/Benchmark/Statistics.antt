-- ===== src/Benchmark/Statistics.antt =====
-- benchmark/stats.hpp: the quantiles of whole numbers. All positions are multiples of 1/4 and all results
-- of 1/8, which `double` holds exactly for 32-bit values, so they are counted in those units. The
-- average, the variance and its root, which `double` rounds, are not modelled.
pub mod Sorting
pub mod Order
pub mod Summary
use Prim.Native.Nat.{min, max}
use ipc_performance.Prelude.{
  ℕ, ◌+◌, ◌-◌, ◌*◌, ◌/◌, leb, if◌then◌else◌, Option, none, some, List, [], ◌∷◌, length, get_elem?,
}

infixl 1 ◌>>=◌
abbrev pub ◌>>=◌ {ℓ κ} : {A : Type ℓ} {B : Type κ} → Option A → (A → Option B) → Option B
none >>= f = none
some a >>= f = f a

-- `std::sort`
unfoldable pub insert : ℕ → List ℕ → List ℕ
insert x [] = x ∷ []
insert x (y ∷ ys) = let rest = insert x ys in if leb x y then x ∷ y ∷ ys else y ∷ rest

unfoldable pub sort : List ℕ → List ℕ
unfolding insert
sort [] = []
sort (x ∷ xs) = insert x (sort xs)

-- `(1 - tmp) * data_left + tmp * data_right` in quarters, where `poi` is `position - 2` quarters and `tmp`
-- is its distance from `left`. The distance is -1/4 if there is one value only, so what is subtracted
-- stands behind what is added.
unfoldable pub interpolate : ℕ → ℕ → ℕ → ℕ → ℕ
interpolate position left data_left data_right =
    (6 + 4 * left - position) * data_left + position * data_right - (2 + 4 * left) * data_right

-- `quantile` at `position / 4` values of all, in quarters. `none` is an access behind the end.
unfoldable pub quantile_at : List ℕ → ℕ → Option ℕ
unfolding interpolate
quantile_at values position =
    let left = (position - 2) / 4 in
    let right = min ((position + 1) / 4) (length values - 1) in
    do
      data_left ← get_elem? values left
      data_right ← get_elem? values right
      some (interpolate position left data_left data_right)

-- `quantile` at `quarter / 4`: `poi` is `(1 - q) * -0.5 + q * (n - 0.5) = q * n - 0.5`.
unfoldable pub quantile : List ℕ → ℕ → Option ℕ
unfolding quantile_at
quantile values quarter = quantile_at values (quarter * length values)

-- In units of 1/8.
pub record Statistics : Type 0 where
  pub minimum : ℕ
  pub filtered_minimum : ℕ
  pub first_quartile : ℕ
  pub median : ℕ
  pub third_quartile : ℕ
  pub filtered_maximum : ℕ
  pub maximum : ℕ

-- `q1 - (q3 - q1) * 1.5` is `(5 * q1 - 3 * q3) / 2`. Where that is negative, the minimum is larger.
abbrev pub summary : ℕ → ℕ → ℕ → ℕ → ℕ → Statistics
summary front back q1 q2 q3 = record {
  minimum = 8 * front;
  filtered_minimum = max (8 * front) (5 * q1 - 3 * q3);
  first_quartile = 2 * q1;
  median = 2 * q2;
  third_quartile = 2 * q3;
  filtered_maximum = min (8 * back) (5 * q3 - 3 * q1);
  maximum = 8 * back;
}

-- `Statistics::compute`. `none` is the undefined behaviour of `front` on an empty vector.
unfoldable pub compute : List ℕ → Option Statistics
unfolding quantile sort
compute values =
    let tmp = sort values in
    do
      front ← get_elem? tmp 0
      back ← get_elem? tmp (length tmp - 1)
      q1 ← quantile tmp 1
      q3 ← quantile tmp 3
      q2 ← quantile tmp 2
      some (summary front back q1 q2 q3)
