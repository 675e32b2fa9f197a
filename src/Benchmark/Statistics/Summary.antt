-- ===== src/Benchmark/Statistics/Summary.antt =====
-- benchmark/stats.hpp: `compute` gives an ordered summary.
use Prim.Native.Nat.{min}
use ipc_performance.Prelude.{
  ℕ, ◌+◌, ◌-◌, ◌*◌, ◌/◌, ◌≤◌, ◌≡◌, refl, some, List, [], ◌∷◌, arith, length, get_elem?,
}
use ipc_performance.Benchmark.Statistics.{sort, quantile, Statistics, summary, compute}
use ipc_performance.Benchmark.Statistics.Sorting.{
  AllWithin, Has, get-sort-Has, Sorted, length-sort, sort-Sorted, sort-AllWithin, inside, bounded,
  ascends, ends,
}
use ipc_performance.Benchmark.Statistics.Order.{
  mix, mix-lower, mix-upper, Point, point, rising, single,
}

-- All values lie between the minimum and the maximum, which are values themselves, and the measures
-- ascend.
pub record Describes (values : List ℕ) (s : Statistics) : Type 0 where
  pub within : AllWithin s.minimum s.maximum values
  pub least : (a : ℕ) × (s.minimum ≡ 8 * a) × Has a values
  pub greatest : (a : ℕ) × (s.maximum ≡ 8 * a) × Has a values
  pub filtered_above : s.minimum ≤ s.filtered_minimum
  pub first_above : s.filtered_minimum ≤ s.first_quartile
  pub median_above : s.first_quartile ≤ s.median
  pub third_above : s.median ≤ s.third_quartile
  pub filtered_below : s.third_quartile ≤ s.filtered_maximum
  pub maximum_above : s.filtered_maximum ≤ s.maximum

-- What holds for the values that `summary` is made of, the ends and three quartiles.
record Rising (front back q1 q2 q3 : ℕ) : Type 0 where
  first : 4 * front ≤ q1
  second : q1 ≤ q2
  third : q2 ≤ q3
  last : q3 ≤ 4 * back

summary-Describes :
    (values : List ℕ) (front back q1 q2 q3 : ℕ)
    → AllWithin (8 * front) (8 * back) values
    → Has front values
    → Has back values
    → Rising front back q1 q2 q3
    → Describes values (summary front back q1 q2 q3)
summary-Describes values front back q1 q2 q3 w f b r = record {
  within = w;
  least = (front, refl, f);
  greatest = (back, refl, b);
  filtered_above = omega arith;
  first_above = omega (arith, r.first, r.second, r.third);
  median_above = omega (arith, r.second);
  third_above = omega (arith, r.third);
  filtered_below = omega (arith, r.second, r.third, r.last);
  maximum_above = omega arith;
}

-- The same for a sorted list.
record Quartiles (xs : List ℕ) : Type 0 where
  front : ℕ
  back : ℕ
  q1 : ℕ
  q2 : ℕ
  q3 : ℕ
  front_value : get_elem? xs 0 ≡ some front
  back_value : get_elem? xs (length xs - 1) ≡ some back
  q1_value : quantile xs 1 ≡ some q1
  q2_value : quantile xs 2 ≡ some q2
  q3_value : quantile xs 3 ≡ some q3
  rises : Rising front back q1 q2 q3
  within : AllWithin (8 * front) (8 * back) xs

between_ends :
    (xs : List ℕ) (front back : ℕ)
    → Sorted xs
    → get_elem? xs 0 ≡ some front
    → get_elem? xs (length xs - 1) ≡ some back
    → AllWithin (8 * front) (8 * back) xs
between_ends xs front back s f b = ends xs (8 * front) (8 * back) (λ i a e.
    let low : front ≤ a = ascends xs 0 i front a s (omega arith) f e in
    let high : a ≤ back =
      ascends xs i (length xs - 1) a back s (omega (arith, bounded xs i a e)) e b in
    (omega (arith, low), omega (arith, high)))

quartiles : (xs : List ℕ) → Sorted xs → 1 ≤ length xs → Quartiles xs
unfolding quantile
quartiles [] s n = absurd (omega arith)
quartiles (x ∷ []) s n = record {
  front = x;
  back = x;
  q1 = 4 * x;
  q2 = 4 * x;
  q3 = 4 * x;
  front_value = refl;
  back_value = refl;
  q1_value = single x 1 (omega arith) (omega arith);
  q2_value = single x 2 (omega arith) (omega arith);
  q3_value = single x 3 (omega arith) (omega arith);
  rises = record {
    first = omega arith;
    second = omega arith;
    third = omega arith;
    last = omega arith;
  };
  within = (omega arith, omega arith, tt);
}
quartiles (x ∷ y ∷ zs) s n =
    let xs : List ℕ = x ∷ y ∷ zs in
    let p1 : Point xs (1 * length xs) =
      point xs (1 * length xs) s (omega arith) (omega arith) (omega arith) in
    let p2 : Point xs (2 * length xs) =
      point xs (2 * length xs) s (omega arith) (omega arith) (omega arith) in
    let p3 : Point xs (3 * length xs) =
      point xs (3 * length xs) s (omega arith) (omega arith) (omega arith) in
    let (back, back_value) = inside xs (length xs - 1) (omega arith) in
    let low : x ≤ p1.a = ascends xs 0 p1.left x p1.a s (omega arith) refl p1.left_value in
    let high : p3.b ≤ back =
      ascends xs (min ((3 * length xs + 1) / 4) (length xs - 1)) (length xs - 1) p3.b back s
        (omega arith) p3.right_value back_value in
    record {
      front = x;
      back = back;
      q1 = mix p1.rest p1.a p1.b;
      q2 = mix p2.rest p2.a p2.b;
      q3 = mix p3.rest p3.a p3.b;
      front_value = refl;
      back_value = back_value;
      q1_value = p1.value;
      q2_value = p2.value;
      q3_value = p3.value;
      rises = record {
        first = omega (arith, low, mix-lower p1.rest p1.a p1.b p1.rest_small p1.ordered);
        second = rising xs (1 * length xs) (2 * length xs) s (omega arith) p1 p2;
        third = rising xs (2 * length xs) (3 * length xs) s (omega arith) p2 p3;
        last = omega (arith, high, mix-upper p3.rest p3.a p3.b p3.rest_small p3.ordered);
      };
      within = between_ends xs x back s refl back_value;
    }

-- Statistics: for at least one value, `compute` makes no access outside of the vector, all values
-- lie between the minimum and the maximum, which are values themselves, and the minimum, the
-- filtered minimum, the first quartile, the median, the third quartile, the filtered maximum and
-- the maximum ascend in this order.
pub compute-Describes :
    (values : List ℕ)
    → 1 ≤ length values
    → (s : Statistics) × (compute values ≡ some s) × Describes values s
unfolding compute
compute-Describes values n =
    let q : Quartiles (sort values) =
      quartiles (sort values) (sort-Sorted values) (omega (arith, length-sort values)) in
    (
      summary q.front q.back q.q1 q.q2 q.q3,
      rw (q.front_value, q.back_value, q.q1_value, q.q2_value, q.q3_value) refl,
      summary-Describes values q.front q.back q.q1 q.q2 q.q3
          (sort-AllWithin (8 * q.front) (8 * q.back) values q.within)
          (get-sort-Has values 0 q.front q.front_value)
          (get-sort-Has values (length (sort values) - 1) q.back q.back_value) q.rises,
    )
