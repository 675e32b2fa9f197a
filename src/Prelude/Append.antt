-- ===== src/Prelude/Append.antt =====
-- Two ways to cut one list.
use Prim.Native.Nat.{◌≤◌}
use mathlib.Core.Path.{◌≡◌, refl, ap, ◌∙◌}
use mathlib.Core.List.{List, [], ◌∷◌, ◌++◌}
use native.Mathlib.Omega.{arith}
use ipc_performance.Prelude.Lists.{length, take, drop}

module _ {ℓ} {A : Type ℓ} where
  -- The first part of the one cut lies within that of the other.
  pub append-inside :
      (xs ys ns rs : List A)
      → xs ++ ys ≡ ns ++ rs
      → length xs ≤ length ns
      → (xs ++ drop (length xs) ns ≡ ns) × (ys ≡ drop (length xs) ns ++ rs)
  append-inside [] ys ns rs e h = (refl, e)
  append-inside (x ∷ xs) ys [] rs e h = absurd (omega arith)
  append-inside (x ∷ xs) ys (n ∷ ns) rs e h =
      let same : x ≡ n = cc in
      let tails : xs ++ ys ≡ ns ++ rs = cc in
      let inner : (xs ++ drop (length xs) ns ≡ ns) × (ys ≡ drop (length xs) ns ++ rs) =
        append-inside xs ys ns rs tails (omega arith) in
      (ap (◌∷◌ x) inner.0 ∙ ap (λ z. z ∷ ns) same, inner.1)

  -- The first part of the other cut lies within that of the one.
  pub append-outside :
      (xs ys ns rs : List A)
      → xs ++ ys ≡ ns ++ rs
      → length ns ≤ length xs
      → (take (length ns) xs ≡ ns) × (drop (length ns) xs ++ ys ≡ rs)
  append-outside xs ys [] rs e h = (refl, e)
  append-outside [] ys (n ∷ ns) rs e h = absurd (omega arith)
  append-outside (x ∷ xs) ys (n ∷ ns) rs e h =
      let same : x ≡ n = cc in
      let tails : xs ++ ys ≡ ns ++ rs = cc in
      let inner : (take (length ns) xs ≡ ns) × (drop (length ns) xs ++ ys ≡ rs) =
        append-outside xs ys ns rs tails (omega arith) in
      (ap (◌∷◌ x) inner.0 ∙ ap (λ z. z ∷ ns) same, inner.1)
