-- ===== src/Prelude/Windows.antt =====
-- Windows of concatenations, and the fields that they hold.
use Prim.Native.Nat.{ℕ, zero, suc, ◌+◌, ◌≤◌, ◌<◌, ◌^◌}
use mathlib.Core.Path.{◌≡◌, refl, ap, ◌∙◌, sym, subst}
use mathlib.Core.List.{List, [], ◌∷◌, ◌++◌}
use native.Mathlib.Omega.{arith}
use ipc_performance.Prelude.Lists.{
  length, take, drop, length-take, length-drop, drop-drop, take-append_left, take_all,
}
use ipc_performance.Prelude.Bytes.{
  IsBytes, memcpy, window, le_bytes, le_value, length-le_bytes, le_value-le_bytes,
  le_bytes-le_value, le_value-lt,
}

module _ {ℓ} {A : Type ℓ} where
  -- A window behind the first part is a window of the second.
  pub window-append :
      (xs ys : List A) (o k n : ℕ)
      → o ≡ length xs + k
      → take n (drop o (xs ++ ys)) ≡ take n (drop k ys)
  window-append [] ys o k n e = ap (λ j. take n (drop j ys)) (omega arith)
  window-append (x ∷ xs) ys zero k n e = absurd (omega arith)
  window-append (x ∷ xs) ys (suc o) k n e = window-append xs ys o k n (omega arith)

  take-nil : (n : ℕ) → ◌≡◌ {A = List A} (take n []) []
  take-nil zero = refl
  take-nil (suc n) = refl

  pub take-add : (m n : ℕ) (xs : List A) → take m xs ++ take n (drop m xs) ≡ take (m + n) xs
  take-add zero n xs = ap (λ j. take j xs) (omega arith)
  take-add (suc m) zero [] = rw (take-nil (suc m + zero))
  take-add (suc m) (suc n) [] = rw (take-nil (suc m + suc n))
  take-add (suc m) n (x ∷ xs) = ap (◌∷◌ x) (take-add m n xs) ∙ ap (λ j. take j (x ∷ xs)) e
    where
      e : suc (m + n) ≡ suc m + n
      e = omega arith

  -- Two windows side by side are one.
  pub window-join :
      (xs : List A) (o m p n k : ℕ)
      → p ≡ o + m
      → k ≡ m + n
      → take m (drop o xs) ++ take n (drop p xs) ≡ take k (drop o xs)
  window-join xs o m p n k e f = rw (e, f, ← drop-drop m o xs) (take-add m n (drop o xs))

  pub length-window : (xs : List A) (o n : ℕ) → o + n ≤ length xs → length (take n (drop o xs)) ≡ n
  length-window xs o n h = omega (arith, length-take n (drop o xs), length-drop o xs)

pub IsBytes-take : (n : ℕ) (xs : List ℕ) → IsBytes xs → IsBytes (take n xs)
IsBytes-take zero xs h = tt
IsBytes-take (suc n) [] h = tt
IsBytes-take (suc n) (x ∷ xs) h = (h.0, IsBytes-take n xs h.1)

pub IsBytes-drop : (n : ℕ) (xs : List ℕ) → IsBytes xs → IsBytes (drop n xs)
IsBytes-drop zero xs h = h
IsBytes-drop (suc n) [] h = tt
IsBytes-drop (suc n) (x ∷ xs) h = IsBytes-drop n xs h.1

pub IsBytes-append : (xs ys : List ℕ) → IsBytes xs → IsBytes ys → IsBytes (xs ++ ys)
IsBytes-append [] ys h k = k
IsBytes-append (x ∷ xs) ys h k = (h.0, IsBytes-append xs ys h.1 k)

-- The field in front of a byte sequence is read as the number that was put there.
pub le_field :
    (w n : ℕ) (rest : List ℕ) → n < 256 ^ w → le_value (take w (le_bytes w n ++ rest)) ≡ n
le_field w n rest h =
    rw (take-append_left w (le_bytes w n) rest (length-le_bytes w n)) (le_value-le_bytes w n h)

pub le_field_last : (w n : ℕ) → n < 256 ^ w → le_value (take w (le_bytes w n)) ≡ n
le_field_last w n h =
    rw (take_all w (le_bytes w n) (omega (arith, length-le_bytes w n))) (le_value-le_bytes w n h)

-- A window behind a field is a window of what follows the field.
pub skip_field :
    (v m : ℕ) (rest : List ℕ) (o k n : ℕ)
    → o ≡ v + k
    → window (le_bytes v m ++ rest) o n ≡ window rest k n
skip_field v m rest o k n e =
    window-append (le_bytes v m) rest o k n (omega (arith, length-le_bytes v m))

-- The number in a window gives back the window's bytes.
pub le_window :
    (xs : List ℕ) (o w : ℕ)
    → IsBytes xs
    → o + w ≤ length xs
    → le_bytes w (le_value (window xs o w)) ≡ window xs o w
le_window xs o w b h =
    ap (λ j. le_bytes j (le_value (window xs o w))) (sym (length-window xs o w h))
    ∙ le_bytes-le_value (window xs o w) (IsBytes-take w _ (IsBytes-drop o xs b))

pub le_window-lt :
    (xs : List ℕ) (o w : ℕ) → IsBytes xs → o + w ≤ length xs → le_value (window xs o w) < 256 ^ w
le_window-lt xs o w b h =
    subst (λ k. le_value (window xs o w) < 256 ^ k) (length-window xs o w h)
      (le_value-lt (window xs o w) (IsBytes-take w _ (IsBytes-drop o xs b)))

pub IsBytes-memcpy :
    (dst : List ℕ) (o : ℕ) (src : List ℕ) → IsBytes dst → IsBytes src → IsBytes (memcpy dst o src)
unfolding memcpy
IsBytes-memcpy [] o src d s = tt
IsBytes-memcpy (b ∷ bs) zero [] d s = d
IsBytes-memcpy (b ∷ bs) zero (x ∷ xs) d s = (s.0, IsBytes-memcpy bs zero xs d.1 s.1)
IsBytes-memcpy (b ∷ bs) (suc o) src d s = (d.0, IsBytes-memcpy bs o src d.1 s)
