-- ===== src/Prelude/Bytes.antt =====
-- Memory as lists of bytes: `memcpy`, windows of a buffer, and the little-endian representation
-- that integers have in memory on the program's target (x86_64).
use Prim.Native.Nat.{ℕ, zero, suc, ◌+◌, ◌*◌, ◌/◌, ◌%◌, ◌^◌, ◌≤◌, ◌<◌}
use mathlib.Core.Path.{◌≡◌, refl, ap}
use mathlib.Core.List.{List, [], ◌∷◌, ◌++◌}
use native.Mathlib.Omega.{arith}
use native.Mathlib.Nat.{pow-suc}
use ipc_performance.Prelude.Lists.{length, take, drop}

-- Every element of the list is a byte.
abbrev pub IsBytes : List ℕ → Type 0
IsBytes [] = Unit {0}
IsBytes (b ∷ bs) = (b < 256) × IsBytes bs

-- `memcpy(&dst[offset], src, length src)`. A write past the end of `dst` is dropped.
unfoldable pub memcpy : List ℕ → ℕ → List ℕ → List ℕ
memcpy [] offset src = []
memcpy (d ∷ ds) zero [] = d ∷ ds
memcpy (d ∷ ds) zero (s ∷ ss) = s ∷ memcpy ds zero ss
memcpy (d ∷ ds) (suc offset) src = d ∷ memcpy ds offset src

-- The `n` bytes from `offset` on.
abbrev pub window : List ℕ → ℕ → ℕ → List ℕ
window xs offset n = take n (drop offset xs)

-- The `w` bytes of an unsigned integer, lowest first; higher bits are cut off.
unfoldable pub le_bytes : ℕ → ℕ → List ℕ
le_bytes zero n = []
le_bytes (suc w) n = n % 256 ∷ le_bytes w (n / 256)

-- The integer that bytes represent.
unfoldable pub le_value : List ℕ → ℕ
le_value [] = 0
le_value (b ∷ bs) = b + 256 * le_value bs

pub length-memcpy : (dst : List ℕ) (o : ℕ) (src : List ℕ) → length (memcpy dst o src) ≡ length dst
unfolding memcpy
length-memcpy [] o src = refl
length-memcpy (d ∷ ds) zero [] = refl
length-memcpy (d ∷ ds) zero (s ∷ ss) = ap suc (length-memcpy ds zero ss)
length-memcpy (d ∷ ds) (suc o) src = ap suc (length-memcpy ds o src)

pub memcpy-nil : (dst : List ℕ) (o : ℕ) → memcpy dst o [] ≡ dst
unfolding memcpy
memcpy-nil [] o = refl
memcpy-nil (d ∷ ds) zero = refl
memcpy-nil (d ∷ ds) (suc o) = ap (◌∷◌ d) (memcpy-nil ds o)

-- A copy over the whole of the buffer.
pub memcpy_all : (dst src : List ℕ) → length src ≡ length dst → memcpy dst 0 src ≡ src
unfolding memcpy
memcpy_all [] [] e = refl
memcpy_all [] (s ∷ ss) e = absurd (omega arith)
memcpy_all (d ∷ ds) [] e = absurd (omega arith)
memcpy_all (d ∷ ds) (s ∷ ss) e = ap (◌∷◌ s) (memcpy_all ds ss (omega arith))

-- Two copies side by side are one copy.
pub memcpy-append :
    (dst : List ℕ) (o : ℕ) (xs ys : List ℕ) (p : ℕ)
    → p ≡ o + length xs
    → memcpy (memcpy dst o xs) p ys ≡ memcpy dst o (xs ++ ys)
unfolding memcpy
memcpy-append [] o xs ys p e = refl
memcpy-append (d ∷ ds) zero [] ys zero e = refl
memcpy-append (d ∷ ds) zero [] ys (suc p) e = absurd (omega arith)
memcpy-append (d ∷ ds) zero (x ∷ xs) ys zero e = absurd (omega arith)
memcpy-append (d ∷ ds) zero (x ∷ xs) ys (suc p) e =
    ap (◌∷◌ x) (memcpy-append ds zero xs ys p (omega arith))
memcpy-append (d ∷ ds) (suc o) xs ys zero e = absurd (omega arith)
memcpy-append (d ∷ ds) (suc o) xs ys (suc p) e =
    ap (◌∷◌ d) (memcpy-append ds o xs ys p (omega arith))

-- What was copied is found at its place.
pub window-memcpy :
    (dst : List ℕ) (o : ℕ) (src : List ℕ) (n : ℕ)
    → n ≡ length src
    → o + length src ≤ length dst
    → window (memcpy dst o src) o n ≡ src
unfolding memcpy
window-memcpy dst o [] zero e h = take_zero (drop o (memcpy dst o []))
  where
    take_zero : (xs : List ℕ) → take zero xs ≡ []
    take_zero xs = refl
window-memcpy dst o [] (suc n) e h = absurd (omega arith)
window-memcpy dst o (s ∷ src) zero e h = absurd (omega arith)
window-memcpy [] o (s ∷ src) (suc n) e h = absurd (omega arith)
window-memcpy (d ∷ ds) zero (s ∷ src) (suc n) e h =
    ap (◌∷◌ s) (window-memcpy ds zero src n (omega arith) (omega arith))
window-memcpy (d ∷ ds) (suc o) (s ∷ src) (suc n) e h =
    window-memcpy ds o (s ∷ src) (suc n) e (omega arith)

-- A window before or behind the copied bytes does not change.
pub window-memcpy_before :
    (dst : List ℕ) (o : ℕ) (src : List ℕ) (i n : ℕ)
    → i + n ≤ o
    → window (memcpy dst o src) i n ≡ window dst i n
unfolding memcpy
window-memcpy_before [] o src i n h = refl
window-memcpy_before (d ∷ ds) zero [] i n h = refl
window-memcpy_before (d ∷ ds) zero (s ∷ ss) zero zero h = refl
window-memcpy_before (d ∷ ds) zero (s ∷ ss) zero (suc n) h = absurd (omega arith)
window-memcpy_before (d ∷ ds) zero (s ∷ ss) (suc i) n h = absurd (omega arith)
window-memcpy_before (d ∷ ds) (suc o) src zero zero h = refl
window-memcpy_before (d ∷ ds) (suc o) src zero (suc n) h =
    ap (◌∷◌ d) (window-memcpy_before ds o src zero n (omega arith))
window-memcpy_before (d ∷ ds) (suc o) src (suc i) n h =
    window-memcpy_before ds o src i n (omega arith)

pub window-memcpy_behind :
    (dst : List ℕ) (o : ℕ) (src : List ℕ) (i n : ℕ)
    → o + length src ≤ i
    → window (memcpy dst o src) i n ≡ window dst i n
unfolding memcpy
window-memcpy_behind [] o src i n h = refl
window-memcpy_behind (d ∷ ds) zero [] i n h = refl
window-memcpy_behind (d ∷ ds) zero (s ∷ ss) zero n h = absurd (omega arith)
window-memcpy_behind (d ∷ ds) zero (s ∷ ss) (suc i) n h =
    window-memcpy_behind ds zero ss i n (omega arith)
window-memcpy_behind (d ∷ ds) (suc o) src zero n h = absurd (omega arith)
window-memcpy_behind (d ∷ ds) (suc o) src (suc i) n h =
    window-memcpy_behind ds o src i n (omega arith)

pub length-le_bytes : (w n : ℕ) → length (le_bytes w n) ≡ w
unfolding le_bytes
length-le_bytes zero n = refl
length-le_bytes (suc w) n = ap suc (length-le_bytes w (n / 256))

pub le_bytes-IsBytes : (w n : ℕ) → IsBytes (le_bytes w n)
unfolding le_bytes
le_bytes-IsBytes zero n = tt
le_bytes-IsBytes (suc w) n = (omega arith, le_bytes-IsBytes w (n / 256))

-- An integer that fits its width is read back from its bytes.
pub le_value-le_bytes : (w n : ℕ) → n < 256 ^ w → le_value (le_bytes w n) ≡ n
unfolding le_bytes le_value
le_value-le_bytes zero n h = omega arith
le_value-le_bytes (suc w) n h =
    omega (arith, pow-suc 256 w, le_value-le_bytes w (n / 256) (omega (arith, pow-suc 256 w)))

-- Bytes represent a number below the bound of their width, and determine it.
pub le_value-lt : (bs : List ℕ) → IsBytes bs → le_value bs < 256 ^ length bs
unfolding le_value
le_value-lt [] h = omega arith
le_value-lt (b ∷ bs) h = omega (arith, pow-suc 256 (length bs), le_value-lt bs h.1)

pub le_bytes-le_value : (bs : List ℕ) → IsBytes bs → le_bytes (length bs) (le_value bs) ≡ bs
unfolding le_bytes le_value
le_bytes-le_value [] h = refl
le_bytes-le_value (b ∷ bs) h =
    let low : (b + 256 * le_value bs) % 256 ≡ b = omega arith in
    let high : (b + 256 * le_value bs) / 256 ≡ le_value bs = omega arith in
    rw (low, high) (ap (◌∷◌ b) (le_bytes-le_value bs h.1))
