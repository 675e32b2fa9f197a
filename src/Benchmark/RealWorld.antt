-- ===== src/Benchmark/RealWorld.antt =====
-- benchmark/realworld.cpp: the server, which counts the messages that were lost.
use ipc_performance.Prelude.{
  ℕ, ◌+◌, ◌-◌, ◌≤◌, ◌<◌, ◌^◌, ◌≡◌, refl, true, false, ltb, if◌then◌else◌, List, [], ◌∷◌, arith,
  to_u32, sub32, dec_lt, le→ltb, lt→ltb,
}
use mathlib.Core.Path.{subst}
use ipc_performance.Communication.{message, failed, aborted, overrun, waiting}
use ipc_performance.Benchmark.{Round, round, Status, returned, broke, running, is_no_data, count}

-- `run_server` with the id `i` last seen and the misses so far; `size` is `data_.size()`.
unfoldable pub run_server : ℕ → ℕ → ℕ → List Round → Status × ℕ
run_server size i misses [] = if ltb i size then (running, misses) else (returned true, misses)
run_server size i misses (round (message header o) now ∷ rounds) =
    let more = run_server size header.id (to_u32 (misses + sub32 (sub32 header.id i) 1)) rounds in
    if ltb i size then more else (returned true, misses)
run_server size i misses (round (failed e) now ∷ rounds) =
    let more = run_server size i misses rounds in
    if ltb i size
    then (if is_no_data e then more else (returned false, misses))
    else (returned true, misses)
run_server size i misses (round waiting now ∷ rounds) =
    if ltb i size then (running, misses) else (returned true, misses)
run_server size i misses (round outcome now ∷ rounds) =
    if ltb i size then (broke, misses) else (returned true, misses)

-- The messages that arrive have ascending ids above `i`, the last of which is the last that was sent,
-- and otherwise only NO_DATA_AVAILABLE is answered.
abbrev pub Ascending : ℕ → ℕ → List Round → Type 0
Ascending i size [] = i ≡ size
Ascending i size (round (message h o) now ∷ rounds) =
    (i < h.id) × (h.id ≤ size) × Ascending h.id size rounds
Ascending i size (round (failed e) now ∷ rounds) = (is_no_data e ≡ true) × Ascending i size rounds
Ascending i size (round outcome now ∷ rounds) = ⊥

-- Behind the last message nothing else arrives.
none_behind : (size : ℕ) (rounds : List Round) → Ascending size size rounds → count rounds ≡ 0
none_behind size [] a = refl
none_behind size (round (message header o) now ∷ rounds) a = absurd (omega (arith, a.0, a.1))
none_behind size (round (failed e) now ∷ rounds) a = none_behind size rounds a.1
none_behind size (round aborted now ∷ rounds) a = absurd a
none_behind size (round overrun now ∷ rounds) a = absurd a
none_behind size (round waiting now ∷ rounds) a = absurd a

turns :
    (size i misses : ℕ) (rounds : List Round)
    → Ascending i size rounds
    → i ≤ size
    → misses ≤ i
    → size < 2 ^ 32
    → let (status, misses') = run_server size i misses rounds in
      (status ≡ returned true) × (misses' + count rounds + i ≡ misses + size)
unfolding run_server
turns size i misses [] a h m w = rw (le→ltb i size (omega arith)) (refl, omega arith)
turns size i misses (round (message header o) now ∷ rounds) a h m w =
    let below : i < header.id = a.0 in
    let inside : header.id ≤ size = a.1 in
    let missed : to_u32 (misses + sub32 (sub32 header.id i) 1) ≡ misses + (header.id - i - 1) =
      omega arith in
    let more =
      turns size header.id (misses + (header.id - i - 1)) rounds a.2 inside (omega arith) w in
    rw (lt→ltb i size (omega arith), missed) (more.0, omega (arith, more.1))
turns size i misses (round (failed e) now ∷ rounds) a h m w = elim (dec_lt i size) [
  | yes under ↦ rw (lt→ltb i size under, a.0) (turns size i misses rounds a.1 h m w)
  | no over ↦
      let same : i ≡ size = omega arith in
      rw (le→ltb i size (omega arith)) (
        refl,
        omega (arith, none_behind size rounds (subst (λ j. Ascending j size rounds) same a.1)),
      )
]
turns size i misses (round aborted now ∷ rounds) a h m w = absurd a
turns size i misses (round overrun now ∷ rounds) a h m w = absurd a
turns size i misses (round waiting now ∷ rounds) a h m w = absurd a

-- RealWorldBenchmark: if the messages that arrive have ascending ids, the last of which is the
-- number `size` of messages, below 2 ^ 32, and `read` otherwise only fails with
-- NO_DATA_AVAILABLE, then the server returns true, and its misses are just the messages that did
-- not arrive.
pub run_real_world-misses :
    (size : ℕ) (rounds : List Round)
    → Ascending 0 size rounds
    → size < 2 ^ 32
    → let (status, misses) = run_server size 0 0 rounds in
      (status ≡ returned true) × (misses + count rounds ≡ size)
run_real_world-misses size rounds a w =
    let all = turns size 0 0 rounds a (omega arith) (omega arith) w in (all.0, omega (arith, all.1))
