-- ===== src/Benchmark/Replay.antt =====
-- benchmark/realworld.cpp: the client, which replays a recorded trace.
use ipc_performance.Prelude.{
  ℕ, ◌+◌, ◌*◌, ◌<◌, ◌^◌, ◌≡◌, refl, ap, Bool, true, false, if◌then◌else◌, List, [], ◌∷◌, arith,
  length, take, to_u32, add64, sub64, slt64, Bool-cases, inl, inr,
}
use ipc_performance.Object.JavaSymbol.{JavaSymbol}
use ipc_performance.Benchmark.{Status, returned, broke, running, made, all_fine}
use ipc_performance.Program.Trace.{DataPoint}

-- A turn of the loop: what `get_timestamp` answers, and what `write` returns.
pub record Turn : Type 0 where
  pub timestamp : ℕ
  pub result : Bool

abbrev pub results : List Turn → List Bool
results [] = []
results (turn ∷ turns) = turn.result ∷ results turns

-- What the client does in a turn before the write: it waits, or counts a miss.
pub data Action : Type 0 where
  waits : ℕ → Action
  misses : Action
  writes : JavaSymbol → Action

-- `1 * 1000 * 1000 * 1000`
abbrev pub start_delay : ℕ
start_delay = 1000000000

-- `time < now`, on `std::int64_t`.
abbrev pub is_late : ℕ → ℕ → Bool
is_late time now = slt64 time now

-- The loop, where `late` is `threshold_ * 1000` on `unsigned int`, with the misses so far and what is done.
unfoldable pub run_turns : ℕ → ℕ → ℕ → List DataPoint → List Turn → Status × ℕ × List Action
run_turns delta late count [] turns = (returned true, count, [])
run_turns delta late count (p ∷ points) [] = (running, count, [])
run_turns delta late count (p ∷ points) (turn ∷ turns) =
    let time = add64 p.time delta in
    let over = is_late time (sub64 turn.timestamp late) in
    let count1 = if over then to_u32 (count + 1) else count in
    let before = if over then misses else waits time in
    let (status, count2, actions) = run_turns delta late count1 points turns in
    if turn.result
    then (status, count2, before ∷ writes p.symbol ∷ actions)
    else (returned false, count1, before ∷ writes p.symbol ∷ [])

-- `run_client` at the time `start`. `data_[0]` needs a first data point.
unfoldable pub run_client : ℕ → ℕ → List DataPoint → List Turn → Status × ℕ × List Action
unfolding run_turns
run_client threshold start [] turns = (broke, 0, [])
run_client threshold start (p ∷ points) turns =
    let delta = add64 (sub64 start p.time) start_delay in
    run_turns delta (to_u32 (threshold * 1000)) 0 (p ∷ points) turns

-- The symbols that are written, and how often the client waits.
unfoldable pub written : List Action → List JavaSymbol
written [] = []
written (writes s ∷ actions) = s ∷ written actions
written (waits time ∷ actions) = written actions
written (misses ∷ actions) = written actions

unfoldable pub waited : List Action → ℕ
waited [] = 0
waited (waits time ∷ actions) = 1 + waited actions
waited (writes s ∷ actions) = waited actions
waited (misses ∷ actions) = waited actions

abbrev pub symbols : List DataPoint → List JavaSymbol
symbols [] = []
symbols (p ∷ points) = p.symbol ∷ symbols points

from_turn :
    (delta late count : ℕ) (points : List DataPoint) (turns : List Turn)
    → length turns ≡ length points
    → count + length points < 2 ^ 32
    → let (status, count', actions) = run_turns delta late count points turns in
      (status ≡ returned (all_fine (results turns)))
      × (written actions ≡ take (made (results turns)) (symbols points))
      × (count' + waited actions ≡ count + made (results turns))
unfolding run_turns written waited
from_turn delta late count [] [] h w = (refl, refl, omega arith)
from_turn delta late count [] (turn ∷ turns) h w = absurd (omega arith)
from_turn delta late count (p ∷ points) [] h w = absurd (omega arith)
from_turn delta late count (p ∷ points) (turn ∷ turns) h w =
    let time : ℕ = add64 p.time delta in
    let next : to_u32 (count + 1) ≡ count + 1 = omega arith in
    elim (Bool-cases (is_late time (sub64 turn.timestamp late))) [
      | inl over ↦
          let more = from_turn delta late (count + 1) points turns (omega arith) (omega arith) in
          elim (Bool-cases turn.result) [
            | inl e ↦ rw (over, next, e) (more.0, ap (◌∷◌ p.symbol) more.1, omega (arith, more.2))
            | inr e ↦ rw (over, next, e) (refl, refl, omega arith)
          ]
      | inr early ↦
          let more = from_turn delta late count points turns (omega arith) (omega arith) in
          elim (Bool-cases turn.result) [
            | inl e ↦ rw (early, e) (more.0, ap (◌∷◌ p.symbol) more.1, omega (arith, more.2))
            | inr e ↦ rw (early, e) (refl, refl, omega arith)
          ]
    ]

-- RealWorldBenchmark: with at least one data point, fewer than 2 ^ 32, and one answer of `write`
-- for each, the client returns whether every `write` succeeds; it writes the symbols in their
-- order, up to and including the first that fails; and the misses that it counts and the times
-- that it waits are together as many as the calls of `write`.
pub run_replay-written :
    (threshold start : ℕ) (p : DataPoint) (points : List DataPoint) (turns : List Turn)
    → length turns ≡ length (p ∷ points)
    → length (p ∷ points) < 2 ^ 32
    → let (status, count, actions) = run_client threshold start (p ∷ points) turns in
      (status ≡ returned (all_fine (results turns)))
      × (written actions ≡ take (made (results turns)) (symbols (p ∷ points)))
      × (count + waited actions ≡ made (results turns))
unfolding run_client
run_replay-written threshold start p points turns h w =
    let all =
      from_turn (add64 (sub64 start p.time) start_delay) (to_u32 (threshold * 1000)) 0 (p ∷ points)
        turns h (omega arith) in
    (all.0, all.1, omega (arith, all.2))
