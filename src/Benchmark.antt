-- ===== src/Benchmark.antt =====
-- src/benchmark: the loops of the benchmarks over a handler.
pub mod Client
pub mod Latency
pub mod RealWorld
pub mod Execution
pub mod Throughput
pub mod Statistics
pub mod Replay
pub mod Measure
pub mod Session
use ipc_performance.Prelude.{
  ℕ, suc, ◌≤◌, ◌<◌, ◌≡◌, refl, ap, length, arith, Option, none, some, Bool, true, false, List, [],
  ◌∷◌, ◌+◌,
}
use ipc_performance.Communication.{
  CommunicationError, no_data_available, Outcome, message, failed, aborted, overrun, waiting,
}

-- One turn of a server's loop: `await_data` has succeeded or data is expected, `read` returns the
-- outcome, and `get_timestamp` then answers `now`.
pub data Round : Type 0 where
  round : Outcome → ℕ → Round

-- How a server's loop ends: it returns, the process breaks off in `read`, or the handler has no more
-- answers yet.
pub data Status : Type 0 where
  returned : Bool → Status
  broke : Status
  running : Status

-- `error == CommunicationError::NO_DATA_AVAILABLE`
abbrev pub is_no_data : CommunicationError → Bool
is_no_data no_data_available = true
is_no_data e = false

-- The number of messages among the answers.
abbrev pub count : List Round → ℕ
count [] = 0
count (round (message h o) now ∷ rounds) = 1 + count rounds
count (round outcome now ∷ rounds) = count rounds

-- The results of the calls of `write` that a client makes: it stops behind the first that fails.
abbrev pub made : List Bool → ℕ
made [] = 0
made (true ∷ results) = suc (made results)
made (false ∷ results) = 1

abbrev pub all_fine : List Bool → Bool
all_fine [] = true
all_fine (true ∷ results) = all_fine results
all_fine (false ∷ results) = false

-- `while (!more_data && !handler.await_data());`, on the answers of `await_data`; `none` if none of them
-- ends it.
unfoldable pub wait : List Bool → Option (List Bool)
wait [] = none
wait (true ∷ awaits) = some awaits
wait (false ∷ awaits) = wait awaits

-- The turns that a server comes to, with `more_data` at first: it waits before each that does not follow a
-- message.
unfoldable pub reached {ℓ} : {A : Type ℓ} → (A → Bool) → Bool → List Bool → List A → List A
unfolding wait
reached is_data more_data awaits [] = []
reached is_data true awaits (turn ∷ turns) = turn ∷ reached is_data (is_data turn) awaits turns
reached is_data false awaits (turn ∷ turns) = elim (wait awaits) [
  | none ↦ []
  | some rest ↦ turn ∷ reached is_data (is_data turn) rest turns
]

abbrev pub is_message : Outcome → Bool
is_message (message header o) = true
is_message outcome = false

abbrev pub is_data : Round → Bool
is_data (round outcome now) = is_message outcome

-- The times that `await_data` succeeds.
abbrev pub successes : List Bool → ℕ
successes [] = 0
successes (true ∷ awaits) = suc (successes awaits)
successes (false ∷ awaits) = successes awaits

-- What is left of the answers behind a wait.
wait-successes :
    (awaits : List Bool)
    → 0 < successes awaits
    → (rest : List Bool) × (wait awaits ≡ some rest) × (successes awaits ≡ suc (successes rest))
unfolding wait
wait-successes [] h = absurd (omega arith)
wait-successes (true ∷ awaits) h = (awaits, refl, refl)
wait-successes (false ∷ awaits) h = wait-successes awaits h

-- If `await_data` succeeds often enough, a server comes to all turns.
pub reached-all {ℓ} :
    {A : Type ℓ} (test : A → Bool) (more_data : Bool) (awaits : List Bool) (turns : List A)
    → length turns ≤ successes awaits
    → reached test more_data awaits turns ≡ turns
unfolding reached
reached-all test true awaits [] h = refl
reached-all test false awaits [] h = refl
reached-all test true awaits (turn ∷ turns) h =
    ap (◌∷◌ turn) (reached-all test (test turn) awaits turns (omega arith))
reached-all test false awaits (turn ∷ turns) h =
    let (rest, found, left) = wait-successes awaits (omega arith) in
    rw (found, reached) (ap (◌∷◌ turn) (reached-all test (test turn) rest turns (omega arith)))
