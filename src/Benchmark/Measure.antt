-- ===== src/Benchmark/Measure.antt =====
-- benchmark/execution.cpp: the client, which measures the calls of `write`.
use ipc_performance.Prelude.{
  ℕ, ◌+◌, ◌-◌, ◌<◌, ◌^◌, ◌≡◌, refl, Bool, true, false, leb, if◌then◌else◌, List, [], ◌∷◌, ◌++◌,
  arith, length, length-append, to_u32, sub64, le→leb, lt→leb, Bool-cases, inl, inr,
}
use ipc_performance.Benchmark.{Status, returned, running, made, all_fine}

-- A turn of the loop: the time, what `write` returns, and the time again.
pub record Turn : Type 0 where
  pub before : ℕ
  pub result : Bool
  pub after : ℕ

abbrev pub results : List Turn → List Bool
results [] = []
results (turn ∷ turns) = turn.result ∷ results turns

-- `run_client` from turn `i` on, with the execution times so far.
unfoldable pub run_client : ℕ → ℕ → List ℕ → List Turn → Status × List ℕ
run_client iterations i times [] =
    if leb i iterations then (running, times) else (returned true, times)
run_client iterations i times (turn ∷ turns) =
    let times1 = times ++ to_u32 (sub64 turn.after turn.before) ∷ [] in
    let more = run_client iterations (to_u32 (i + 1)) times1 turns in
    if leb i iterations
    then (if turn.result then more else (returned false, times1))
    else (returned true, times)

from_turn :
    (n i : ℕ) (times : List ℕ) (turns : List Turn)
    → n < 2 ^ 32 - 1
    → i + length turns ≡ n + 1
    → let (status, times') = run_client n i times turns in
      (status ≡ returned (all_fine (results turns)))
      × (length times' ≡ length times + made (results turns))
unfolding run_client
from_turn n i times [] w h = rw (lt→leb i n (omega arith)) (refl, omega arith)
from_turn n i times (turn ∷ turns) w h =
    let x : List ℕ = to_u32 (sub64 turn.after turn.before) ∷ [] in
    let next : to_u32 (i + 1) ≡ i + 1 = omega arith in
    let more = from_turn n (i + 1) (times ++ x) turns w (omega arith) in
    rw (le→leb i n (omega arith), next)
      (elim (Bool-cases turn.result) [
        | inl e ↦ rw e (more.0, omega (arith, more.1, length-append times x))
        | inr e ↦ rw e (refl, omega (arith, length-append times x))
      ])

-- ExecutionTimeBenchmark: with as many turns as iterations, fewer than 2 ^ 32 - 1, the client returns
-- whether every `write` succeeded, and has one time for each call that it made, the one that failed
-- included.
pub run_measure-made :
    (iterations : ℕ) (turns : List Turn)
    → iterations < 2 ^ 32 - 1
    → length turns ≡ iterations
    → let (status, times) = run_client iterations 1 [] turns in
      (status ≡ returned (all_fine (results turns))) × (length times ≡ made (results turns))
run_measure-made iterations turns w h =
    let all = from_turn iterations 1 [] turns w (omega arith) in (all.0, omega (arith, all.1))
