-- ===== src/Program/Main/Reports.antt =====
-- src/main.cpp with latency.cpp and stats.hpp: what the reader of the latency benchmark reports.
use mathlib.Core.Path.{subst}
use ipc_performance.Prelude.{
  ℕ, ◌-◌, ◌^◌, ◌≤◌, ◌<◌, ◌≡◌, refl, ap, sym, length, false, true, List, [], ◌∷◌, arith,
}
use ipc_performance.Benchmark.{reached, is_data, successes, reached-all, count}
use ipc_performance.Benchmark.Latency
use ipc_performance.Benchmark.Latency.{Quiet, run_latency-count, finished}
use ipc_performance.Benchmark.Statistics.{Statistics, compute, sort}
use ipc_performance.Benchmark.Statistics.Summary.{Describes, compute-Describes}
use ipc_performance.Program.Main.{
  exits, breaks, opens, runs, closes, latency_report, Answers, run_latency,
}

-- The latencies that the server measures.
abbrev pub latencies : Answers → ℕ → List ℕ
latencies a iterations =
    (Latency.run_server iterations 1 [] (reached is_data false a.awaits a.rounds)).1

-- The reader of the latency benchmark: if `open` succeeds, `await_data` succeeds at least as
-- often as `read` is called, and `read` answers at least as many messages as there are
-- iterations, at least 1 and fewer than 2 ^ 32 - 1, and otherwise only fails with
-- NO_DATA_AVAILABLE, then `run_latency` opens, uses and closes the handler, exits with 0, and
-- reports the number of iterations and statistics that describe the measured latencies: all lie
-- between minimum and maximum, which are two of them, and the measures ascend.
pub run_latency-Describes :
    (a : Answers) (iterations delay : ℕ)
    → a.opened ≡ true
    → Quiet a.rounds
    → length a.rounds ≤ successes a.awaits
    → 1 ≤ iterations
    → iterations < 2 ^ 32 - 1
    → iterations ≤ count a.rounds
    → (s : Statistics) × (run_latency a iterations delay true
        ≡ (exits 0, latency_report iterations delay s, opens true ∷ runs true ∷ closes ∷ []))
      × Describes (latencies a iterations) s
unfolding run_latency
run_latency-Describes a iterations delay o q aw lo hi c =
    let all : reached is_data false a.awaits a.rounds ≡ a.rounds =
      reached-all is_data false a.awaits a.rounds aw in
    let counted =
      run_latency-count iterations (reached is_data false a.awaits a.rounds)
        (subst Quiet (sym all) q) hi (omega (arith, c, ap count all)) in
    let (s, computed, described) =
      compute-Describes (latencies a iterations) (omega (arith, counted.1)) in
    (
      s,
      rw (o, counted.0, computed)
          (ap (λ n. (exits 0, latency_report n delay s, opens true ∷ runs true ∷ closes ∷ []))
            counted.1),
      described,
    )

-- The reader of the latency benchmark with 0 iterations: if `open` succeeds, `run_latency` ends
-- in undefined behaviour, the first element of an empty vector, whatever the handler answers.
pub run_latency-breaks :
    (a : Answers) (delay : ℕ) → a.opened ≡ true → (run_latency a 0 delay true).0 ≡ breaks
unfolding run_latency compute sort
run_latency-breaks a delay o =
    rw (o, finished 0 1 [] (reached is_data false a.awaits a.rounds) (omega arith)) refl
