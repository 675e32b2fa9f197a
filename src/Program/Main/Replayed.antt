-- ===== src/Program/Main/Replayed.antt =====
-- src/main.cpp with realworld.cpp: the reader of the real world benchmark on a recorded trace.
use ipc_performance.Prelude.{
  ℕ, ◌+◌, ◌^◌, ◌≤◌, ◌<◌, ◌≡◌, refl, true, false, List, [], ◌∷◌, arith, length, to_u32,
}
use ipc_performance.Benchmark.{is_data, reached, reached-all, successes, count}
use ipc_performance.Benchmark.RealWorld
use ipc_performance.Benchmark.RealWorld.{Ascending, run_real_world-misses}
use ipc_performance.Program.Trace.{DataPoint}
use ipc_performance.Program.Trace.RoundTrip.{IsWord, AllPrintable, trace, parse_trace-trace}
use ipc_performance.Program.Main.{
  exits, opens, runs, closes, real_world_report, Answers, run_real_world,
}

-- The reader of the real world benchmark on a file of printable points, at least one and fewer
-- than 2 ^ 32: if `open` succeeds, `await_data` succeeds at least as often as `read` is called,
-- and the messages that `read` answers have ascending ids, the last of which is the number of
-- points, with only NO_DATA_AVAILABLE in between, then `run_real_world` opens, uses and closes
-- the handler, exits with 0, and reports the number of points, the threshold it was given, and as
-- many misses as points for which no message arrived.
pub run_real_world-trace :
    (a : Answers) (v w : List ℕ) (p : DataPoint) (ps : List DataPoint) (threshold : ℕ)
    → IsWord v
    → IsWord w
    → AllPrintable (p ∷ ps)
    → a.opened ≡ true
    → length a.rounds ≤ successes a.awaits
    → Ascending 0 (length (p ∷ ps)) a.rounds
    → length (p ∷ ps) < 2 ^ 32
    → (misses : ℕ) × (run_real_world a (trace v w (p ∷ ps)) threshold true ≡ (
      exits 0,
      real_world_report (length (p ∷ ps)) threshold misses,
      opens true ∷ runs true ∷ closes ∷ [],
    ))
      × (misses + count a.rounds ≡ length (p ∷ ps))
unfolding run_real_world
run_real_world-trace a v w p ps threshold iv iw printable o enough ascending small =
    let n : ℕ = length (p ∷ ps) in
    let all : reached is_data false a.awaits a.rounds ≡ a.rounds =
      reached-all is_data false a.awaits a.rounds enough in
    let run = run_real_world-misses n a.rounds ascending small in
    let fits : to_u32 n ≡ n = omega arith in
    (
      (RealWorld.run_server n 0 0 a.rounds).1,
      rw (parse_trace-trace v w (p ∷ ps) iv iw printable, all, o, run.0, fits) refl,
      run.1,
    )
