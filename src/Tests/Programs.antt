-- ===== src/Tests/Programs.antt =====
-- The command line, traces and statistics at concrete inputs.
use ipc_performance.Prelude.{
  ℕ, ◌<◌, ◌^◌, ◌+◌, ◌≡◌, refl, true, false, some, List, [], ◌∷◌, arith, if◌then◌else◌,
}
use ipc_performance.Object.DataType
use ipc_performance.Object.Ping
use ipc_performance.Object.DataHeader.{DataHeader}
use ipc_performance.Communication.{ping_object, message, failed, no_data_available}
use ipc_performance.Handler.Os.{codes}
use ipc_performance.Benchmark.{round, returned}
use ipc_performance.Benchmark.Client.{payload_amount}
use ipc_performance.Benchmark.Replay
use ipc_performance.Benchmark.Replay.{written, waited, run_replay-written}
use ipc_performance.Benchmark.Statistics.{Statistics, compute}
use ipc_performance.Benchmark.Statistics.Summary.{Describes, compute-Describes}
use ipc_performance.Text.{
  same_text, stoull, skip_prefix, skip_space, sign, scan, digit_in, digit_value,
}
use ipc_performance.Program.{create_handler, cleared, new_frame}
use ipc_performance.Program.Trace.{DataPoint, parsed, parse_trace}
use ipc_performance.Program.Trace.RoundTrip.{Printable, IsWord, trace, parse_trace-trace}
use ipc_performance.Program.Main.{
  exits, breaks, opens, runs, closes, latency_report, real_world_report, Answers, run_latency,
  run_real_world, main, start_kind, start_throughput, run_throughput, run_writes,
}
use ipc_performance.Program.Main.Closing.{balanced, succeeded, main-succeeded}
use ipc_performance.Program.Main.Replayed.{run_real_world-trace}
use ipc_performance.Program.Main.Reports.{latencies, run_latency-Describes, run_latency-breaks}

abbrev point : ℕ → DataPoint
point time = record {
  time = time;
  symbol = record { address = 4096; area = 16; symbol = codes "f g" };
}

point-Printable : (time : ℕ) → time < 2 ^ 63 → Printable (point time)
point-Printable time fits = record {
  time_fits = fits;
  address_fits = omega arith;
  area_fits = omega arith;
  name_ends = omega arith;
  no_return = (omega arith, (omega arith, (omega arith, tt)));
  no_break = (omega arith, (omega arith, (omega arith, tt)));
}

abbrev word : List ℕ
word = codes "w"

word-IsWord : IsWord word
word-IsWord = ((omega arith, tt), (omega arith, tt))

parse_trace-trace_example : parse_trace (trace word word (point 7 ∷ [])) ≡ parsed (point 7 ∷ [])
parse_trace-trace_example =
    parse_trace-trace word word (point 7 ∷ []) word-IsWord word-IsWord
      (point-Printable 7 (omega arith), tt)

compute-Describes_example :
    (s : Statistics) × (compute (7 ∷ 3 ∷ 5 ∷ []) ≡ some s) × Describes (7 ∷ 3 ∷ 5 ∷ []) s
compute-Describes_example = compute-Describes (7 ∷ 3 ∷ 5 ∷ []) (omega arith)

-- The second write fails.
abbrev replayed : List Replay.Turn
replayed =
    record { timestamp = 1000; result = true }
    ∷ record { timestamp = 3000000000; result = false }
    ∷ []

run_replay-written_example :
    let (status, count, actions) = Replay.run_client 5 0 (point 7 ∷ point 9 ∷ []) replayed in
    (status ≡ returned false)
    × (written actions ≡ (point 7).symbol ∷ (point 9).symbol ∷ [])
    × (count + waited actions ≡ 2)
run_replay-written_example =
    run_replay-written 5 0 (point 7) (point 9 ∷ []) replayed refl (omega arith)

abbrev header : DataHeader
header = record { id = 1; type = DataType.ping; body_size = 0; timestamp = 100 }

-- A handler that opens, and answers one message and then nothing.
abbrev answers : Answers
answers = record {
  opened = true;
  awaits = false ∷ true ∷ true ∷ [];
  rounds =
      round (message header (ping_object Ping.ping)) 150 ∷ round (failed no_data_available) 0 ∷ [];
  turns = [];
  timed = [];
  results = true ∷ [];
  measured = [];
  start = 0;
  replayed = replayed;
  visits = [];
  posts = [];
}

run_latency-Describes_example :
    (s : Statistics) × (run_latency answers 1 20 true
      ≡ (exits 0, latency_report 1 20 s, opens true ∷ runs true ∷ closes ∷ []))
    × Describes (latencies answers 1) s
run_latency-Describes_example =
    run_latency-Describes answers 1 20 refl (refl, tt) (omega arith) (omega arith) (omega arith)
      (omega arith)

run_latency-breaks_example : (run_latency answers 0 20 true).0 ≡ breaks
run_latency-breaks_example = run_latency-breaks answers 20 refl

-- `ipc throughput fifo writer 1 4`
abbrev arguments : List (List ℕ)
arguments = codes "throughput" ∷ codes "fifo" ∷ codes "writer" ∷ codes "1" ∷ codes "4" ∷ []

arguments_run : (main (λ h. answers) (λ path. []) arguments).0 ≡ exits 0
unfolding main start_kind start_throughput run_throughput run_writes create_handler same_text stoull
    skip_prefix skip_space sign scan digit_in digit_value cleared new_frame payload_amount
arguments_run = refl

main-succeeded_example :
    let (exit, report, steps) = main (λ h. answers) (λ path. []) arguments in
    (balanced steps ≡ true) × ◌≡◌ {A = ℕ} 0 (if succeeded steps then 0 else 1)
main-succeeded_example = main-succeeded (λ h. answers) (λ path. []) arguments 0 arguments_run

-- Only the second of two messages arrives.
abbrev second : Answers
second = record answers {
  rounds = round (message (record header { id = 2 }) (ping_object Ping.ping)) 150 ∷ [];
}

run_real_world-trace_example :
    (misses : ℕ) × (run_real_world second (trace word word (point 7 ∷ point 9 ∷ [])) 9 true
      ≡ (exits 0, real_world_report 2 9 misses, opens true ∷ runs true ∷ closes ∷ []))
    × (misses + 1 ≡ 2)
run_real_world-trace_example =
    run_real_world-trace second word word (point 7) (point 9 ∷ []) 9 word-IsWord word-IsWord
      (point-Printable 7 (omega arith), (point-Printable 9 (omega arith), tt)) refl (omega arith)
      (omega arith, omega arith, refl) (omega arith)
