-- ===== src/Program/Main.antt =====
-- src/main.cpp: the benchmarks as the command line starts them, and `main`.
pub mod Closing
pub mod Reports
pub mod Replayed
use ipc_performance.Prelude.{
  ℕ, ◌+◌, ◌-◌, ◌^◌, ◌≤◌, Bool, true, false, ◌||◌, leb, ltb, if◌then◌else◌, Option, none, some, List,
  [], ◌∷◌, length, to_u32, sub32, sub64,
}
use ipc_performance.Handler.Os.{codes}
use ipc_performance.Text.{same_text, stoull}
use ipc_performance.Benchmark.{reached, is_data, Round, Status, returned, broke, running}
use ipc_performance.Benchmark.Client.{payload_amount}
use ipc_performance.Benchmark.Latency
use ipc_performance.Benchmark.Throughput
use ipc_performance.Benchmark.Execution
use ipc_performance.Benchmark.RealWorld
use ipc_performance.Benchmark.Measure
use ipc_performance.Benchmark.Replay
use ipc_performance.Benchmark.Statistics.{Statistics, compute}
use ipc_performance.Program.{Handler, create_handler}
use ipc_performance.Program.Trace.{DataPoint, Parsed, parsed, throws, outside, parse_trace}
use ipc_performance.Program.Normal

-- How the process ends: with an exit code, by an exception or undefined behaviour, or not yet.
pub data Exit : Type 0 where
  exits : ℕ → Exit
  breaks : Exit
  runs_on : Exit

-- What is done with the handler: `open`, the loop of reads or writes, `close`.
pub data Step : Type 0 where
  opens : Bool → Step
  runs : Bool → Step
  closes : Step

-- What is printed at the end. The throughput and the times of `throughput` are kept as nanoseconds.
pub data Report : Type 0 where
  silent : Report
  latency_report : ℕ → ℕ → Statistics → Report
  throughput_report : ℕ → ℕ → ℕ → ℕ → Report
  execution_report : ℕ → ℕ → ℕ → Statistics → Report
  real_world_report : ℕ → ℕ → ℕ → Report

-- What the handler and the clock answer: to `open`, and in the loops of each kind.
pub record Answers : Type 0 where
  pub opened : Bool
  pub awaits : List Bool
  pub rounds : List Round
  pub turns : List Throughput.Turn
  pub timed : List Execution.Timed
  pub results : List Bool
  pub measured : List Measure.Turn
  pub start : ℕ
  pub replayed : List Replay.Turn
  pub visits : List Normal.Visit
  pub posts : List Normal.Post

-- `setup`, `run` and `cleanup`; `report` is what follows if all goes well.
abbrev pub benchmark : Bool → Status → Exit × Report → Exit × Report × List Step
benchmark false status report = (exits 1, silent, opens false ∷ [])
benchmark true (returned true) report = (report.0, report.1, opens true ∷ runs true ∷ closes ∷ [])
benchmark true (returned false) report = (exits 1, silent, opens true ∷ runs false ∷ closes ∷ [])
benchmark true broke report = (breaks, silent, opens true ∷ [])
benchmark true running report = (runs_on, silent, opens true ∷ [])

-- The statistics of no values are undefined behaviour.
abbrev pub with_statistics : Option Statistics → (Statistics → Report) → Exit × Report
with_statistics none f = (breaks, silent)
with_statistics (some s) f = (exits 0, f s)

-- `run_client` of the latency and the throughput benchmark, from turn `i` on.
unfoldable pub run_writes : ℕ → ℕ → List Bool → Status
run_writes iterations i [] = if leb i iterations then running else returned true
run_writes iterations i (result ∷ results) =
    let more = run_writes iterations (to_u32 (i + 1)) results in
    if leb i iterations then (if result then more else returned false) else returned true

-- A client that makes dummy data first. Its loop counts with `unsigned int` up to an amount of `size_t`: if
-- that has more than 32 bits the loop goes on until there is no memory left.
abbrev pub with_dummy : ℕ → Status → Status
with_dummy size status = if ltb (payload_amount size) (2 ^ 32) then status else broke

unfoldable pub run_latency : Answers → ℕ → ℕ → Bool → Exit × Report × List Step
unfolding run_writes
run_latency a iterations delay true =
    let (status, latencies) =
      Latency.run_server iterations 1 [] (reached is_data false a.awaits a.rounds) in
    benchmark a.opened status
      (with_statistics (compute latencies) (latency_report (length latencies) delay))
run_latency a iterations delay false =
    benchmark a.opened (run_writes iterations 1 a.results) (exits 0, silent)

unfoldable pub run_throughput : Answers → ℕ → ℕ → Bool → Exit × Report × List Step
unfolding run_writes
run_throughput a iterations body_size true =
    let (status, s) = Throughput.run_server iterations false Throughput.initial a.turns in
    benchmark a.opened status (
      exits 0,
      throughput_report iterations body_size (sub32 iterations s.received)
          (sub64 s.end_time s.start_time),
    )
run_throughput a iterations body_size false =
    benchmark a.opened (with_dummy body_size (run_writes iterations 1 a.results)) (exits 0, silent)

unfoldable pub run_execution_time : Answers → ℕ → ℕ → ℕ → Bool → Exit × Report × List Step
run_execution_time a iterations body_size delay true =
    let (status, times) =
      Execution.run_server iterations 1 [] (reached Execution.is_data false a.awaits a.timed) in
    benchmark a.opened status
      (with_statistics (compute times) (execution_report (length times) delay body_size))
run_execution_time a iterations body_size delay false =
    let (status, times) = Measure.run_client iterations 1 [] a.measured in
    benchmark a.opened (with_dummy body_size status)
      (with_statistics (compute times) (execution_report (length times) delay body_size))

-- The loops of the real world benchmark, which print `get_estimated_time` first: it takes the first and
-- the last of the data points.
abbrev pub replay : Answers → List DataPoint → Bool → Status × ℕ
replay a [] readonly = (broke, 0)
replay a (p ∷ points) true =
    RealWorld.run_server (length (p ∷ points)) 0 0 (reached is_data false a.awaits a.rounds)
replay a (p ∷ points) false =
    let (status, misses, actions) = Replay.run_client 5 a.start (p ∷ points) a.replayed in
    (status, misses)

-- Behind the loop over the lines. The threshold of the benchmark is 5, whatever `threshold` is.
abbrev pub with_points : Answers → Parsed (List DataPoint) → ℕ → Bool → Exit × Report × List Step
with_points a (parsed points) threshold readonly =
    let (status, misses) = replay a points readonly in
    benchmark a.opened status (exits 0, real_world_report (to_u32 (length points)) threshold misses)
with_points a throws threshold readonly = (breaks, silent, [])
with_points a outside threshold readonly = (breaks, silent, [])

-- `text` is the content of the file.
unfoldable pub run_real_world : Answers → List ℕ → ℕ → Bool → Exit × Report × List Step
run_real_world a text threshold readonly = with_points a (parse_trace text) threshold readonly

-- The kind `normal`: a thread runs a loop until the user stops it.
unfoldable pub run_normal : Answers → Bool → Exit × Report × List Step
run_normal a readonly =
    let status =
      if readonly
      then (Normal.run_server false 1 a.visits).0
      else (Normal.run_client 1 a.posts).0 in
    benchmark a.opened status (exits 0, silent)

abbrev pub bad_arguments : Exit × Report × List Step
bad_arguments = (exits 1, silent, [])

abbrev pub thrown : Exit × Report × List Step
thrown = (breaks, silent, [])

-- `std::stoul` of an argument, which is then converted to `unsigned int`.
abbrev pub with_number : List ℕ → (ℕ → Exit × Report × List Step) → Exit × Report × List Step
with_number text f = elim (stoull 10 text) [ none ↦ thrown | some n ↦ f (to_u32 n) ]

-- The kinds with their parameters; `files` gives the content of a file.
unfoldable pub start_latency : Answers → Bool → List (List ℕ) → Exit × Report × List Step
unfolding run_latency
start_latency a mode (iterations ∷ delay ∷ more) =
    with_number iterations (λ n. with_number delay (λ d. run_latency a n d mode))
start_latency a mode parameters = bad_arguments

unfoldable pub start_throughput : Answers → Bool → List (List ℕ) → Exit × Report × List Step
unfolding run_throughput
start_throughput a mode (iterations ∷ body_size ∷ more) =
    with_number iterations (λ n. with_number body_size (λ s. run_throughput a n s mode))
start_throughput a mode parameters = bad_arguments

unfoldable pub start_execution : Answers → Bool → List (List ℕ) → Exit × Report × List Step
unfolding run_execution_time
start_execution a mode (iterations ∷ body_size ∷ delay ∷ more) =
    with_number iterations
      (λ n. with_number body_size (λ s. with_number delay (λ d. run_execution_time a n s d mode)))
start_execution a mode parameters = bad_arguments

unfoldable pub start_real_world :
    Answers → (List ℕ → List ℕ) → Bool → List (List ℕ) → Exit × Report × List Step
unfolding run_real_world
start_real_world a files mode (path ∷ threshold ∷ more) =
    with_number threshold (λ t. run_real_world a (files path) t mode)
start_real_world a files mode parameters = bad_arguments

abbrev pub path_for : List ℕ → List ℕ
path_for type =
    if same_text type (codes "udp") || same_text type (codes "tcp")
    then codes "127.0.0.1"
    else codes "ipc-handler"

unfoldable pub start_kind :
    Answers → (List ℕ → List ℕ) → List ℕ → Bool → List (List ℕ) → Exit × Report × List Step
unfolding run_normal start_latency start_throughput start_execution start_real_world
start_kind a files kind mode parameters =
    if same_text kind (codes "normal")
    then run_normal a mode
    else if same_text kind (codes "latency")
    then start_latency a mode parameters
    else if same_text kind (codes "throughput")
    then start_throughput a mode parameters
    else if same_text kind (codes "execution")
    then start_execution a mode parameters
    else if same_text kind (codes "realworld")
    then start_real_world a files mode parameters
    else bad_arguments

-- `main` on the arguments behind the program's name. `files` gives the content of the file at a path, nothing
-- if it cannot be read. `a` are the answers that the handler which is made gives.
unfoldable pub main :
    (Handler → Answers) → (List ℕ → List ℕ) → List (List ℕ) → Exit × Report × List Step
unfolding start_kind
main a files (kind ∷ type ∷ mode ∷ parameters) =
    let reader = same_text mode (codes "reader") in
    elim (create_handler type (path_for type) reader) [
      | none ↦ bad_arguments
      | some handler ↦ start_kind (a handler) files kind reader parameters
    ]
main a files arguments = bad_arguments
