-- ===== src/Tests/Benchmarks.antt =====
-- The benchmarks at concrete inputs.
use ipc_performance.Prelude.{false, ℕ, ◌+◌, ◌≡◌, refl, true, List, [], ◌∷◌, arith, length}
use ipc_performance.Object.DataType
use ipc_performance.Object.DataHeader.{DataHeader}
use ipc_performance.Object.Ping
use ipc_performance.Communication.{ping_object, no_data_available, message, failed}
use ipc_performance.Communication.Wire.{encode}
use ipc_performance.Handler.SharedMemory.Queue.{State, Holds, link}
use ipc_performance.Benchmark.{Round, round, returned}
use ipc_performance.Benchmark.Client.{dummy, length-dummy, run_client, series, run_client-series}
use ipc_performance.Benchmark.Session.{receive_all, latency_session-differences}
use ipc_performance.Benchmark.Latency
use ipc_performance.Benchmark.Latency.{run_latency-count}
use ipc_performance.Benchmark.RealWorld
use ipc_performance.Benchmark.RealWorld.{run_real_world-misses}
use ipc_performance.Benchmark.Throughput.Complete.{run_throughput_complete}
use ipc_performance.Benchmark.Throughput
use ipc_performance.Benchmark.Throughput.{Turn, turn, initial}
use ipc_performance.Tests.Data.{two, two-Sendable}
use ipc_performance.Tests.Handlers.{side, memory, memory-Linked}

abbrev header : ℕ → DataHeader
header id = record { id = id; type = DataType.ping; body_size = 0; timestamp = 100 }

abbrev arrives : ℕ → Round
arrives id = round (message (header id) (ping_object Ping.ping)) 150

-- The messages 1 and 3 of 3 arrive.
abbrev rounds : List Round
rounds = arrives 1 ∷ round (failed no_data_available) 0 ∷ arrives 3 ∷ []

run_real_world-misses_example :
    let (status, misses) = RealWorld.run_server 3 0 0 rounds in
    (status ≡ returned true) × (misses + 2 ≡ 3)
run_real_world-misses_example =
    run_real_world-misses 3 rounds
      (omega arith, omega arith, (refl, (omega arith, omega arith, refl))) (omega arith)

length-dummy_example : length (encode (dummy (λ n. n) 64)) ≡ 64
length-dummy_example = length-dummy (λ n. n) 64 (omega arith) (omega arith)

abbrev start : State
start = record { w = side; r = side; shared = memory 0 64 }

run_client-series_example :
    let (status, s1) = run_client link 2 1 start two (5 ∷ 5 ∷ []) in
    (status ≡ returned true) × Holds s1 (series 0 two (5 ∷ 5 ∷ []))
run_client-series_example =
    run_client-series link start [] two (5 ∷ 5 ∷ []) (omega arith) memory-Linked
      (two-Sendable, (two-Sendable, tt)) (omega arith)

run_throughput_complete_example :
    let (status, s) = Throughput.run_server 3 false initial (
      turn 0 (message (header 1) (ping_object Ping.ping)) 150
      ∷ turn 0 (message (header 2) (ping_object Ping.ping)) 160
      ∷ turn 0 (message (header 3) (ping_object Ping.ping)) 170
      ∷ []) in
    (status ≡ returned true) × (s.received ≡ 3) × (s.start_time ≡ 100) × (s.end_time ≡ 170)
run_throughput_complete_example =
    run_throughput_complete 3 0 0 150 160 (header 1) (header 2) (ping_object Ping.ping)
      (ping_object Ping.ping) (turn 0 (message (header 3) (ping_object Ping.ping)) 170 ∷ []) tt
      (omega arith) refl

-- Two messages, read 145 and 150 later.
latency_session-differences_example :
    let (status, s1) = run_client link 2 1 start two (5 ∷ 5 ∷ []) in
    let (rounds, s2) = receive_all link s1 (150 ∷ 155 ∷ []) in
    (status ≡ returned true)
    × (Latency.run_server 2 1 [] rounds ≡ (returned true, 145 ∷ 150 ∷ []))
    × Holds s2 []
latency_session-differences_example =
    latency_session-differences link start two (5 ∷ 5 ∷ []) (150 ∷ 155 ∷ []) memory-Linked
      (two-Sendable, (two-Sendable, tt)) (omega arith) (omega arith) refl
