-- ===== src/Benchmark/Latency.antt =====
-- benchmark/latency.cpp: the server.
use ipc_performance.Prelude.{
  ℕ, ◌+◌, ◌-◌, ◌≤◌, ◌<◌, ◌^◌, ◌≡◌, refl, true, false, leb, if◌then◌else◌, List, [], ◌∷◌, ◌++◌,
  arith, length, length-append, to_u32, sub64, dec_lt, le→leb, lt→leb,
}
use ipc_performance.Communication.{message, failed, aborted, overrun, waiting}
use ipc_performance.Benchmark.{Round, round, Status, returned, broke, running, is_no_data, count}

-- `run_server` from turn `i` on, `iterations` in all. The latencies are `unsigned int`.
unfoldable pub run_server : ℕ → ℕ → List ℕ → List Round → Status × List ℕ
run_server iterations i latencies [] =
    if leb i iterations then (running, latencies) else (returned true, latencies)
run_server iterations i latencies (round (message header o) now ∷ rounds) =
    let more =
      run_server iterations (to_u32 (i + 1)) (latencies ++ to_u32 (sub64 now header.timestamp) ∷ [])
        rounds in
    if leb i iterations then more else (returned true, latencies)
run_server iterations i latencies (round (failed e) now ∷ rounds) =
    let more = run_server iterations i latencies rounds in
    if leb i iterations
    then (if is_no_data e then more else (returned false, latencies))
    else (returned true, latencies)
run_server iterations i latencies (round waiting now ∷ rounds) =
    if leb i iterations then (running, latencies) else (returned true, latencies)
run_server iterations i latencies (round outcome now ∷ rounds) =
    if leb i iterations then (broke, latencies) else (returned true, latencies)

-- Only messages and NO_DATA_AVAILABLE are answered.
abbrev pub Quiet : List Round → Type 0
Quiet [] = Unit {0}
Quiet (round (message h o) now ∷ rounds) = Quiet rounds
Quiet (round (failed e) now ∷ rounds) = (is_no_data e ≡ true) × Quiet rounds
Quiet (round outcome now ∷ rounds) = ⊥

pub finished :
    (n i : ℕ) (ls : List ℕ) (rounds : List Round)
    → n < i
    → run_server n i ls rounds ≡ (returned true, ls)
unfolding run_server
finished n i ls [] h = rw (lt→leb i n h)
finished n i ls (round (message header o) now ∷ rounds) h = rw (lt→leb i n h)
finished n i ls (round (failed e) now ∷ rounds) h = rw (lt→leb i n h)
finished n i ls (round aborted now ∷ rounds) h = rw (lt→leb i n h)
finished n i ls (round overrun now ∷ rounds) h = rw (lt→leb i n h)
finished n i ls (round waiting now ∷ rounds) h = rw (lt→leb i n h)

turns :
    (n i : ℕ) (ls : List ℕ) (rounds : List Round)
    → Quiet rounds
    → n < 2 ^ 32 - 1
    → i ≤ n + 1
    → n + 1 ≤ i + count rounds
    → let (status, ls') = run_server n i ls rounds in
      (status ≡ returned true) × (length ls' + i ≡ length ls + (n + 1))
unfolding run_server
turns n i ls [] q w h c = rw (lt→leb i n (omega arith)) (refl, omega arith)
turns n i ls (round (message header o) now ∷ rounds) q w h c = elim (dec_lt n i) [
  | yes over ↦ rw (lt→leb i n over) (refl, omega arith)
  | no under ↦
      let x : List ℕ = to_u32 (sub64 now header.timestamp) ∷ [] in
      let next : to_u32 (i + 1) ≡ i + 1 = omega arith in
      let more = turns n (i + 1) (ls ++ x) rounds q w (omega arith) (omega arith) in
      rw (le→leb i n (omega arith), next) (more.0, omega (arith, more.1, length-append ls x))
]
turns n i ls (round (failed e) now ∷ rounds) q w h c = elim (dec_lt n i) [
  | yes over ↦ rw (lt→leb i n over) (refl, omega arith)
  | no under ↦ rw (le→leb i n (omega arith), q.0) (turns n i ls rounds q.1 w h c)
]
turns n i ls (round aborted now ∷ rounds) q w h c = absurd q
turns n i ls (round overrun now ∷ rounds) q w h c = absurd q
turns n i ls (round waiting now ∷ rounds) q w h c = absurd q

-- LatencyBenchmark: if `read` answers at least as many messages as there are iterations, fewer
-- than 2 ^ 32 - 1, and otherwise only fails with NO_DATA_AVAILABLE, then the server returns true
-- with exactly one latency for each iteration.
pub run_latency-count :
    (iterations : ℕ) (rounds : List Round)
    → Quiet rounds
    → iterations < 2 ^ 32 - 1
    → iterations ≤ count rounds
    → let (status, latencies) = run_server iterations 1 [] rounds in
      (status ≡ returned true) × (length latencies ≡ iterations)
run_latency-count iterations rounds q w c =
    let all = turns iterations 1 [] rounds q w (omega arith) (omega arith) in
    (all.0, omega (arith, all.1))
