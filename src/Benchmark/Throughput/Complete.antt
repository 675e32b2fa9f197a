-- ===== src/Benchmark/Throughput/Complete.antt =====
-- benchmark/throughput.cpp: a server that loses nothing.
use ipc_performance.Prelude.{
  ℕ, ◌+◌, ◌-◌, ◌<◌, ◌^◌, ◌≡◌, refl, ap, ◌∙◌, true, false, List, [], ◌∷◌, arith, length, le→ltb,
  lt→ltb,
}
use ipc_performance.Object.DataHeader.{DataHeader}
use ipc_performance.Communication.{DataObject, message, failed, aborted, overrun, waiting}
use ipc_performance.Benchmark.{returned}
use ipc_performance.Benchmark.Throughput.{
  Turn, turn, Server, count_message, run_server, initial, start_kept,
}

abbrev pub AllMessages : List Turn → Type 0
AllMessages [] = Unit {0}
AllMessages (turn timeouts (message header o) now ∷ turns) = AllMessages turns
AllMessages (turn timeouts outcome now ∷ turns) = ⊥

-- The time of the last turn.
abbrev pub last_time : ℕ → List Turn → ℕ
last_time time [] = time
last_time time (turn timeouts outcome now ∷ turns) = last_time now turns

received-count_message :
    (s : Server) (timestamp now : ℕ)
    → s.received < 2 ^ 32 - 1
    → (count_message s timestamp now).received ≡ s.received + 1
unfolding count_message
received-count_message s timestamp now w = omega arith

end_time-count_message :
    (s : Server) (timestamp now : ℕ) → (count_message s timestamp now).end_time ≡ now
unfolding count_message
end_time-count_message s timestamp now = refl

all_counted :
    (n : ℕ) (s : Server) (turns : List Turn)
    → AllMessages turns
    → n < 2 ^ 32 - 1
    → s.received + length turns ≡ n
    → let (status, s') = run_server n true s turns in
      (status ≡ returned true) × (s'.received ≡ n) × (s'.end_time ≡ last_time s.end_time turns)
unfolding run_server
all_counted n s [] a w h = rw (le→ltb s.received n (omega arith)) (refl, omega arith, refl)
all_counted n s (turn timeouts (message header o) now ∷ turns) a w h =
    let s1 : Server = count_message s header.timestamp now in
    let more =
      all_counted n s1 turns a w
        (omega (arith, h, received-count_message s header.timestamp now (omega arith))) in
    rw (lt→ltb s.received n (omega arith)) (
      more.0,
      more.1,
      more.2 ∙ ap (λ t. last_time t turns) (end_time-count_message s header.timestamp now),
    )
all_counted n s (turn timeouts (failed e) now ∷ turns) a w h = absurd a
all_counted n s (turn timeouts aborted now ∷ turns) a w h = absurd a
all_counted n s (turn timeouts overrun now ∷ turns) a w h = absurd a
all_counted n s (turn timeouts waiting now ∷ turns) a w h = absurd a

-- ThroughputBenchmark: if `read` answers one message in each turn, at least two and fewer than 2
-- ^ 32 - 1 of them, and as many as there are iterations, then the server returns true and has
-- counted just the iterations, its end time is the time of the last message's arrival, and its
-- start time is the timestamp of the second message, not that of the first.
pub run_throughput_complete :
    (iterations t1 t2 now1 now2 : ℕ) (h1 h2 : DataHeader) (o1 o2 : DataObject) (turns : List Turn)
    → AllMessages turns
    → iterations < 2 ^ 32 - 1
    → 2 + length turns ≡ iterations
    → let (status, s) =
        run_server iterations false initial
          (turn t1 (message h1 o1) now1 ∷ turn t2 (message h2 o2) now2 ∷ turns) in
      (status ≡ returned true)
      × (s.received ≡ iterations)
      × (s.start_time ≡ h2.timestamp)
      × (s.end_time ≡ last_time now2 turns)
unfolding run_server count_message
run_throughput_complete iterations t1 t2 now1 now2 h1 h2 o1 o2 turns a w h =
    let s2 : Server = record { start_time = h2.timestamp; end_time = now2; received = 2 } in
    let all = all_counted iterations s2 turns a w h in
    rw (lt→ltb 0 iterations (omega arith), lt→ltb 1 iterations (omega arith))
      (all.0, all.1, start_kept iterations true s2 turns w (omega arith), all.2)
