-- ===== src/Benchmark/Throughput.antt =====
-- benchmark/throughput.cpp: the server.
pub mod Complete
use ipc_performance.Prelude.{
  ℕ, ◌+◌, ◌-◌, ◌*◌, ◌/◌, ◌≤◌, ◌<◌, ◌^◌, ◌≡◌, refl, ◌∙◌, Bool, true, false, ◌&&◌, not, ◌==◌, ltb,
  if◌then◌else◌, List, [], ◌∷◌, arith, to_u32, dec_lt, le→ltb, lt→ltb, ne→==, Bool-cases, inl, inr,
}
use ipc_performance.Object.DataHeader.{DataHeader}
use ipc_performance.Communication.{
  DataObject, Outcome, message, failed, aborted, overrun, waiting, wait_time,
}
use ipc_performance.Benchmark.{Status, returned, broke, running, is_no_data}

-- A turn of the loop: how often `await_data` fails before it succeeds, where it is called, then what
-- `read` returns and what `get_timestamp` answers.
pub data Turn : Type 0 where
  turn : ℕ → Outcome → ℕ → Turn

abbrev pub max_retries : ℕ
max_retries = 10 * 1000 / wait_time

pub record Server : Type 0 where
  pub start_time : ℕ
  pub end_time : ℕ
  pub received : ℕ

-- The members behind a message.
unfoldable pub count_message : Server → ℕ → ℕ → Server
count_message s timestamp now = record {
  start_time = if s.received == 1 then timestamp else s.start_time;
  end_time = now;
  received = to_u32 (s.received + 1);
}

-- The server gives up: no data for too long after the first message.
abbrev pub gives_up : Bool → Server → ℕ → Bool
gives_up more_data s timeouts = not more_data && (ltb 0 s.received && ltb max_retries timeouts)

-- `run_server` with the flag `more_data`.
unfoldable pub run_server : ℕ → Bool → Server → List Turn → Status × Server
run_server iterations more_data s [] =
    if ltb s.received iterations then (running, s) else (returned true, s)
run_server iterations more_data s (turn timeouts (message header o) now ∷ turns) =
    let more = run_server iterations true (count_message s header.timestamp now) turns in
    if ltb s.received iterations
    then (if gives_up more_data s timeouts then (returned true, s) else more)
    else (returned true, s)
run_server iterations more_data s (turn timeouts (failed e) now ∷ turns) =
    let more = run_server iterations false s turns in
    if ltb s.received iterations
    then (if gives_up more_data s timeouts
        then (returned true, s)
        else if is_no_data e
        then more
        else (returned false, s))
    else (returned true, s)
run_server iterations more_data s (turn timeouts waiting now ∷ turns) =
    if ltb s.received iterations
    then (if gives_up more_data s timeouts then (returned true, s) else (running, s))
    else (returned true, s)
run_server iterations more_data s (turn timeouts outcome now ∷ turns) =
    if ltb s.received iterations
    then (if gives_up more_data s timeouts then (returned true, s) else (broke, s))
    else (returned true, s)

count_message-lt :
    (s : Server) (timestamp now : ℕ)
    → 1 < s.received
    → s.received < 2 ^ 32 - 1
    → 1 < (count_message s timestamp now).received
unfolding count_message
count_message-lt s timestamp now h w = omega arith

count_message-start :
    (s : Server) (timestamp now : ℕ)
    → 1 < s.received
    → (count_message s timestamp now).start_time ≡ s.start_time
unfolding count_message
count_message-start s timestamp now h = rw (ne→== s.received 1 (omega arith)) refl

-- From the second message on the first time stays.
pub start_kept :
    (n : ℕ) (more_data : Bool) (s : Server) (turns : List Turn)
    → n < 2 ^ 32 - 1
    → 1 < s.received
    → (run_server n more_data s turns).1.start_time ≡ s.start_time
unfolding run_server
start_kept n more_data s [] w h = ground arith
start_kept n more_data s (turn timeouts (message header o) now ∷ turns) w h =
    elim (dec_lt s.received n) [
      | no done ↦ rw (le→ltb s.received n (omega arith)) refl
      | yes more ↦
          rw (lt→ltb s.received n more) (elim (Bool-cases (gives_up more_data s timeouts)) [
            | inl e ↦ rw e refl
            | inr e ↦ rw e (
                start_kept n true (count_message s header.timestamp now) turns w
                  (count_message-lt s header.timestamp now h (omega arith))
                ∙ count_message-start s header.timestamp now h)
          ])
    ]
start_kept n more_data s (turn timeouts (failed e) now ∷ turns) w h =
    let again = start_kept n false s turns w h in ground (arith, again)
start_kept n more_data s (turn timeouts aborted now ∷ turns) w h = ground arith
start_kept n more_data s (turn timeouts overrun now ∷ turns) w h = ground arith
start_kept n more_data s (turn timeouts waiting now ∷ turns) w h = ground arith

abbrev pub initial : Server
initial = record { start_time = 0; end_time = 0; received = 0 }

-- ThroughputBenchmark: if the first two answers of `read` are messages and there are at least 2
-- iterations and fewer than 2 ^ 32 - 1, then, whatever follows, the server's start time is the
-- timestamp of the second message, and not that of the first.
pub run_throughput-start :
    (iterations t1 t2 now1 now2 : ℕ) (h1 h2 : DataHeader) (o1 o2 : DataObject) (turns : List Turn)
    → 2 ≤ iterations
    → iterations < 2 ^ 32 - 1
    → (run_server iterations false initial
        (turn t1 (message h1 o1) now1 ∷ turn t2 (message h2 o2) now2 ∷ turns)).1.start_time
      ≡ h2.timestamp
unfolding run_server count_message
run_throughput-start iterations t1 t2 now1 now2 h1 h2 o1 o2 turns lo hi =
    rw (lt→ltb 0 iterations (omega arith), lt→ltb 1 iterations (omega arith))
      (start_kept iterations true
        (record { start_time = h2.timestamp; end_time = now2; received = 2 }) turns hi
        (omega arith))
