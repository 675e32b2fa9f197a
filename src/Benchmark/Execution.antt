-- ===== src/Benchmark/Execution.antt =====
-- benchmark/execution.cpp: the server, which measures the calls of `read`.
use ipc_performance.Prelude.{
  Bool, ℕ, ◌+◌, ◌-◌, ◌≤◌, ◌<◌, ◌^◌, ◌≡◌, refl, true, false, leb, if◌then◌else◌, List, [], ◌∷◌, ◌++◌,
  arith, length, length-append, to_u32, sub64, le→leb, ◌⊎◌, inl, inr,
}
use mathlib.Core.Path.{subst}
use ipc_performance.Communication.{Outcome, message, failed, aborted, overrun, waiting}
use ipc_performance.Benchmark.{is_message, Status, returned, broke, running, is_no_data}

-- A turn of the loop: what `read` returns, and the times before and after it.
pub data Timed : Type 0 where
  timed : Outcome → ℕ → ℕ → Timed

abbrev pub is_data : Timed → Bool
is_data (timed outcome before after) = is_message outcome

-- `run_server` from turn `i` on, `iterations` in all. The times are `unsigned int`.
unfoldable pub run_server : ℕ → ℕ → List ℕ → List Timed → Status × List ℕ
run_server iterations i times [] =
    if leb i iterations then (running, times) else (returned true, times)
run_server iterations i times (timed (message header o) before after ∷ turns) =
    let more =
      run_server iterations (to_u32 (i + 1)) (times ++ to_u32 (sub64 after before) ∷ []) turns in
    if leb i iterations then more else (returned true, times)
run_server iterations i times (timed (failed e) before after ∷ turns) =
    let more = run_server iterations i times turns in
    if leb i iterations
    then (if is_no_data e then more else (returned false, times))
    else (returned true, times)
run_server iterations i times (timed waiting before after ∷ turns) =
    if leb i iterations then (running, times) else (returned true, times)
run_server iterations i times (timed outcome before after ∷ turns) =
    if leb i iterations then (broke, times) else (returned true, times)

-- No answer is an error, but for NO_DATA_AVAILABLE, until an error at the end.
abbrev pub FailsLate : List Timed → Type 0
FailsLate [] = ⊥
FailsLate (timed (message h o) before after ∷ turns) = FailsLate turns
FailsLate (timed (failed e) before after ∷ turns) =
    (is_no_data e ≡ false) ⊎ ((is_no_data e ≡ true) × FailsLate turns)
FailsLate (timed outcome before after ∷ turns) = ⊥

-- The messages in front of that error.
abbrev pub messages_before : List Timed → ℕ
messages_before [] = 0
messages_before (timed (message h o) before after ∷ turns) = 1 + messages_before turns
messages_before (timed (failed e) before after ∷ turns) =
    if is_no_data e then messages_before turns else 0
messages_before (timed outcome before after ∷ turns) = 0

turns-failing :
    (n i : ℕ) (times : List ℕ) (turns : List Timed)
    → FailsLate turns
    → n < 2 ^ 32 - 1
    → i + messages_before turns ≤ n
    → let (status, times') = run_server n i times turns in
      (status ≡ returned false) × (length times' ≡ length times + messages_before turns)
unfolding run_server
turns-failing n i times [] f w h = absurd f
turns-failing n i times (timed (message header o) before after ∷ turns) f w h =
    let x : List ℕ = to_u32 (sub64 after before) ∷ [] in
    let next : to_u32 (i + 1) ≡ i + 1 = omega arith in
    let more = turns-failing n (i + 1) (times ++ x) turns f w (omega arith) in
    rw (le→leb i n (omega arith), next) (more.0, omega (arith, more.1, length-append times x))
turns-failing n i times (timed (failed e) before after ∷ turns) (inl hard) w h =
    rw (le→leb i n (omega arith), hard) (refl, omega arith)
turns-failing n i times (timed (failed e) before after ∷ turns) (inr (soft, f)) w h =
    let small : i + messages_before turns ≤ n =
      subst (λ b. i + (if b then messages_before turns else 0) ≤ n) soft h in
    rw (le→leb i n (omega arith), soft) (turns-failing n i times turns f w small)
turns-failing n i times (timed aborted before after ∷ turns) f w h = absurd f
turns-failing n i times (timed overrun before after ∷ turns) f w h = absurd f
turns-failing n i times (timed waiting before after ∷ turns) f w h = absurd f

-- ExecutionTimeBenchmark: if `read` fails with an error other than NO_DATA_AVAILABLE behind fewer
-- messages than there are iterations, fewer than 2 ^ 32 - 1, and with no other error in front of
-- it, then the server returns false, with one time for each of those messages and none for the
-- calls that failed.
pub run_execution-error :
    (iterations : ℕ) (turns : List Timed)
    → FailsLate turns
    → iterations < 2 ^ 32 - 1
    → messages_before turns < iterations
    → let (status, times) = run_server iterations 1 [] turns in
      (status ≡ returned false) × (length times ≡ messages_before turns)
run_execution-error iterations turns f w h =
    let all = turns-failing iterations 1 [] turns f w (omega arith) in (all.0, omega (arith, all.1))
