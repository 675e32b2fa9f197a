-- ===== src/Program/Normal.antt =====
-- src/main.cpp: the loops of the kind `normal`, which write random symbols and print what arrives.
use ipc_performance.Prelude.{
  ℕ, ◌+◌, ◌*◌, ◌^◌, Bool, true, false, ◌||◌, not, if◌then◌else◌, Option, none, some, List, [], ◌∷◌,
  ◌++◌,
}
use ipc_performance.Object.DataHeader.{DataHeader}
use ipc_performance.Object.JavaSymbol.{JavaSymbol}
use ipc_performance.Communication.{
  DataObject, CommunicationError, connection_closed, Outcome, message, failed, waiting,
}
use ipc_performance.Handler.Os.{codes}
use ipc_performance.Benchmark.{Status, returned, broke, running, is_no_data}

-- A turn of the server: whether `stop` is set, whether the handler is open, what `await_data` and `read`
-- return where they are called, and what `accept` returns if the handler is a StreamSocket.
pub record Visit : Type 0 where
  pub stop : Bool
  pub is_open : Bool
  pub ready : Bool
  pub outcome : Outcome
  pub accepted : Option Bool

pub data Line : Type 0 where
  awaits : Line
  error_line : CommunicationError → Line
  reconnected : Line
  header_line : DataHeader → ℕ → Line
  object_line : DataObject → Line

abbrev pub is_closed : CommunicationError → Bool
is_closed connection_closed = true
is_closed e = false

-- What the visitor prints for an error.
unfoldable pub error_lines : CommunicationError → Option Bool → List Line
error_lines e accepted =
    if is_no_data e
    then []
    else if is_closed e
    then elim accepted [
      | none ↦ error_line e ∷ []
      | some fine ↦ if fine then error_line e ∷ reconnected ∷ [] else error_line e ∷ []
    ]
    else error_line e ∷ []

-- A visit: whether the loop ends or breaks off here, else the next `more_data` and `i`; and the lines.
pub data Next : Type 0 where
  ends : Status → Next
  goes_on : Bool → ℕ → Next

unfoldable pub answer : Outcome → Option Bool → ℕ → Next × List Line
unfolding error_lines
answer (message header o) accepted i =
    (goes_on true (i + 1), header_line header i ∷ object_line o ∷ [])
answer (failed e) accepted i = (goes_on false i, error_lines e accepted)
answer waiting accepted i = (ends running, [])
answer outcome accepted i = (ends broke, [])

unfoldable pub visit : Bool → ℕ → Visit → Next × List Line
unfolding answer
visit more_data i v =
    if v.stop || not v.is_open
    then (ends (returned true), [])
    else if more_data
    then answer v.outcome v.accepted i
    else if v.ready
    then (let (next, lines) = answer v.outcome v.accepted i in (next, awaits ∷ lines))
    else (goes_on false i, awaits ∷ [])

unfoldable pub run_server : Bool → ℕ → List Visit → Status × List Line
unfolding visit
run_server more_data i [] = (running, [])
run_server more_data i (v ∷ visits) =
    let (next, lines) = visit more_data i v in
    elim next [
      | ends status ↦ (status, lines)
      | goes_on more n ↦ (let (status, rest) = run_server more n visits in (status, lines ++ rest))
    ]

-- A turn of the client: the time, three results of `rand`, and what `write` returns.
pub record Post : Type 0 where
  pub stop : Bool
  pub is_open : Bool
  pub timestamp : ℕ
  pub high : ℕ
  pub low : ℕ
  pub area : ℕ
  pub result : Bool

pub data Posted : Type 0 where
  write_failed : Posted
  posted : ℕ → JavaSymbol → ℕ → Posted

-- `rand() << 32 | rand()`: both are below 2 ^ 31.
abbrev pub symbol_of : Post → JavaSymbol
symbol_of p = record { address = p.high * 2 ^ 32 + p.low; area = p.area; symbol = codes "test123" }

unfoldable pub run_client : ℕ → List Post → Status × List Posted
run_client i [] = (running, [])
run_client i (p ∷ posts) =
    let (status, rest) = run_client (i + 1) posts in
    let line = posted p.timestamp (symbol_of p) i in
    if p.stop || not p.is_open
    then (returned true, [])
    else if p.result
    then (status, line ∷ rest)
    else (status, write_failed ∷ line ∷ rest)
