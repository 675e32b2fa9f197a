-- ===== src/Handler/MessageQueue.antt =====
-- handler/message_queue.cpp: a POSIX message queue, which keeps messages whole.
pub mod Lifecycle
pub mod Transfer
use ipc_performance.Prelude.{
  ℕ, ◌+◌, Bool, true, false, ◌&&◌, not, if◌then◌else◌, Option, none, some, List, [], ◌∷◌, ◌++◌,
  take,
}
use ipc_performance.Communication.{DataObject, connection_closed, Outcome, failed}
use ipc_performance.Communication.Frame.{Frame, pack}
use ipc_performance.Handler.Os.{
  Call, opens, closes, unlinks, has_fd, Poll, is_ready, Received, received, again, broken,
}
use ipc_performance.Handler.Datagrams.{take_datagram}

pub record MessageQueue : Type 0 where
  pub path : List ℕ
  pub readonly : Bool
  pub mqd : Option ℕ
  pub frame : Frame

abbrev pub is_open : MessageQueue → Bool
is_open h = has_fd h.mqd

-- `opened` is what `mq_open` answers.
unfoldable pub open_handler : MessageQueue → Option ℕ → Bool × MessageQueue × List Call
open_handler h opened =
    let names = if h.readonly then unlinks h.path ∷ [] else [] in
    if is_open h then (true, h, []) else elim opened [
      | none ↦ (false, h, names ++ names)
      | some fd ↦ (true, record h { mqd = some fd }, names ++ (opens fd ∷ []))
    ]

unfoldable pub close : MessageQueue → Bool × MessageQueue × List Call
close h = elim h.mqd [
  | none ↦ (false, h, [])
  | some fd ↦
      (true, record h { mqd = none }, closes fd ∷ (if h.readonly then unlinks h.path ∷ [] else []))
]

-- `await_data` and `has_data` differ in how long `poll` waits.
unfoldable pub await_data : MessageQueue → Poll → Bool
await_data h p = is_open h && is_ready p

unfoldable pub has_data : MessageQueue → Poll → Bool
has_data h p = is_open h && is_ready p

-- The option is what is handed to `mq_send`, which answers `accepted`.
unfoldable pub write : MessageQueue → DataObject → ℕ → Bool → Bool × MessageQueue × Option (List ℕ)
write h o timestamp accepted =
    let (packed, frame) = pack h.frame o timestamp in
    let h1 = record h { frame = frame } in
    if not (is_open h) then (false, h, none) else elim packed [
      | none ↦ (false, h1, none)
      | some size ↦ (accepted, h1, some (take (16 + size) frame.buffer))
    ]

-- `mq_receive` from the messages in the queue, oldest first, without blocking.
unfoldable pub mq_receive : List (List ℕ) → Bool → Received × List (List ℕ)
mq_receive [] fails = if fails then (broken, []) else (again, [])
mq_receive (m ∷ queue) fails = if fails then (broken, m ∷ queue) else (received m, queue)

unfoldable pub read : MessageQueue → List (List ℕ) → Bool → Outcome × MessageQueue × List (List ℕ)
read h queue fails =
    let (answer, rest) = mq_receive queue fails in
    let (outcome, frame) = take_datagram h.frame answer in
    if is_open h
    then (outcome, record h { frame = frame }, rest)
    else (failed connection_closed, h, queue)
