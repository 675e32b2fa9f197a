-- ===== src/Handler/StreamSocket.antt =====
-- handler/stream_socket.cpp: a Unix or Internet domain socket that carries a stream of bytes. The
-- server accepts one client at a time and reads; the client writes.
pub mod Connection
pub mod Receive
pub mod Lifecycle
pub mod Chunks
pub mod Stream
pub mod Returns
pub mod Overrun
pub mod Sequence
pub mod Transfer
use ipc_performance.Prelude.{
  ℕ, ◌+◌, Bool, true, false, ◌&&◌, not, if◌then◌else◌, Option, none, some, List, [], ◌∷◌, ◌++◌,
  take,
}
use ipc_performance.Communication.{DataObject, connection_closed, Outcome, failed}
use ipc_performance.Communication.Frame.{Frame, pack}
use Connection.{StreamSocket, is_open}
use Receive.{Event, receive_packet}

-- The option is what is handed to `send`, which answers `accepted`.
unfoldable pub write : StreamSocket → DataObject → ℕ → Bool → Bool × StreamSocket × Option (List ℕ)
write h o timestamp accepted =
    let (packed, frame) = pack h.frame o timestamp in
    let h1 = record h { frame = frame } in
    if not (is_open h) then (false, h, none) else elim packed [
      | none ↦ (false, h1, none)
      | some size ↦ (accepted, h1, some (take (16 + size) frame.buffer))
    ]

-- `read` on what `recv` answers: the outcome, the handler, and what is left to receive.
unfoldable pub read : StreamSocket → List Event → Outcome × StreamSocket × List Event
read h events =
    let (outcome, buffer, rest) = receive_packet h.frame.buffer events in
    elim h.cfd [
      | none ↦ (failed connection_closed, h, events)
      | some fd ↦ (outcome, record h { frame = record h.frame { buffer = buffer } }, rest)
    ]
