-- ===== src/Handler/Fifo.antt =====
-- handler/fifo.cpp: a named pipe. The reader makes it and takes it away.
pub mod Lifecycle
pub mod Stream
use ipc_performance.Prelude.{
  ℕ, ◌+◌, Bool, true, false, ◌&&◌, not, ◌==◌, ltb, if◌then◌else◌, Option, none, some, List, [], ◌∷◌,
  ◌++◌, take, drop, length,
}
use ipc_performance.Prelude.Bytes.{memcpy}
use ipc_performance.Object.DataHeader
use ipc_performance.Object.DataHeader.{DataHeader, header_size}
use ipc_performance.Communication.{
  DataObject, connection_closed, no_data_available, read_error, Outcome, failed, aborted, overrun,
  invalid_header,
}
use ipc_performance.Communication.Frame.{Frame, pack, read_body}
use ipc_performance.Handler.Os.{
  Call, opens, closes, unlinks, makes_fifo, has_fd, Poll, is_ready, Received, received, again,
  broken,
}

pub record Fifo : Type 0 where
  pub path : List ℕ
  pub readonly : Bool
  pub fd : Option ℕ
  pub frame : Frame

-- What the system answers to `open`: whether mkfifo succeeds, and the descriptor.
pub record Replies : Type 0 where
  pub made : Bool
  pub opened : Option ℕ

abbrev pub is_open : Fifo → Bool
is_open h = has_fd h.fd

-- `open` from the call of the system's `open` on.
open_pipe : Fifo → Replies → List Call → Bool × Fifo × List Call
open_pipe h r made = elim r.opened [
  | none ↦ (false, h, made ++ (if h.readonly then unlinks h.path ∷ [] else []))
  | some fd ↦ (true, record h { fd = some fd }, made ++ (opens fd ∷ []))
]

unfoldable pub open_handler : Fifo → Replies → Bool × Fifo × List Call
unfolding open_pipe
open_handler h r =
    if is_open h
    then (true, h, [])
    else if h.readonly
    then (if r.made
        then open_pipe h r (unlinks h.path ∷ makes_fifo h.path ∷ [])
        else (false, h, unlinks h.path ∷ []))
    else open_pipe h r []

unfoldable pub close : Fifo → Bool × Fifo × List Call
close h = elim h.fd [
  | none ↦ (false, h, [])
  | some fd ↦
      (true, record h { fd = none }, closes fd ∷ (if h.readonly then unlinks h.path ∷ [] else []))
]

-- `await_data` and `has_data` differ in how long `poll` waits.
unfoldable pub await_data : Fifo → Poll → Bool
await_data h p = is_open h && is_ready p

unfoldable pub has_data : Fifo → Poll → Bool
has_data h p = is_open h && is_ready p

-- The option is what is handed to the system's `write`, which answers `accepted`.
unfoldable pub write : Fifo → DataObject → ℕ → Bool → Bool × Fifo × Option (List ℕ)
write h o timestamp accepted =
    let (packed, frame) = pack h.frame o timestamp in
    let h1 = record h { frame = frame } in
    if not (is_open h) then (false, h, none) else elim packed [
      | none ↦ (false, h1, none)
      | some size ↦ (accepted, h1, some (take (16 + size) frame.buffer))
    ]

-- The system's `read` of at most `n` bytes from a pipe that is open for writing and does not block:
-- the answer and what is left in the pipe.
unfoldable pub pipe_read : List ℕ → ℕ → Bool → Received × List ℕ
pipe_read [] n fails =
    if fails then (broken, []) else if n == 0 then (received [], []) else (again, [])
pipe_read (b ∷ pipe) n fails =
    if fails then (broken, b ∷ pipe) else (received (take n (b ∷ pipe)), drop n (b ∷ pipe))

-- `read` behind the second system call, whose bytes go to the start of the buffer.
unfoldable pub finish_read : Fifo → DataHeader → Received → Outcome × Fifo
finish_read h header again = (failed no_data_available, h)
finish_read h header broken = (failed read_error, h)
finish_read h header (received bs) =
    let buffer = memcpy h.frame.buffer 0 bs in
    let h1 = record h { frame = record h.frame { buffer = buffer } } in
    if ltb 528 (length bs)
    then (overrun, h)
    else if header.body_size == length bs
    then (read_body buffer header, h1)
    else (aborted, h1)

-- The first call's bytes in the buffer, taken for a header; the second call is given its size.
unfoldable pub read_behind_header :
    Fifo → List ℕ → Bool → Option DataHeader → Outcome × Fifo × List ℕ
read_behind_header h pipe fails none = (failed invalid_header, h, pipe)
read_behind_header h pipe fails (some header) =
    let (answer, rest) = pipe_read pipe header.body_size fails in
    let (outcome, h1) = finish_read h header answer in (outcome, h1, rest)

-- `read` behind the first system call.
unfoldable pub read_body_after : Fifo → List ℕ → Bool → Received → Outcome × Fifo × List ℕ
read_body_after h pipe fails again = (failed no_data_available, h, pipe)
read_body_after h pipe fails broken = (failed read_error, h, pipe)
read_body_after h pipe fails (received bs) =
    let buffer = memcpy h.frame.buffer 0 bs in
    let h1 = record h { frame = record h.frame { buffer = buffer } } in
    if length bs == 0
    then (failed no_data_available, h, pipe)
    else if length bs == header_size
    then read_behind_header h1 pipe fails (DataHeader.deserialize buffer header_size)
    else (aborted, h1, pipe)

-- `read` on the pipe; the flags say whether the two system calls fail otherwise than by EAGAIN.
unfoldable pub read : Fifo → List ℕ → Bool → Bool → Outcome × Fifo × List ℕ
read h pipe fails1 fails2 =
    let (answer, rest) = pipe_read pipe header_size fails1 in
    if is_open h then read_body_after h rest fails2 answer else (failed connection_closed, h, pipe)
