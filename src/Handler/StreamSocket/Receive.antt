-- ===== src/Handler/StreamSocket/Receive.antt =====
-- stream_socket.cpp: the two loops of `read`, which collect a header and then a body from whatever
-- pieces `recv` returns.
use ipc_performance.Prelude.{
  ℕ, ◌+◌, ◌-◌, ◌==◌, ltb, leb, if◌then◌else◌, Option, none, some, List, [], ◌∷◌, take, drop, length,
}
use ipc_performance.Prelude.Bytes.{memcpy}
use ipc_performance.Object.DataHeader
use ipc_performance.Object.DataHeader.{DataHeader, header_size}
use ipc_performance.Communication.{
  connection_closed, no_data_available, read_error, invalid_header, Outcome, failed, overrun,
  waiting,
}
use ipc_performance.Communication.Frame.{read_body}

-- What the next call of `recv` finds: bytes that have arrived, nothing (EAGAIN), another error, or the
-- end of the connection. No event left: the call has not answered yet.
pub data Event : Type 0 where
  chunk : List ℕ → Event
  nothing_yet : Event
  failure : Event
  end : Event

-- What of an event is left behind a call that has taken the first `n` bytes.
unfoldable pub leftover : List ℕ → ℕ → List Event → List Event
leftover bs n events = if leb (length bs) n then events else chunk (drop n bs) ∷ events

-- How a loop ends: the buffer is filled, or `read` returns.
pub data Loop : Type 0 where
  filled : List ℕ → List Event → Loop
  stopped : Outcome → List ℕ → List Event → Loop

-- The `do` loop for the header: `amount` bytes are there. EAGAIN ends it only before the first byte.
unfoldable pub receive_header : List ℕ → ℕ → List Event → Loop
receive_header buffer amount [] = stopped waiting buffer []
receive_header buffer amount (nothing_yet ∷ events) =
    if ltb 0 amount
    then receive_header buffer amount events
    else stopped (failed no_data_available) buffer events
receive_header buffer amount (failure ∷ events) = stopped (failed read_error) buffer events
receive_header buffer amount (end ∷ events) = stopped (failed connection_closed) buffer events
receive_header buffer amount (chunk bs ∷ events) =
    let got = take (header_size - amount) bs in
    let buffer1 = memcpy buffer amount got in
    let amount1 = amount + length got in
    let more = receive_header buffer1 amount1 events in
    if length got == 0
    then stopped (failed connection_closed) buffer events
    else if ltb amount1 header_size
    then more
    else filled buffer1 (leftover bs (header_size - amount) events)

-- The `while` loop for a body of `size` bytes. There is no test that the buffer can hold them.
unfoldable pub receive_body : List ℕ → ℕ → ℕ → List Event → Loop
receive_body buffer amount size [] =
    if ltb amount size then stopped waiting buffer [] else filled buffer []
receive_body buffer amount size (nothing_yet ∷ events) =
    let more = receive_body buffer amount size events in
    if ltb amount size then more else filled buffer (nothing_yet ∷ events)
receive_body buffer amount size (failure ∷ events) =
    if ltb amount size
    then stopped (failed read_error) buffer events
    else filled buffer (failure ∷ events)
receive_body buffer amount size (end ∷ events) =
    if ltb amount size
    then stopped (failed connection_closed) buffer events
    else filled buffer (end ∷ events)
receive_body buffer amount size (chunk bs ∷ events) =
    let got = take (size - amount) bs in
    let buffer1 = memcpy buffer amount got in
    let amount1 = amount + length got in
    let more = receive_body buffer1 amount1 size events in
    if leb size amount
    then filled buffer (chunk bs ∷ events)
    else if length got == 0
    then stopped (failed connection_closed) buffer events
    else if ltb 528 amount1
    then stopped overrun buffer events
    else if ltb amount1 size
    then more
    else filled buffer1 (leftover bs (size - amount) events)

-- `read` behind the body, behind the header, and from its first `recv` on.
abbrev pub finish_body : DataHeader → Loop → Outcome × List ℕ × List Event
finish_body header (stopped outcome buffer events) = (outcome, buffer, events)
finish_body header (filled buffer events) = (read_body buffer header, buffer, events)

abbrev pub body_of : Option DataHeader → List ℕ → List Event → Outcome × List ℕ × List Event
body_of none buffer events = (failed invalid_header, buffer, events)
body_of (some header) buffer events =
    finish_body header (receive_body buffer 0 header.body_size events)

abbrev pub finish_header : Loop → Outcome × List ℕ × List Event
finish_header (stopped outcome buffer events) = (outcome, buffer, events)
finish_header (filled buffer events) =
    body_of (DataHeader.deserialize buffer header_size) buffer events

unfoldable pub receive_packet : List ℕ → List Event → Outcome × List ℕ × List Event
receive_packet buffer events = finish_header (receive_header buffer 0 events)
