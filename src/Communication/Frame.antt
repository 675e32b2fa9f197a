-- ===== src/Communication/Frame.antt =====
-- How every socket-like handler builds a packet in its buffer before it sends it, and takes a packet
-- in its buffer apart. The lines are the same in each of them; fifo.cpp and message_queue.cpp stand
-- for all.
pub mod Wire
pub mod Parts
use ipc_performance.Prelude.{
  ℕ, ◌+◌, ◌-◌, ◌%◌, ◌^◌, Bool, true, false, ◌==◌, if◌then◌else◌, Option, none, some, List, to_u16,
  to_u32, minus_one, drop,
}
use ipc_performance.Object.DataHeader
use ipc_performance.Object.DataHeader.{DataHeader, header_size}
use ipc_performance.Communication.{
  DataObject, get_type, serialize, deserialize_data_object, buffer_size, Outcome, failed,
  with_header, CommunicationError, invalid_header,
}

-- `last_id_` and `buffer_` of a handler.
pub record Frame : Type 0 where
  pub last_id : ℕ
  pub buffer : List ℕ

-- The body goes behind the space for the header, then the header is written. The option is the size of
-- the body, or `none` where `write` returns false.
unfoldable pub pack : Frame → DataObject → ℕ → Option ℕ × Frame
pack f o timestamp =
    let (size, b1) = serialize o f.buffer header_size (buffer_size - header_size) in
    let id = to_u32 (f.last_id + 1) in
    let h : DataHeader = record {
      id = id;
      type = get_type o;
      body_size = to_u16 size;
      timestamp = timestamp;
    } in
    let (_, b2) = DataHeader.serialize h b1 0 header_size in
    if size == minus_one
    then (none, record f { buffer = b1 })
    else (some size, record { last_id = id; buffer = b2 })

abbrev pub or_invalid_header : Option DataHeader → (DataHeader → Outcome) → Outcome
or_invalid_header none next = failed invalid_header
or_invalid_header (some h) next = next h

-- The header in front of the buffer. The `read` of a handler goes on with it.
abbrev pub read_header : List ℕ → (DataHeader → Outcome) → Outcome
read_header buffer next = or_invalid_header (DataHeader.deserialize buffer header_size) next

-- The body, in the memory from the given pointer on.
abbrev pub read_body : List ℕ → DataHeader → Outcome
read_body body h = with_header h (deserialize_data_object h.type body h.body_size)
