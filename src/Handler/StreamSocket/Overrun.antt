-- ===== src/Handler/StreamSocket/Overrun.antt =====
-- stream_socket.cpp: a header that announces more than the buffer holds.
use ipc_performance.Prelude.{
  ℕ, ◌+◌, ◌-◌, ◌≤◌, ◌<◌, ◌≡◌, refl, ap, some, List, [], ◌∷◌, ◌++◌, arith, take, length, length-take,
  length-append, dec_lt, lt→ltb, le→ltb, ne→==, lt→leb,
}
use ipc_performance.Prelude.Bytes.{memcpy}
use ipc_performance.Object.DataHeader
use ipc_performance.Object.DataHeader.{DataHeader, bytes_of}
use ipc_performance.Object.DataHeader.Wire as HeaderWire
use ipc_performance.Communication.{overrun}
use ipc_performance.Handler.Message.{deserialize-memcpy_header}
use ipc_performance.Handler.StreamSocket.{read}
use ipc_performance.Handler.StreamSocket.Connection.{StreamSocket}
use ipc_performance.Handler.StreamSocket.Receive.{
  Event, chunk, nothing_yet, failure, end, receive_header, receive_body, receive_packet,
  finish_body,
}
use ipc_performance.Handler.StreamSocket.Chunks.{payload, Flows, Begun, Fills, receive_header-Fills}

-- The body loop goes over the end of the buffer when the bytes are there.
receive_body-overrun :
    (header : DataHeader) (buffer : List ℕ) (amount size : ℕ) (events : List Event)
    → Flows events
    → 528 < size
    → amount ≤ 528
    → size ≤ amount + length (payload events)
    → (finish_body header (receive_body buffer amount size events)).0 ≡ overrun
unfolding receive_body
receive_body-overrun header buffer amount size [] f big lo h = absurd (omega arith)
receive_body-overrun header buffer amount size (nothing_yet ∷ events) f big lo h =
    rw (lt→ltb amount size (omega arith))
      (receive_body-overrun header buffer amount size events f big lo h)
receive_body-overrun header buffer amount size (failure ∷ events) f big lo h = absurd f
receive_body-overrun header buffer amount size (end ∷ events) f big lo h = absurd f
receive_body-overrun header buffer amount size (chunk bs ∷ events) f big lo h =
    let got : List ℕ = take (size - amount) bs in
    let nonempty : 0 < length got = omega (arith, f.0, length-take (size - amount) bs) in
    elim (dec_lt 528 (amount + length got)) [
      | yes over ↦
          rw
            (
              lt→leb size amount (omega arith),
              ne→== (length got) 0 (omega arith),
              lt→ltb 528 (amount + length got) over,
            )
            refl
      | no under ↦
          rw
            (
              lt→leb size amount (omega arith),
              ne→== (length got) 0 (omega arith),
              le→ltb 528 (amount + length got) (omega arith),
              lt→ltb (amount + length got) size (omega arith),
            )
            (receive_body-overrun header (memcpy buffer amount got) (amount + length got) size
              events f.1 big (omega arith)
              (omega (arith, h, length-append bs (payload events), length-take (size - amount) bs)))
    ]

-- StreamSocket: `read` has no bound on the size that a header announces: if the bytes that arrive
-- are a valid header with a size above 528 and behind it at least as many bytes, in whatever
-- pieces, and the first of them are there at the first call of `recv`, then the buffer is
-- overrun.
pub read_stream-overrun :
    (h : StreamSocket) (fd : ℕ) (events : List Event) (header : DataHeader) (body : List ℕ)
    → h.cfd ≡ some fd
    → length h.frame.buffer ≡ 528
    → DataHeader.IsValid header
    → 528 < header.body_size
    → header.body_size ≤ length body
    → Flows events
    → Begun events
    → payload events ≡ bytes_of header ++ body
    → (read h events).0 ≡ overrun
unfolding read receive_packet
read_stream-overrun h fd events header body c l v big there f b p =
    let n : length (bytes_of header) ≡ 16 = HeaderWire.length-bytes_of header in
    let head : Fills (receive_header h.frame.buffer 0 events)
        (memcpy h.frame.buffer 0 (bytes_of header)) body =
      receive_header-Fills h.frame.buffer 0 events (bytes_of header) body f (λ z. b) (omega arith)
        (omega arith) p in
    rw (c, head.ends, deserialize-memcpy_header h.frame.buffer header v l)
      (receive_body-overrun header (memcpy h.frame.buffer 0 (bytes_of header)) 0 header.body_size
        head.events head.flows big (omega arith) (omega (arith, ap length head.left)))
