-- ===== src/Handler/StreamSocket/Stream.antt =====
-- stream_socket.cpp: `read` returns the messages that `write` has sent, however the stream is cut.
use ipc_performance.Prelude.{ℕ, ◌≡◌, ◌∙◌, some, List, ◌++◌, arith, length}
use ipc_performance.Prelude.Bytes.{memcpy, length-memcpy}
use ipc_performance.Object.DataHeader
use ipc_performance.Object.DataHeader.{DataHeader, bytes_of}
use ipc_performance.Object.DataHeader.Wire as HeaderWire
use ipc_performance.Communication.Frame.{read_body}
use ipc_performance.Communication.Frame.Wire.{body_size-header_for}
use ipc_performance.Handler.Message.{
  Message, Fits, bytes, delivered, header_of, body_of, bytes-append, deserialize-memcpy,
  read_body-memcpy,
}
use ipc_performance.Handler.StreamSocket.{read}
use ipc_performance.Handler.StreamSocket.Connection.{StreamSocket}
use ipc_performance.Handler.StreamSocket.Receive.{
  Event, filled, receive_header, receive_body, receive_packet,
}
use ipc_performance.Handler.StreamSocket.Chunks.{
  payload, Flows, Begun, Fills, receive_header-Fills, receive_body-Fills,
}

receive_packet-filled :
    (buffer b1 b2 : List ℕ) (events ev1 ev2 : List Event) (header : DataHeader)
    → receive_header buffer 0 events ≡ filled b1 ev1
    → DataHeader.deserialize b1 16 ≡ some header
    → receive_body b1 0 header.body_size ev1 ≡ filled b2 ev2
    → receive_packet buffer events ≡ (read_body b2 header, b2, ev2)
unfolding receive_packet
receive_packet-filled buffer b1 b2 events ev1 ev2 header p q r = rw (p, q, r)

-- StreamSocket: if the bytes that arrive from the accepted client begin with the packet of a
-- message that fits, the first of them are there at the first call of `recv`, and the connection
-- neither fails nor ends, then `read` returns the message and leaves the bytes behind it, in
-- whatever pieces the packet arrives and however often nothing is there for a while.
pub read_stream-delivered :
    (h : StreamSocket) (fd : ℕ) (events : List Event) (m : Message) (rest : List ℕ)
    → h.cfd ≡ some fd
    → length h.frame.buffer ≡ 528
    → Fits m
    → Flows events
    → Begun events
    → payload events ≡ bytes m ++ rest
    → let (outcome, h', left) = read h events in
      (outcome ≡ delivered m) × (payload left ≡ rest) × Flows left × (length h'.frame.buffer ≡ 528)
unfolding read
read_stream-delivered h fd events m rest c l fits f b p =
    rw (c, packet_read)
      (
        read_body-memcpy b1 m fits room,
        body.left,
        body.flows,
        length-memcpy b1 0 (body_of m) ∙ room,
      )
  where
    hb : List ℕ
    hb = bytes_of (header_of m)

    b1 : List ℕ
    b1 = memcpy h.frame.buffer 0 hb

    room : length b1 ≡ 528
    room = length-memcpy h.frame.buffer 0 hb ∙ l

    size : (header_of m).body_size ≡ length (body_of m)
    size = body_size-header_for m.id m.timestamp m.object

    head : Fills (receive_header h.frame.buffer 0 events) b1 (body_of m ++ rest)
    head =
        receive_header-Fills h.frame.buffer 0 events hb (body_of m ++ rest) f (λ z. b) (omega arith)
          (omega (arith, HeaderWire.length-bytes_of (header_of m))) (p ∙ bytes-append m rest)

    body :
        Fills (receive_body b1 0 (header_of m).body_size head.events) (memcpy b1 0 (body_of m)) rest
    body =
        receive_body-Fills b1 0 (header_of m).body_size head.events (body_of m) rest head.flows
          (omega (arith, fits.size_fits, size)) (omega (arith, size)) head.left

    packet_read :
        receive_packet h.frame.buffer events
        ≡ (read_body (memcpy b1 0 (body_of m)) (header_of m), memcpy b1 0 (body_of m), body.events)
    packet_read =
        receive_packet-filled h.frame.buffer b1 _ events head.events body.events (header_of m)
          head.ends (deserialize-memcpy h.frame.buffer m fits l) body.ends
