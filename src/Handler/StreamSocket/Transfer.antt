-- ===== src/Handler/StreamSocket/Transfer.antt =====
-- handler/stream_socket.cpp: a connected pair of handlers is a queue, however the system cuts the stream.
use ipc_performance.Prelude.{
  ℕ, ◌<◌, ◌≡◌, refl, ap, ◌∙◌, sym, Bool, true, Option, none, some, List, [], ◌∷◌, ◌++◌, arith,
  length, length-append, inl, inr, Option-cases,
}
use ipc_performance.Communication.{DataObject, Outcome, failed, no_data_available}
use ipc_performance.Communication.Frame.{pack}
use ipc_performance.Communication.Frame.Wire.{next_id, Packed, pack-Packed, length-packet}
use ipc_performance.Handler.Message.{
  Message, bytes, delivered, AllFit, AllFit-append, joined, joined-append,
}
use ipc_performance.Handler.Link.{
  Sendable, numbered, numbered-Fits, Link, Op, run, spec_run, Within, run-eq-spec_run,
}
use ipc_performance.Handler.StreamSocket.{write, read}
use ipc_performance.Handler.StreamSocket.Connection.{StreamSocket, is_open}
use ipc_performance.Handler.StreamSocket.Receive.{
  Event, nothing_yet, receive_packet, receive_header,
}
use ipc_performance.Handler.StreamSocket.Chunks.{payload, Flows, Begun}
use ipc_performance.Handler.StreamSocket.Stream.{read_stream-delivered}

-- A client that writes, a server that reads, and the bytes of the stream between them.
pub record State : Type 0 where
  pub w : StreamSocket
  pub r : StreamSocket
  pub stream : List ℕ

-- The client is connected, the server has accepted it, and the messages `q` are in the stream.
pub record Holds (s : State) (q : List Message) : Type 0 where
  pub w_open : is_open s.w ≡ true
  pub client : ℕ
  pub r_client : s.r.cfd ≡ some client
  pub w_buffer : length s.w.frame.buffer ≡ 528
  pub r_buffer : length s.r.frame.buffer ≡ 528
  pub queued : s.stream ≡ joined q
  pub fit : AllFit q

abbrev pub pour : List ℕ → Option (List ℕ) → List ℕ
pour stream none = stream
pour stream (some bs) = stream ++ bs

unfoldable pub send : State → DataObject → ℕ → Bool × State
send s o timestamp =
    let (fine, w, sent) = write s.w o timestamp true in
    (fine, record s { w = w; stream = pour s.stream sent })

pub send_law :
    (capacity : ℕ) (s : State) (q : List Message) (o : DataObject) (timestamp : ℕ)
    → Holds s q
    → Sendable o timestamp
    → length q < capacity
    → ((send s o timestamp).0 ≡ true)
      × Holds (send s o timestamp).1 (q ++ numbered s.w.frame.last_id o timestamp ∷ [])
      × ((send s o timestamp).1.w.frame.last_id ≡ next_id s.w.frame.last_id)
unfolding send write
send_law capacity s q o timestamp h d free =
    rw (h.w_open, p.size)
      (
        refl,
        record {
          w_open = h.w_open;
          client = h.client;
          r_client = h.r_client;
          w_buffer = p.room ∙ h.w_buffer;
          r_buffer = h.r_buffer;
          queued = rw (p.bytes, h.queued, joined-append q m);
          fit = AllFit-append q m h.fit (numbered-Fits s.w.frame.last_id o timestamp d);
        },
        p.counted,
      )
  where
    m : Message
    m = numbered s.w.frame.last_id o timestamp

    p : Packed s.w.frame o timestamp (pack s.w.frame o timestamp)
    p = pack-Packed s.w.frame o timestamp h.w_buffer d.size_fits

read-cfd : (h : StreamSocket) (events : List Event) → (read h events).1.cfd ≡ h.cfd
unfolding read
read-cfd h events = elim (Option-cases h.cfd) [ inl e ↦ rw e refl | inr (fd, e) ↦ rw e refl ]

-- `arrive` is how the bytes of the stream come in: the events that `recv` finds.
module _ (arrive : List ℕ → List Event) (flows_law : (bs : List ℕ) → Flows (arrive bs))
    (payload_law : (bs : List ℕ) → payload (arrive bs) ≡ bs)
    (begun_law : (b : ℕ) (bs : List ℕ) → Begun (arrive (b ∷ bs)))
    (empty_law : (events : List Event) × (arrive [] ≡ nothing_yet ∷ events)) where
  unfoldable pub receive : State → Outcome × State
  receive s =
      let (outcome, r, left) = read s.r (arrive s.stream) in
      (outcome, record s { r = r; stream = payload left })

  begun : (bs : List ℕ) → 0 < length bs → Begun (arrive bs)
  begun [] h = absurd (omega arith)
  begun (b ∷ bs) h = begun_law b bs

  pub receive_law :
      (s : State) (m : Message) (q : List Message)
      → Holds s (m ∷ q)
      → ((receive s).0 ≡ delivered m)
        × Holds (receive s).1 q
        × ((receive s).1.w.frame.last_id ≡ s.w.frame.last_id)
  unfolding receive
  receive_law s m q h =
      let events : List Event = arrive s.stream in
      let there : payload events ≡ bytes m ++ joined q = payload_law s.stream ∙ h.queued in
      let some_bytes : 0 < length s.stream = omega (
        arith,
        ap length h.queued,
        length-append (bytes m) (joined q),
        length-packet m.id m.timestamp m.object,
      ) in
      let found =
        read_stream-delivered s.r h.client events m (joined q) h.r_client h.r_buffer h.fit.0
          (flows_law s.stream) (begun s.stream some_bytes) there in
      (
        found.0,
        record {
          w_open = h.w_open;
          client = h.client;
          r_client = read-cfd s.r events ∙ h.r_client;
          w_buffer = h.w_buffer;
          r_buffer = found.3;
          queued = found.1;
          fit = h.fit.1;
        },
        refl,
      )

  pub nothing_law : (s : State) → Holds s [] → receive s ≡ (failed no_data_available, s)
  unfolding receive read receive_packet receive_header
  nothing_law s h =
      let (events, e) = empty_law in
      let none_left : payload events ≡ [] = ap payload (sym e) ∙ payload_law [] in
      rw (h.queued, e, h.r_client, none_left) refl

  -- A pair of handlers as a link: the stream has room for `capacity` messages.
  abbrev pub link : ℕ → Link
  link capacity = record {
    State = State;
    Holds = Holds;
    counter = λ s. s.w.frame.last_id;
    capacity = capacity;
    send = send;
    receive = receive;
    send_law = send_law capacity;
    receive_law = receive_law;
    empty_law = nothing_law;
  }

  -- StreamSocket: in every state where a connected client and a server that has accepted it have
  -- the messages `q` in the stream between them, in whatever pieces the bytes of the stream arrive
  -- and however often nothing is there in between, if the first of them are there at the first call
  -- of `recv` whenever the stream has any, `recv` answers EAGAIN when it has none, the stream has
  -- room (`capacity` messages) and no system call fails, every sequence of `write` and `read` is
  -- answered as by a queue: each `write` of an object that fits returns true, and each `read`
  -- returns the oldest message that was not read, whole and unchanged, or NO_DATA_AVAILABLE if
  -- there is none.
  pub run_stream-spec_run :
      (capacity : ℕ) (s : State) (q : List Message) (ops : List Op)
      → Holds s q
      → Within capacity (length q) ops
      → run (link capacity) s ops ≡ spec_run s.w.frame.last_id q ops
  run_stream-spec_run capacity = run-eq-spec_run (link capacity)
