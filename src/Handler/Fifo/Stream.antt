-- ===== src/Handler/Fifo/Stream.antt =====
-- handler/fifo.cpp: a writer and a reader of a pipe are a queue, although a pipe keeps no bounds
-- between messages.
use ipc_performance.Prelude.{
  ℕ, zero, suc, ◌<◌, ◌≤◌, ◌≡◌, refl, ◌∙◌, sym, Bool, true, false, Option, none, some, List, [], ◌∷◌,
  ◌++◌, arith, take, drop, length, length-append, take-append_left, drop-append_left, length-take,
  ne→==, eq→==, le→ltb, lt→ltb,
}
use ipc_performance.Prelude.Bytes.{memcpy, length-memcpy}
use ipc_performance.Object.DataHeader
use ipc_performance.Object.DataHeader.{DataHeader, bytes_of}
use ipc_performance.Object.DataHeader.Wire as HeaderWire
use ipc_performance.Communication.{DataObject, Outcome, failed, no_data_available, overrun}
use ipc_performance.Communication.Frame.{pack}
use ipc_performance.Communication.Frame.Wire.{next_id, Packed, pack-Packed, body_size-header_for}
use ipc_performance.Handler.Os.{received}
use ipc_performance.Handler.Message.{
  joined, joined-append, Message, Fits, bytes, delivered, AllFit, AllFit-append, header_of, body_of,
  bytes-append, deserialize-memcpy, deserialize-memcpy_header, read_body-memcpy,
}
use ipc_performance.Handler.Link.{
  Sendable, numbered, numbered-Fits, Link, Op, run, spec_run, Within, run-eq-spec_run,
}
use ipc_performance.Handler.Fifo.{
  Fifo, is_open, write, read, pipe_read, read_body_after, read_behind_header, finish_read,
}

-- A pipe with enough bytes gives as many as are asked for.
pipe_read-enough :
    (pipe : List ℕ) (n : ℕ)
    → n ≤ length pipe
    → pipe_read pipe n false ≡ (received (take n pipe), drop n pipe)
unfolding pipe_read
pipe_read-enough [] zero h = refl
pipe_read-enough [] (suc n) h = absurd (omega arith)
pipe_read-enough (b ∷ pipe) n h = refl

pipe_read-append :
    (bs rest : List ℕ) (n : ℕ)
    → n ≡ length bs
    → pipe_read (bs ++ rest) n false ≡ (received bs, rest)
pipe_read-append bs rest n e =
    pipe_read-enough (bs ++ rest) n (omega (arith, length-append bs rest)) ∙ λ i.
    (received (take-append_left n bs rest (sym e) i), drop-append_left n bs rest (sym e) i)

-- `read` of a pipe that begins with a message returns it and leaves the rest.
read-delivered :
    (h : Fifo) (m : Message) (rest : List ℕ)
    → is_open h ≡ true
    → length h.frame.buffer ≡ 528
    → Fits m
    → let (outcome, h', pipe) = read h (bytes m ++ rest) false false in
      (outcome ≡ delivered m) × (pipe ≡ rest) × (is_open h' ≡ true) × (length h'.frame.buffer ≡ 528)
unfolding read read_body_after read_behind_header finish_read
read-delivered h m rest o l f =
    rw
      (
        o,
        bytes-append m rest,
        pipe_read-append hb (body_of m ++ rest) 16 (sym head),
        ne→== (length hb) 0 (omega (arith, head)),
        eq→== (length hb) 16 head,
        deserialize-memcpy h.frame.buffer m f l,
        pipe_read-append (body_of m) rest (header_of m).body_size size,
        le→ltb 528 (length (body_of m)) (omega (arith, f.size_fits)),
        eq→== (header_of m).body_size (length (body_of m)) size,
      )
      (read_body-memcpy b1 m f room, refl, o, length-memcpy b1 0 (body_of m) ∙ room)
  where
    hb : List ℕ
    hb = bytes_of (header_of m)

    head : length hb ≡ 16
    head = HeaderWire.length-bytes_of (header_of m)

    size : (header_of m).body_size ≡ length (body_of m)
    size = body_size-header_for m.id m.timestamp m.object

    b1 : List ℕ
    b1 = memcpy h.frame.buffer 0 hb

    room : length b1 ≡ 528
    room = length-memcpy h.frame.buffer 0 hb ∙ l

-- A writer, a reader, and the bytes in the pipe.
pub record State : Type 0 where
  pub w : Fifo
  pub r : Fifo
  pub pipe : List ℕ

-- Both are open, and the pipe holds the messages `q`.
pub record Holds (s : State) (q : List Message) : Type 0 where
  pub w_open : is_open s.w ≡ true
  pub r_open : is_open s.r ≡ true
  pub w_buffer : length s.w.frame.buffer ≡ 528
  pub r_buffer : length s.r.frame.buffer ≡ 528
  pub queued : s.pipe ≡ joined q
  pub fit : AllFit q

abbrev pub pour : List ℕ → Option (List ℕ) → List ℕ
pour pipe none = pipe
pour pipe (some bs) = pipe ++ bs

unfoldable pub send : State → DataObject → ℕ → Bool × State
send s o timestamp =
    let (fine, w, sent) = write s.w o timestamp true in
    (fine, record s { w = w; pipe = pour s.pipe sent })

unfoldable pub receive : State → Outcome × State
receive s =
    let (outcome, r, pipe) = read s.r s.pipe false false in
    (outcome, record s { r = r; pipe = pipe })

pub send_law :
    (capacity : ℕ) (s : State) (q : List Message) (o : DataObject) (timestamp : ℕ)
    → Holds s q
    → Sendable o timestamp
    → length q < capacity
    → ((send s o timestamp).0 ≡ true)
      × Holds (send s o timestamp).1 (q ++ numbered s.w.frame.last_id o timestamp ∷ [])
      × ((send s o timestamp).1.w.frame.last_id ≡ next_id s.w.frame.last_id)
unfolding send write
send_law capacity s q o timestamp h d free =
    rw (h.w_open, p.size)
      (
        refl,
        record {
          w_open = h.w_open;
          r_open = h.r_open;
          w_buffer = p.room ∙ h.w_buffer;
          r_buffer = h.r_buffer;
          queued = rw (p.bytes, h.queued, joined-append q m);
          fit = AllFit-append q m h.fit (numbered-Fits s.w.frame.last_id o timestamp d);
        },
        p.counted,
      )
  where
    m : Message
    m = numbered s.w.frame.last_id o timestamp

    p : Packed s.w.frame o timestamp (pack s.w.frame o timestamp)
    p = pack-Packed s.w.frame o timestamp h.w_buffer d.size_fits

pub receive_law :
    (s : State) (m : Message) (q : List Message)
    → Holds s (m ∷ q)
    → ((receive s).0 ≡ delivered m)
      × Holds (receive s).1 q
      × ((receive s).1.w.frame.last_id ≡ s.w.frame.last_id)
unfolding receive
receive_law s m q h = rw h.queued (
  arrived.0,
  record {
    w_open = h.w_open;
    r_open = arrived.2;
    w_buffer = h.w_buffer;
    r_buffer = arrived.3;
    queued = arrived.1;
    fit = h.fit.1;
  },
  refl,
)
  where
    arrived :
        ((read s.r (joined (m ∷ q)) false false).0 ≡ delivered m)
        × ((read s.r (joined (m ∷ q)) false false).2 ≡ joined q)
        × (is_open (read s.r (joined (m ∷ q)) false false).1 ≡ true)
        × (length (read s.r (joined (m ∷ q)) false false).1.frame.buffer ≡ 528)
    arrived = read-delivered s.r m (joined q) h.r_open h.r_buffer h.fit.0

pub empty_law : (s : State) → Holds s [] → receive s ≡ (failed no_data_available, s)
unfolding receive read pipe_read read_body_after
empty_law s h = rw (h.r_open, h.queued)

-- `capacity` is the number of messages that the system's pipe has room for.
abbrev pub link : ℕ → Link
link capacity = record {
  State = State;
  Holds = Holds;
  counter = λ s. s.w.frame.last_id;
  capacity = capacity;
  send = send;
  receive = receive;
  send_law = send_law capacity;
  receive_law = receive_law;
  empty_law = empty_law;
}

-- Fifo: in every state where an open writer and an open reader hold the messages `q`, and while
-- the pipe has room (`capacity` messages) and no system call fails, every sequence of `write` and
-- `read` is answered as by a queue, although a pipe keeps no bounds between messages: each
-- `write` of an object that fits returns true, and each `read` returns the oldest message that
-- was not read, whole and unchanged, or NO_DATA_AVAILABLE if there is none.
pub run_fifo-spec_run :
    (capacity : ℕ) (s : State) (q : List Message) (ops : List Op)
    → Holds s q
    → Within capacity (length q) ops
    → run (link capacity) s ops ≡ spec_run s.w.frame.last_id q ops
run_fifo-spec_run capacity = run-eq-spec_run (link capacity)

-- Fifo: `read` has no bound on the size that a header announces: if a valid header with a size
-- above 528 stands first in the pipe and as many bytes behind it, and no system call fails, the
-- buffer is overrun.
pub read_fifo-overrun :
    (h : Fifo) (header : DataHeader) (body : List ℕ)
    → is_open h ≡ true
    → length h.frame.buffer ≡ 528
    → DataHeader.IsValid header
    → 528 < header.body_size
    → header.body_size ≤ length body
    → (read h (bytes_of header ++ body) false false).0 ≡ overrun
unfolding read read_body_after read_behind_header finish_read
read_fifo-overrun h header body o l v big there = rw (
  o,
  pipe_read-append (bytes_of header) body 16 (sym head),
  ne→== (length (bytes_of header)) 0 (omega (arith, head)),
  eq→== (length (bytes_of header)) 16 head,
  deserialize-memcpy_header h.frame.buffer header v l,
  pipe_read-enough body header.body_size there,
  lt→ltb 528 (length (take header.body_size body))
      (omega (arith, length-take header.body_size body)),
)
  where
    head : length (bytes_of header) ≡ 16
    head = HeaderWire.length-bytes_of header
