-- ===== src/Handler/DatagramSocket/Transfer.antt =====
-- handler/datagram_socket.cpp: a pair of handlers is a queue.
use ipc_performance.Prelude.{
  ℕ, ◌<◌, ◌≡◌, refl, ◌∙◌, Bool, true, false, if◌then◌else◌, Option, none, some, List, [], ◌∷◌, ◌++◌,
  map, length, map-append, take_all,
}
use ipc_performance.Communication.{DataObject, Outcome, failed, no_data_available}
use ipc_performance.Communication.Frame.{pack}
use ipc_performance.Communication.Frame.Wire.{next_id, Packed, pack-Packed}
use ipc_performance.Handler.Os.{received}
use ipc_performance.Handler.Message.{Message, bytes, bytes-le, delivered, AllFit, AllFit-append}
use ipc_performance.Handler.Datagrams.{take_datagram, take_datagram-delivered}
use ipc_performance.Handler.Link.{
  Sendable, numbered, numbered-Fits, Link, Op, run, spec_run, Within, run-eq-spec_run,
}
use ipc_performance.Handler.Sockets.{Address, comes_to}
use ipc_performance.Handler.DatagramSocket.{DatagramSocket, is_open, write, read, recvfrom}

-- A writer, a reader, and the messages that the system keeps between them.
pub record State : Type 0 where
  pub w : DatagramSocket
  pub r : DatagramSocket
  pub queue : List (List ℕ)

-- `here`: the IP addresses of the reader's machine.
module _ (here : ℕ → Bool) where
  -- Both are open, what is sent to the writer's address comes to the reader, and the messages `q` are kept.
  pub record Holds (s : State) (q : List Message) : Type 0 where
    pub w_open : is_open s.w ≡ true
    pub r_open : is_open s.r ≡ true
    pub reaches : comes_to here s.w.address s.r.address ≡ true
    pub w_buffer : length s.w.frame.buffer ≡ 528
    pub r_buffer : length s.r.frame.buffer ≡ 528
    pub queued : s.queue ≡ map bytes q
    pub fit : AllFit q

  -- What `sendto` sends to an address is kept for the socket that is bound to one to which it comes.
  unfoldable pub enqueue : Address → List (List ℕ) → Option (List ℕ × Address) → List (List ℕ)
  unfolding comes_to
  enqueue bound queue none = queue
  enqueue bound queue (some (bs, address)) =
      if comes_to here address bound then queue ++ bs ∷ [] else queue

  unfoldable pub send : State → DataObject → ℕ → Bool × State
  send s o timestamp =
      let (fine, w, sent) = write s.w o timestamp true in
      (fine, record s { w = w; queue = enqueue s.r.address s.queue sent })

  unfoldable pub receive : State → Outcome × State
  receive s =
      let (outcome, r, queue) = read s.r s.queue false in
      (outcome, record s { r = r; queue = queue })

  pub send_law :
      (capacity : ℕ) (s : State) (q : List Message) (o : DataObject) (timestamp : ℕ)
      → Holds s q
      → Sendable o timestamp
      → length q < capacity
      → ((send s o timestamp).0 ≡ true)
        × Holds (send s o timestamp).1 (q ++ numbered s.w.frame.last_id o timestamp ∷ [])
        × ((send s o timestamp).1.w.frame.last_id ≡ next_id s.w.frame.last_id)
  unfolding send write enqueue
  send_law capacity s q o timestamp h d free =
      rw (h.w_open, p.size, h.reaches)
        (
          refl,
          record {
            w_open = h.w_open;
            r_open = h.r_open;
            reaches = h.reaches;
            w_buffer = p.room ∙ h.w_buffer;
            r_buffer = h.r_buffer;
            queued = rw (p.bytes, h.queued, map-append bytes q);
            fit = AllFit-append q m h.fit (numbered-Fits s.w.frame.last_id o timestamp d);
          },
          p.counted,
        )
    where
      m : Message
      m = numbered s.w.frame.last_id o timestamp

      p : Packed s.w.frame o timestamp (pack s.w.frame o timestamp)
      p = pack-Packed s.w.frame o timestamp h.w_buffer d.size_fits

  pub receive_law :
      (s : State) (m : Message) (q : List Message)
      → Holds s (m ∷ q)
      → ((receive s).0 ≡ delivered m)
        × Holds (receive s).1 q
        × ((receive s).1.w.frame.last_id ≡ s.w.frame.last_id)
  unfolding receive read recvfrom
  receive_law s m q h =
      rw (h.r_open, h.queued, take_all 528 (bytes m) (bytes-le h.fit.0))
        (
          arrived.0,
          record {
            w_open = h.w_open;
            r_open = h.r_open;
            reaches = h.reaches;
            w_buffer = h.w_buffer;
            r_buffer = arrived.1;
            queued = refl;
            fit = h.fit.1;
          },
          refl,
        )
    where
      arrived :
          ((take_datagram s.r.frame (received (bytes m))).0 ≡ delivered m)
          × (length (take_datagram s.r.frame (received (bytes m))).1.buffer ≡ 528)
      arrived = take_datagram-delivered s.r.frame m h.fit.0 h.r_buffer

  pub empty_law : (s : State) → Holds s [] → receive s ≡ (failed no_data_available, s)
  unfolding receive read recvfrom take_datagram
  empty_law s h = rw (h.r_open, h.queued)

  abbrev pub link : ℕ → Link
  link capacity = record {
    State = State;
    Holds = Holds;
    counter = λ s. s.w.frame.last_id;
    capacity = capacity;
    send = send;
    receive = receive;
    send_law = send_law capacity;
    receive_law = receive_law;
    empty_law = empty_law;
  }

  -- DatagramSocket: in every state where an open writer and an open reader hold the messages `q`
  -- and datagrams to the writer's address come to the address of the reader, and while the system
  -- keeps no more datagrams than it has room for (`capacity`), loses none and no system call fails,
  -- every sequence of `write` and `read` is answered as by a queue: each `write` of an object that
  -- fits returns true, and each `read` returns the oldest message that was not read, whole and
  -- unchanged, or NO_DATA_AVAILABLE if there is none.
  pub run_datagram-spec_run :
      (capacity : ℕ) (s : State) (q : List Message) (ops : List Op)
      → Holds s q
      → Within capacity (length q) ops
      → run (link capacity) s ops ≡ spec_run s.w.frame.last_id q ops
  run_datagram-spec_run capacity = run-eq-spec_run (link capacity)
