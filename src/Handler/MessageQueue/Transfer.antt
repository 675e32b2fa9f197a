-- ===== src/Handler/MessageQueue/Transfer.antt =====
-- handler/message_queue.cpp: a pair of handlers is a queue.
use ipc_performance.Prelude.{
  ℕ, ◌<◌, ◌≡◌, refl, ◌∙◌, Bool, true, false, Option, none, some, List, [], ◌∷◌, ◌++◌, map, length,
  map-append,
}
use ipc_performance.Communication.{DataObject, Outcome, failed, no_data_available}
use ipc_performance.Communication.Frame.{pack}
use ipc_performance.Communication.Frame.Wire.{next_id, Packed, pack-Packed}
use ipc_performance.Handler.Os.{received}
use ipc_performance.Handler.Message.{Message, bytes, delivered, AllFit, AllFit-append}
use ipc_performance.Handler.Datagrams.{take_datagram, take_datagram-delivered}
use ipc_performance.Handler.Link.{
  Sendable, numbered, numbered-Fits, Link, Op, run, spec_run, Within, run-eq-spec_run,
}
use ipc_performance.Handler.MessageQueue.{MessageQueue, is_open, write, read, mq_receive}

-- A writer, a reader, and the messages that the system keeps between them.
pub record State : Type 0 where
  pub w : MessageQueue
  pub r : MessageQueue
  pub queue : List (List ℕ)

-- Both are open, and the messages `q` are kept.
pub record Holds (s : State) (q : List Message) : Type 0 where
  pub w_open : is_open s.w ≡ true
  pub r_open : is_open s.r ≡ true
  pub w_buffer : length s.w.frame.buffer ≡ 528
  pub r_buffer : length s.r.frame.buffer ≡ 528
  pub queued : s.queue ≡ map bytes q
  pub fit : AllFit q

abbrev pub enqueue : List (List ℕ) → Option (List ℕ) → List (List ℕ)
enqueue queue none = queue
enqueue queue (some bs) = queue ++ bs ∷ []

unfoldable pub send : State → DataObject → ℕ → Bool × State
send s o timestamp =
    let (fine, w, sent) = write s.w o timestamp true in
    (fine, record s { w = w; queue = enqueue s.queue sent })

unfoldable pub receive : State → Outcome × State
receive s =
    let (outcome, r, queue) = read s.r s.queue false in (outcome, record s { r = r; queue = queue })

pub send_law :
    (s : State) (q : List Message) (o : DataObject) (timestamp : ℕ)
    → Holds s q
    → Sendable o timestamp
    → length q < 10
    → ((send s o timestamp).0 ≡ true)
      × Holds (send s o timestamp).1 (q ++ numbered s.w.frame.last_id o timestamp ∷ [])
      × ((send s o timestamp).1.w.frame.last_id ≡ next_id s.w.frame.last_id)
unfolding send write
send_law s q o timestamp h d free =
    rw (h.w_open, p.size)
      (
        refl,
        record {
          w_open = h.w_open;
          r_open = h.r_open;
          w_buffer = p.room ∙ h.w_buffer;
          r_buffer = h.r_buffer;
          queued = rw (p.bytes, h.queued, map-append bytes q);
          fit = AllFit-append q m h.fit (numbered-Fits s.w.frame.last_id o timestamp d);
        },
        p.counted,
      )
  where
    m : Message
    m = numbered s.w.frame.last_id o timestamp

    p : Packed s.w.frame o timestamp (pack s.w.frame o timestamp)
    p = pack-Packed s.w.frame o timestamp h.w_buffer d.size_fits

pub receive_law :
    (s : State) (m : Message) (q : List Message)
    → Holds s (m ∷ q)
    → ((receive s).0 ≡ delivered m)
      × Holds (receive s).1 q
      × ((receive s).1.w.frame.last_id ≡ s.w.frame.last_id)
unfolding receive read mq_receive
receive_law s m q h =
    rw (h.r_open, h.queued)
      (
        arrived.0,
        record {
          w_open = h.w_open;
          r_open = h.r_open;
          w_buffer = h.w_buffer;
          r_buffer = arrived.1;
          queued = refl;
          fit = h.fit.1;
        },
        refl,
      )
  where
    arrived :
        ((take_datagram s.r.frame (received (bytes m))).0 ≡ delivered m)
        × (length (take_datagram s.r.frame (received (bytes m))).1.buffer ≡ 528)
    arrived = take_datagram-delivered s.r.frame m h.fit.0 h.r_buffer

pub empty_law : (s : State) → Holds s [] → receive s ≡ (failed no_data_available, s)
unfolding receive read mq_receive take_datagram
empty_law s h = rw (h.r_open, h.queued)

abbrev pub link : Link
link = record {
  State = State;
  Holds = Holds;
  counter = λ s. s.w.frame.last_id;
  capacity = 10;
  send = send;
  receive = receive;
  send_law = send_law;
  receive_law = receive_law;
  empty_law = empty_law;
}

-- MessageQueue: in every state where an open writer and an open reader hold the messages `q`, and
-- while the system keeps at most QUEUE_SIZE messages and no system call fails, every sequence of
-- `write` and `read` is answered as by a queue: each `write` of an object that fits returns true,
-- and each `read` returns the oldest message that was not read, whole and unchanged, or
-- NO_DATA_AVAILABLE if there is none.
pub run_mq-spec_run :
    (s : State) (q : List Message) (ops : List Op)
    → Holds s q
    → Within 10 (length q) ops
    → run link s ops ≡ spec_run s.w.frame.last_id q ops
run_mq-spec_run = run-eq-spec_run link
