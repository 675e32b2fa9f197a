-- ===== src/Handler/SharedMemory/Queue.antt =====
-- handler/shared_memory.cpp: a writer and a reader, with calls that are not interleaved, fill the
-- interface of Link, with 64 slots.
use ipc_performance.Prelude.{ℕ, ◌<◌, ◌≡◌, refl, ap, Bool, true, false, List, [], ◌∷◌, ◌++◌, length}
use ipc_performance.Communication.{DataObject, Outcome, failed, no_data_available}
use ipc_performance.Communication.Frame.Wire.{next_id}
use ipc_performance.Handler.Message.{Message, delivered}
use ipc_performance.Handler.Link.{
  Sendable, numbered, Link, Op, run, spec_run, Within, run-eq-spec_run,
}
use ipc_performance.Handler.SharedMemory.{SharedMemory, Shared, Written, done, blocked, write, read}
use ipc_performance.Handler.SharedMemory.Transfer.{
  Linked, write_memory-Linked, read_memory-Linked, read_memory-empty,
}

pub record State : Type 0 where
  pub w : SharedMemory
  pub r : SharedMemory
  pub shared : Shared

-- Whether a call of `write` has returned true.
abbrev pub is_done : Written → Bool
is_done (done b) = b
is_done blocked = false

unfoldable pub send : State → DataObject → ℕ → Bool × State
send s o timestamp =
    let (res, w, shared) = write s.w s.shared o timestamp false in
    (is_done res, record s { w = w; shared = shared })

unfoldable pub receive : State → Outcome × State
receive s =
    let (outcome, r, shared) = read s.r s.shared false in
    (outcome, record s { r = r; shared = shared })

abbrev pub Holds : State → List Message → Type 0
Holds s q = Linked s.w s.r s.shared q

pub send_law :
    (s : State) (q : List Message) (o : DataObject) (timestamp : ℕ)
    → Holds s q
    → Sendable o timestamp
    → length q < 64
    → ((send s o timestamp).0 ≡ true)
      × Holds (send s o timestamp).1 (q ++ numbered s.w.frame.last_id o timestamp ∷ [])
      × ((send s o timestamp).1.w.frame.last_id ≡ next_id s.w.frame.last_id)
unfolding send
send_law s q o timestamp h d free =
    let (sent, linked, counted) =
      write_memory-Linked s.w s.r s.shared q o timestamp h d.object_valid d.size_fits
        d.timestamp_fits free in
    (ap is_done sent, linked, counted)

pub receive_law :
    (s : State) (m : Message) (q : List Message)
    → Holds s (m ∷ q)
    → ((receive s).0 ≡ delivered m)
      × Holds (receive s).1 q
      × ((receive s).1.w.frame.last_id ≡ s.w.frame.last_id)
unfolding receive
receive_law s m q h =
    let (arrived, linked) = read_memory-Linked s.w s.r s.shared q m h in (arrived, linked, refl)

pub empty_law : (s : State) → Holds s [] → receive s ≡ (failed no_data_available, s)
unfolding receive
empty_law s h = rw (read_memory-empty s.w s.r s.shared h)

abbrev pub link : Link
link = record {
  State = State;
  Holds = Holds;
  counter = λ s. s.w.frame.last_id;
  capacity = 64;
  send = send;
  receive = receive;
  send_law = send_law;
  receive_law = receive_law;
  empty_law = empty_law;
}

-- SharedMemory: in every state where an open writer and an open reader hold the messages `q`, and
-- while no more than 64 messages are under way, every sequence of whole, uninterrupted calls of
-- `write` and `read` is answered as by a queue: each `write` of an object that fits returns true,
-- and each `read` returns the oldest message that was not read, whole and unchanged, or
-- NO_DATA_AVAILABLE if there is none.
pub run_memory-spec_run :
    (s : State) (q : List Message) (ops : List Op)
    → Holds s q
    → Within 64 (length q) ops
    → run link s ops ≡ spec_run s.w.frame.last_id q ops
run_memory-spec_run = run-eq-spec_run link
