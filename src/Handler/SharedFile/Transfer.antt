-- ===== src/Handler/SharedFile/Transfer.antt =====
-- handler/shared_file.cpp: a writer and a reader of one file, with calls that are not interleaved, fill
-- the interface of Link, with 64 slots.
use ipc_performance.Prelude.{
  ℕ, ◌+◌, ◌%◌, ◌<◌, ◌≡◌, refl, ◌∙◌, Bool, true, false, none, List, [], ◌∷◌, ◌++◌, arith, length,
  length-append, ne→==, eq→==,
}
use ipc_performance.Prelude.Bytes.{memcpy, length-memcpy}
use ipc_performance.Communication.{DataObject, Outcome, failed, no_data_available}
use ipc_performance.Communication.Frame.{pack}
use ipc_performance.Communication.Frame.Wire.{next_id, Packed, pack-Packed}
use ipc_performance.Handler.Message.{Message, delivered}
use ipc_performance.Handler.Link.{
  Sendable, numbered, numbered-Fits, Link, Op, run, spec_run, Within, run-eq-spec_run,
}
use ipc_performance.Handler.Slots.{slot_at, Holds, take_apart-Carries}
use ipc_performance.Handler.SharedFile.{
  SharedFile, is_open, Shared, Written, done, blocked, Answers, write, finish_write, read, fetch,
}
use ipc_performance.Handler.SharedFile.Content.{Holds-file_put, Carries-file_read}

-- A writer, a reader and the file. `Linked`: both are open, and the file holds the messages `q`, oldest
-- first.
pub record State : Type 0 where
  pub w : SharedFile
  pub r : SharedFile
  pub shared : Shared

pub record Linked (s : State) (q : List Message) : Type 0 where
  pub w_open : is_open s.w ≡ true
  pub r_open : is_open s.r ≡ true
  pub w_buffer : length s.w.frame.buffer ≡ 528
  pub r_buffer : length s.r.frame.buffer ≡ 528
  pub r_offset : s.r.offset < 64
  pub w_offset : s.w.offset ≡ (s.r.offset + length q) % 64
  pub readable : s.shared.readable ≡ length q
  pub writable : s.shared.writable + length q ≡ 64
  pub held : Holds s.shared.content s.r.offset q

-- No call of the system fails.
abbrev pub fine : Answers
fine = record { sought = true; waited = true; broken = none }

abbrev pub is_done : Written → Bool
is_done (done b) = b
is_done blocked = false

unfoldable pub send : State → DataObject → ℕ → Bool × State
send s o timestamp =
    let (res, w, shared) = write s.w s.shared o timestamp fine in
    (is_done res, record s { w = w; shared = shared })

unfoldable pub receive : State → Outcome × State
receive s =
    let (outcome, r, shared) = read s.r s.shared false true true in
    (outcome, record s { r = r; shared = shared })

pub send_law :
    (s : State) (q : List Message) (o : DataObject) (timestamp : ℕ)
    → Linked s q
    → Sendable o timestamp
    → length q < 64
    → ((send s o timestamp).0 ≡ true)
      × Linked (send s o timestamp).1 (q ++ numbered s.w.frame.last_id o timestamp ∷ [])
      × ((send s o timestamp).1.w.frame.last_id ≡ next_id s.w.frame.last_id)
unfolding send write finish_write
send_law s q o timestamp l d free =
    rw (l.w_open, p.size, ne→== s.shared.writable 0 (omega (arith, l.writable)))
      (
        refl,
        record {
          w_open = l.w_open;
          r_open = l.r_open;
          w_buffer = p.room ∙ l.w_buffer;
          r_buffer = l.r_buffer;
          r_offset = l.r_offset;
          w_offset = omega (arith, l.w_offset, one_more);
          readable = omega (arith, l.readable, one_more);
          writable = omega (arith, l.writable, one_more);
          held = rw p.bytes (
              Holds-file_put s.shared.content s.r.offset s.w.offset q m l.r_offset l.w_offset free
                (numbered-Fits s.w.frame.last_id o timestamp d) l.held);
        },
        p.counted,
      )
  where
    m : Message
    m = numbered s.w.frame.last_id o timestamp

    p : Packed s.w.frame o timestamp (pack s.w.frame o timestamp)
    p = pack-Packed s.w.frame o timestamp l.w_buffer d.size_fits

    one_more : length (q ++ m ∷ []) ≡ length q + 1
    one_more = length-append q (m ∷ [])

pub receive_law :
    (s : State) (m : Message) (q : List Message)
    → Linked s (m ∷ q)
    → ((receive s).0 ≡ delivered m)
      × Linked (receive s).1 q
      × ((receive s).1.w.frame.last_id ≡ s.w.frame.last_id)
unfolding receive read fetch
receive_law s m q l =
    rw (l.r_open, ne→== s.shared.readable 0 (omega (arith, l.readable)))
      (
        take_apart-Carries (memcpy s.r.frame.buffer 0 slot) m
            (Carries-file_read s.r.frame.buffer s.shared.content s.r.offset m l.r_buffer l.held.0),
        record {
          w_open = l.w_open;
          r_open = l.r_open;
          w_buffer = l.w_buffer;
          r_buffer = length-memcpy s.r.frame.buffer 0 slot ∙ l.r_buffer;
          r_offset = omega arith;
          w_offset = omega (arith, l.w_offset, l.r_offset);
          readable = omega (arith, l.readable);
          writable = omega (arith, l.writable);
          held = l.held.1;
        },
        refl,
      )
  where
    slot : List ℕ
    slot = slot_at s.shared.content s.r.offset

pub empty_law : (s : State) → Linked s [] → receive s ≡ (failed no_data_available, s)
unfolding receive read
empty_law s l = rw (l.r_open, eq→== s.shared.readable 0 l.readable)

abbrev pub link : Link
link = record {
  State = State;
  Holds = Linked;
  counter = λ s. s.w.frame.last_id;
  capacity = 64;
  send = send;
  receive = receive;
  send_law = send_law;
  receive_law = receive_law;
  empty_law = empty_law;
}

-- SharedFile: in every state where an open writer and an open reader hold the messages `q`,
-- whatever else the file contains and wherever it ends, and while no more than 64 messages are
-- under way, every sequence of whole calls of `write` and `read` in which no call of the system
-- fails is answered as by a queue: each `write` of an object that fits returns true, and each
-- `read` returns the oldest message that was not read, whole and unchanged, or NO_DATA_AVAILABLE
-- if there is none.
pub run_file-spec_run :
    (s : State) (q : List Message) (ops : List Op)
    → Linked s q
    → Within 64 (length q) ops
    → run link s ops ≡ spec_run s.w.frame.last_id q ops
run_file-spec_run = run-eq-spec_run link
