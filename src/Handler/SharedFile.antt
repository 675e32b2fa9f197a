-- ===== src/Handler/SharedFile.antt =====
-- handler/shared_file.cpp: a file of 64 slots, with a semaphore that counts the slots to read and one
-- that counts the slots to write.
pub mod Lifecycle
pub mod Content
pub mod Transfer
use ipc_performance.Prelude.{
  ℕ, zero, suc, ◌+◌, ◌-◌, Bool, true, false, ◌&&◌, not, ◌==◌, ltb, if◌then◌else◌, Option, none,
  some, List, [], ◌∷◌, ◌++◌, take, drop, length,
}
use ipc_performance.Prelude.Bytes.{memcpy, window}
use ipc_performance.Communication.{
  DataObject, connection_closed, no_data_available, read_error, Outcome, failed,
}
use ipc_performance.Communication.Frame.{Frame, pack}
use ipc_performance.Handler.Os.{
  Call, has_fd, opens, closes, sem_opens, sem_closes, sem_unlinks, unlinks, sem_name,
}
use ipc_performance.Handler.Slots.{total_amount, slot_start, next_slot, take_apart}

-- `fd` is the descriptor that the stream `file_` has, if it is open. The semaphores' pointers are `none` for null and for SEM_FAILED;
-- `close` leaves them as they are.
pub record SharedFile : Type 0 where
  pub path : List ℕ
  pub server : Bool
  pub fd : Option ℕ
  pub offset : ℕ
  pub reader : Option ℕ
  pub writer : Option ℕ
  pub frame : Frame

-- What the system answers to `open`: the descriptor, if the stream opens, and the semaphores.
pub record Replies : Type 0 where
  pub stream : Option ℕ
  pub reader_sem : Option ℕ
  pub writer_sem : Option ℕ

abbrev pub is_open : SharedFile → Bool
is_open h = has_fd h.fd

-- The names of both semaphores are taken away.
abbrev unlink_sems : SharedFile → List Call
unlink_sems h = sem_unlinks (sem_name h.path "r") ∷ sem_unlinks (sem_name h.path "w") ∷ []

unfoldable pub close : SharedFile → Bool × SharedFile × List Call
close h = elim h.fd [
  | none ↦ (false, h, [])
  | some fd ↦ (
    true,
    record h { fd = none },
    closes fd
        ∷ sem_closes h.reader
        ∷ sem_closes h.writer
        ∷ (if h.server then unlinks h.path ∷ unlink_sems h else []),
  )
]

-- `close(); return false;`, after the calls that were made
abbrev fail_open : SharedFile → List Call → Bool × SharedFile × List Call
unfolding close
fail_open h made = let (_, h', calls) = close h in (false, h', made ++ calls)

-- `open` behind the stream.
open_semaphores : SharedFile → Replies → List Call → Bool × SharedFile × List Call
unfolding close
open_semaphores h r before =
    let made = before ++ (if h.server then unlink_sems h else []) in
    let h1 = record h { reader = r.reader_sem } in
    let h2 = record h1 { writer = r.writer_sem } in
    elim r.reader_sem [
      | none ↦ fail_open h1 made
      | some rs ↦
          let made1 = made ++ (sem_opens (sem_name h.path "r") 0 rs ∷ []) in
          elim r.writer_sem [
            | none ↦ fail_open h2 made1
            | some ws ↦ (true, h2, made1 ++ (sem_opens (sem_name h.path "w") total_amount ws ∷ []))
          ]
    ]

unfoldable pub open_handler : SharedFile → Replies → Bool × SharedFile × List Call
unfolding open_semaphores
open_handler h r = if is_open h then (true, h, []) else elim r.stream [
  | none ↦ (false, h, [])
  | some fd ↦ open_semaphores (record h { fd = some fd }) r (opens fd ∷ [])
]

-- What the two sides share: what the file contains, and the values of the semaphores.
pub record Shared : Type 0 where
  pub content : List ℕ
  pub readable : ℕ
  pub writable : ℕ

-- The first `n` bytes of a file, with zeros behind its end.
unfoldable pub padded : ℕ → List ℕ → List ℕ
padded zero content = []
padded (suc n) [] = 0 ∷ padded n []
padded (suc n) (b ∷ content) = b ∷ padded n content

-- A file in which bytes have been written at an offset: it grows where they reach behind its end.
unfoldable pub file_write : List ℕ → ℕ → List ℕ → List ℕ
file_write content offset bs = padded offset content ++ (bs ++ drop (offset + length bs) content)

-- How `write` ends; `blocked`: it waits in `sem_wait`, the packet ready in the buffer.
pub data Written : Type 0 where
  done : Bool → Written
  blocked : Written

-- What the system answers to `write`: whether `seekp` succeeds, whether `sem_wait` does, and, if the
-- stream's `write` fails, what the file contains then.
pub record Answers : Type 0 where
  pub sought : Bool
  pub waited : Bool
  pub broken : Option (List ℕ)

-- `write` behind `sem_wait`. `size` is the size of the body.
unfoldable pub finish_write : SharedFile → Shared → ℕ → Option (List ℕ) → Bool × SharedFile × Shared
finish_write h s size (some content) =
    (false, h, record s { content = content; writable = s.writable - 1 + 1 })
finish_write h s size none = (
  true,
  record h { offset = next_slot h.offset },
  record {
    content = file_write s.content (slot_start h.offset) (take (16 + size) h.frame.buffer);
    readable = s.readable + 1;
    writable = s.writable - 1;
  },
)

unfoldable pub write :
    SharedFile → Shared → DataObject → ℕ → Answers → Written × SharedFile × Shared
write h s o timestamp a =
    let (packed, frame) = pack h.frame o timestamp in
    let h1 = record h { frame = frame } in
    if not (is_open h) then (done false, h, s) else elim packed [
      | none ↦ (done false, h1, s)
      | some size ↦
          if not a.sought
          then (done false, h1, s)
          else if not a.waited
          then (done false, h1, s)
          else if s.writable == 0
          then (blocked, h1, s)
          else let (fine, h2, s2) = finish_write h1 s size a.broken in (done fine, h2, s2)
    ]

-- `read` behind the stream's `read`: the buffer begins with what the file has of the slot, and keeps
-- its own bytes where the file ends.
unfoldable pub fetch : SharedFile → Shared → SharedFile × Shared
fetch h s = (
  record h {
    offset = next_slot h.offset;
    frame = record h.frame {
      buffer = memcpy h.frame.buffer 0 (window s.content (slot_start h.offset) 528);
    };
  },
  record s { readable = s.readable - 1; writable = s.writable + 1 },
)

-- `broken`: `sem_trywait` fails otherwise than by EAGAIN. `sought` and `found`: `seekg` succeeds, and
-- the stream's `read` does not fail otherwise than at the end of the file.
unfoldable pub read : SharedFile → Shared → Bool → Bool → Bool → Outcome × SharedFile × Shared
read h s broken sought found =
    let (h1, s1) = fetch h s in
    let back = record s { readable = s.readable - 1 + 1 } in
    if not (is_open h)
    then (failed connection_closed, h, s)
    else if broken
    then (failed read_error, h, s)
    else if s.readable == 0
    then (failed no_data_available, h, s)
    else if not sought
    then (failed read_error, h, back)
    else if not found
    then (failed read_error, h, back)
    else (take_apart h1.frame.buffer, h1, s1)

-- `has_data`; `broken`: `sem_getvalue` fails.
unfoldable pub has_data : SharedFile → Shared → Bool → Bool
has_data h s broken = is_open h && not broken && ltb 0 s.readable

-- `await_data`: a `sem_timedwait` that succeeds if there is a slot to read, and a `sem_post` that gives
-- it back; `broken`: the clock or the wait fails.
unfoldable pub await_data : SharedFile → Shared → Bool → Bool × Shared
await_data h s broken =
    if not (is_open h)
    then (false, s)
    else if broken
    then (false, s)
    else if s.readable == 0
    then (false, s)
    else (true, record s { readable = s.readable - 1 + 1 })
