-- ===== src/Handler/SharedMemory.antt =====
-- handler/shared_memory.cpp: a POSIX shared memory or a mapped file of 64 slots, with a semaphore that
-- counts the slots to read and one that counts the slots to write.
pub mod Lifecycle
pub mod Transfer
pub mod Queue
pub mod Steps
pub mod Interleaving
pub mod Whole
use ipc_performance.Prelude.{
  ℕ, ◌+◌, ◌-◌, ◌*◌, ◌%◌, Bool, true, false, ◌&&◌, not, ◌==◌, ltb, leb, if◌then◌else◌, Option, none,
  some, List, [], ◌∷◌, ◌++◌, take, drop,
}
use ipc_performance.Prelude.Bytes.{memcpy, window}
use ipc_performance.Object.DataHeader.{DataHeader}
use ipc_performance.Communication.{
  DataObject, CommunicationError, connection_closed, no_data_available, read_error, Outcome, failed,
  aborted,
}
use ipc_performance.Communication.Frame.{Frame, pack, read_header, read_body}
use ipc_performance.Handler.Os.{
  Call, opens, closes, maps, unmaps, sem_opens, sem_closes, sem_unlinks, unlinks, sem_name, has_fd,
}
use ipc_performance.Handler.Slots.{total_amount, slot_start, next_slot, take_apart}

-- `fd` is `none` for -1; `address` says whether `address_` is a mapping or null. The semaphores'
-- pointers are `none` for null; `close` leaves them as they are.
pub record SharedMemory : Type 0 where
  pub name : List ℕ
  pub server : Bool
  pub file : Bool
  pub fd : Option ℕ
  pub offset : ℕ
  pub address : Bool
  pub reader : Option ℕ
  pub writer : Option ℕ
  pub frame : Frame

-- What the system answers to `open`: the descriptor, ftruncate, mmap and the semaphores.
pub record Replies : Type 0 where
  pub opened : Option ℕ
  pub truncated : Bool
  pub mapped : Bool
  pub reader_sem : Option ℕ
  pub writer_sem : Option ℕ

abbrev pub is_open : SharedMemory → Bool
is_open h = has_fd h.fd

-- The calls of `close` behind the two `sem_close`.
abbrev close_names : SharedMemory → List Call
close_names h =
    if h.server
    then unlinks h.name ∷ sem_unlinks (sem_name h.name "r") ∷ sem_unlinks (sem_name h.name "w") ∷ []
    else []

unfoldable pub close : SharedMemory → Bool × SharedMemory × List Call
close h = elim h.fd [
  | none ↦ (false, h, [])
  | some fd ↦ (
    true,
    record h { fd = none; address = false },
    unmaps h.address ∷ closes fd ∷ sem_closes h.reader ∷ sem_closes h.writer ∷ close_names h,
  )
]

-- `close(); return false;`, after the calls that were made
abbrev fail_open : SharedMemory → List Call → Bool × SharedMemory × List Call
unfolding close
fail_open h made = let (_, h', calls) = close h in (false, h', made ++ calls)

-- `open` from the first `sem_open` on.
open_semaphores : SharedMemory → Replies → List Call → Bool × SharedMemory × List Call
unfolding close
open_semaphores h r made =
    let h1 = record h { reader = r.reader_sem } in
    let h2 = record h1 { writer = r.writer_sem } in
    elim r.reader_sem [
      | none ↦ fail_open h1 made
      | some rs ↦
          let made1 = made ++ (sem_opens (sem_name h.name "r") 0 rs ∷ []) in
          elim r.writer_sem [
            | none ↦ fail_open h2 made1
            | some ws ↦ (true, h2, made1 ++ (sem_opens (sem_name h.name "w") total_amount ws ∷ []))
          ]
    ]

-- `open` from `ftruncate` on, which only the server calls.
open_memory : SharedMemory → Replies → List Call → Bool × SharedMemory × List Call
unfolding open_semaphores close
open_memory h r made =
    let names =
      if h.server
      then sem_unlinks (sem_name h.name "r") ∷ sem_unlinks (sem_name h.name "w") ∷ []
      else [] in
    if h.server && not r.truncated
    then fail_open h made
    else if r.mapped
    then open_semaphores (record h { address = true }) r (made ++ (maps ∷ names))
    else fail_open h made

unfoldable pub open_handler : SharedMemory → Replies → Bool × SharedMemory × List Call
unfolding open_memory
open_handler h r =
    let made = if h.server then unlinks h.name ∷ [] else [] in
    if is_open h then (true, h, []) else elim r.opened [
      | none ↦ (false, h, made)
      | some fd ↦ open_memory (record h { fd = some fd }) r (made ++ (opens fd ∷ []))
    ]

-- What the two sides share: the memory and the values of the semaphores.
pub record Shared : Type 0 where
  pub memory : List ℕ
  pub readable : ℕ
  pub writable : ℕ

-- How `write` ends; `blocked`: it waits in `sem_wait`, the packet ready in the buffer.
pub data Written : Type 0 where
  done : Bool → Written
  blocked : Written

-- The lines of `write` behind `sem_wait`: one slot less to write, the packet copied, the next slot, one
-- slot more to read. `size` is the size of the body.
unfoldable pub finish_write : SharedMemory → Shared → ℕ → SharedMemory × Shared
finish_write h s size = (
  record h { offset = next_slot h.offset },
  record {
    memory = memcpy s.memory (slot_start h.offset) (take (16 + size) h.frame.buffer);
    readable = s.readable + 1;
    writable = s.writable - 1;
  },
)

-- `interrupted`: `sem_wait` returns -1.
unfoldable pub write :
    SharedMemory → Shared → DataObject → ℕ → Bool → Written × SharedMemory × Shared
write h s o timestamp interrupted =
    let (packed, frame) = pack h.frame o timestamp in
    let h1 = record h { frame = frame } in
    if not (is_open h) then (done false, h, s) else elim packed [
      | none ↦ (done false, h1, s)
      | some size ↦
          if interrupted
          then (done false, h1, s)
          else if s.writable == 0
          then (blocked, h1, s)
          else let (h2, s2) = finish_write h1 s size in (done true, h2, s2)
    ]

-- The lines of `read` behind `sem_trywait`: one slot less to read, the slot copied to the buffer, the
-- next slot, one slot more to write.
unfoldable pub fetch : SharedMemory → Shared → SharedMemory × Shared
fetch h s = (
  record h {
    offset = next_slot h.offset;
    frame = record h.frame {
      buffer = memcpy h.frame.buffer 0 (window s.memory (slot_start h.offset) 528);
    };
  },
  record s { readable = s.readable - 1; writable = s.writable + 1 },
)

-- `broken`: `sem_trywait` fails otherwise than by EAGAIN.
unfoldable pub read : SharedMemory → Shared → Bool → Outcome × SharedMemory × Shared
read h s broken =
    let (h1, s1) = fetch h s in
    if not (is_open h)
    then (failed connection_closed, h, s)
    else if broken
    then (failed read_error, h, s)
    else if s.readable == 0
    then (failed no_data_available, h, s)
    else (take_apart h1.frame.buffer, h1, s1)

-- `has_data`; `broken`: `sem_getvalue` fails.
unfoldable pub has_data : SharedMemory → Shared → Bool → Bool
has_data h s broken = is_open h && not broken && ltb 0 s.readable

-- `await_data`: a `sem_timedwait` that succeeds if there is a slot to read, and a `sem_post` that gives
-- it back; `broken`: the clock or the wait fails.
unfoldable pub await_data : SharedMemory → Shared → Bool → Bool × Shared
await_data h s broken =
    if not (is_open h)
    then (false, s)
    else if broken
    then (false, s)
    else if s.readable == 0
    then (false, s)
    else (true, record s { readable = s.readable - 1 + 1 })
