-- ===== src/Handler/SharedMemory/Steps.antt =====
-- handler/shared_memory.cpp, step by step: a process that writes and a process that reads run at the
-- same time on one memory. A step is one call on a semaphore, or a part of a `memcpy`.
use ipc_performance.Prelude.{ℕ, ◌+◌, ◌-◌, ◌≤◌, ◌<◌, ◌^◌, ◌≡◌, none, some, List, [], ◌∷◌, ◌++◌, true}
use ipc_performance.Prelude.Bytes.{memcpy, window}
use ipc_performance.Communication.{DataObject, IsValid, Outcome}
use ipc_performance.Communication.Frame.{pack}
use ipc_performance.Handler.Message.{Message}
use ipc_performance.Handler.Slots.{slot_start, next_slot, take_apart}
use ipc_performance.Handler.SharedMemory.{SharedMemory, Shared, is_open}

-- Where the writing process is: outside of `write`, before `sem_wait`, or behind it with `k` bytes of
-- the packet copied. The object and its time are those of the call, `n` is the size of the body.
pub data Writer : Type 0 where
  w_rest : Writer
  packed : DataObject → ℕ → ℕ → Writer
  copying : DataObject → ℕ → ℕ → ℕ → Writer

-- Where the reading process is: outside, between `sem_timedwait` and `sem_post` of `await_data`, or
-- behind `sem_trywait` of `read` with `k` bytes of the slot copied.
pub data Reader : Type 0 where
  r_rest : Reader
  awaiting : Reader
  fetching : ℕ → Reader

pub record Config : Type 0 where
  pub w : SharedMemory
  pub r : SharedMemory
  pub shared : Shared
  pub writer : Writer
  pub reader : Reader

abbrev pub config : SharedMemory → SharedMemory → Shared → Writer → Reader → Config
config w r s p q = record { w = w; r = r; shared = s; writer = p; reader = q }

pub data Label : Type 0 where
  silent : Label
  sent : Message → Label
  got : Outcome → Label

-- The message of a call of `write` that has packed its object.
abbrev pub current : SharedMemory → DataObject → ℕ → Message
current w o timestamp = record { id = w.frame.last_id; timestamp = timestamp; object = o }

-- The writing process: `begin` and `refuse` are the lines up to `sem_wait`, `interrupt` is a `sem_wait`
-- that returns -1. The reading process: `await` and `give_back` are `await_data`, `find_none` is a
-- `sem_trywait` without success.
pub data Step : Config → Label → Config → Type 0 where
  begin :
      (w r : SharedMemory) (s : Shared) (q : Reader) (o : DataObject) (timestamp n : ℕ)
      → is_open w ≡ true
      → IsValid o
      → timestamp < 2 ^ 64
      → (pack w.frame o timestamp).0 ≡ some n
      → Step
          (config w r s w_rest q)
          silent
          (config (record w { frame = (pack w.frame o timestamp).1 }) r s (packed o timestamp n) q)
  refuse :
      (w r : SharedMemory) (s : Shared) (q : Reader) (o : DataObject) (timestamp : ℕ)
      → is_open w ≡ true
      → (pack w.frame o timestamp).0 ≡ none
      → Step
          (config w r s w_rest q)
          silent
          (config (record w { frame = (pack w.frame o timestamp).1 }) r s w_rest q)
  interrupt :
      (w r : SharedMemory) (s : Shared) (q : Reader) (o : DataObject) (timestamp n : ℕ)
      → Step (config w r s (packed o timestamp n) q) silent (config w r s w_rest q)
  wait :
      (w r : SharedMemory) (s : Shared) (q : Reader) (o : DataObject) (timestamp n : ℕ)
      → 0 < s.writable
      → Step
          (config w r s (packed o timestamp n) q)
          silent
          (config w r (record s { writable = s.writable - 1 }) (copying o timestamp n 0) q)
  copy :
      (w r : SharedMemory) (s : Shared) (q : Reader) (o : DataObject) (timestamp n k j : ℕ)
      → k + j ≤ 16 + n
      → Step (config w r s (copying o timestamp n k) q) silent (
          config w r
            (record s {
              memory = memcpy s.memory (slot_start w.offset + k) (window w.frame.buffer k j);
            })
            (copying o timestamp n (k + j))
            q)
  post :
      (w r : SharedMemory) (s : Shared) (q : Reader) (o : DataObject) (timestamp n : ℕ)
      → Step (config w r s (copying o timestamp n (16 + n)) q) (sent (current w o timestamp)) (
          config
            (record w { offset = next_slot w.offset })
            r
            (record s { readable = s.readable + 1 })
            w_rest
            q)
  await :
      (w r : SharedMemory) (s : Shared) (p : Writer)
      → is_open r ≡ true
      → 0 < s.readable
      → Step
          (config w r s p r_rest)
          silent
          (config w r (record s { readable = s.readable - 1 }) p awaiting)
  give_back :
      (w r : SharedMemory) (s : Shared) (p : Writer)
      → Step
          (config w r s p awaiting)
          silent
          (config w r (record s { readable = s.readable + 1 }) p r_rest)
  find_none :
      (w r : SharedMemory) (s : Shared) (p : Writer)
      → is_open r ≡ true
      → s.readable ≡ 0
      → Step (config w r s p r_rest) silent (config w r s p r_rest)
  take_one :
      (w r : SharedMemory) (s : Shared) (p : Writer)
      → is_open r ≡ true
      → 0 < s.readable
      → Step
          (config w r s p r_rest)
          silent
          (config w r (record s { readable = s.readable - 1 }) p (fetching 0))
  fetch :
      (w r : SharedMemory) (s : Shared) (p : Writer) (k j : ℕ)
      → k + j ≤ 528
      → Step (config w r s p (fetching k)) silent (
          config w
            (record r {
              frame = record r.frame {
                buffer = memcpy r.frame.buffer k (window s.memory (slot_start r.offset + k) j);
              };
            })
            s
            p
            (fetching (k + j)))
  free :
      (w r : SharedMemory) (s : Shared) (p : Writer)
      → Step (config w r s p (fetching 528)) (got (take_apart r.frame.buffer)) (
          config w
            (record r { offset = next_slot r.offset })
            (record s { writable = s.writable + 1 })
            p
            r_rest)

abbrev pub sent_of : Label → List Message
sent_of silent = []
sent_of (sent m) = m ∷ []
sent_of (got outcome) = []

abbrev pub got_of : Label → List Outcome
got_of silent = []
got_of (sent m) = []
got_of (got outcome) = outcome ∷ []

-- Any number of steps, with the messages whose `write` has returned and what the calls of `read` have
-- returned, in order.
pub data Run (c : Config) : List Message → List Outcome → Config → Type 0 where
  here : Run c [] [] c
  next :
      {ms : List Message} {os : List Outcome} {d e : Config} (l : Label)
      → Run c ms os d
      → Step d l e
      → Run c (ms ++ sent_of l) (os ++ got_of l) e
