-- ===== src/Handler/SharedMemory/Whole.antt =====
-- handler/shared_memory.cpp: the steps of Steps, in a row, are the function `write`, and a `write` that waits can
-- always be completed.
use ipc_performance.Prelude.{
  ℕ, ◌+◌, ◌≤◌, ◌<◌, ◌^◌, ◌≡◌, refl, true, false, some, List, [], ◌∷◌, ◌++◌, arith, take, ne→==,
  length, append-nil, dec_lt,
}
use mathlib.Core.Path.{subst}
use ipc_performance.Handler.SharedMemory.Interleaving.Invariant.{Inv}
use ipc_performance.Prelude.Bytes.{memcpy, window}
use ipc_performance.Communication.{DataObject, IsValid, Outcome}
use ipc_performance.Communication.Frame.{pack}
use ipc_performance.Handler.Message.{Message}
use ipc_performance.Handler.Slots.{slot_start}
use ipc_performance.Handler.SharedMemory.{SharedMemory, Shared, is_open, done, write, finish_write}
use ipc_performance.Handler.SharedMemory.Steps.{
  Writer, w_rest, packed, copying, Reader, r_rest, fetching, Config, config, silent, sent, got,
  Step, begin, wait, copy, post, take_one, free, current, Run, here, next,
}

copy_all :
    (w r : SharedMemory) (s : Shared) (q : Reader) (o : DataObject) (timestamp n : ℕ)
    → Step (config w r s (copying o timestamp n 0) q) silent (
        config w r
          (record s {
            memory = memcpy s.memory (slot_start w.offset) (take (16 + n) w.frame.buffer);
          })
          (copying o timestamp n (16 + n))
          q)
copy_all w r s q o timestamp n =
    subst
      (λ x. Step (config w r s (copying o timestamp n 0) q) silent (
        config w r (record s { memory = memcpy s.memory x (take (16 + n) w.frame.buffer) })
          (copying o timestamp n (16 + n)) q))
      start
      (subst
        (λ y. Step (config w r s (copying o timestamp n 0) q) silent (
          config w r
            (record s {
              memory = memcpy s.memory (slot_start w.offset + 0) (take (16 + n) w.frame.buffer);
            })
            (copying o timestamp n y) q))
        all (copy w r s q o timestamp n 0 (16 + n) (omega arith)))
  where
    start : slot_start w.offset + 0 ≡ slot_start w.offset
    start = omega arith

    all : 0 + (16 + n) ≡ 16 + n
    all = omega arith

fetch_all :
    (w r : SharedMemory) (s : Shared) (p : Writer)
    → Step (config w r s p (fetching 0)) silent (
        config w
          (record r {
            frame = record r.frame {
              buffer = memcpy r.frame.buffer 0 (window s.memory (slot_start r.offset) 528);
            };
          })
          s
          p
          (fetching 528))
fetch_all w r s p =
    subst
      (λ x. Step (config w r s p (fetching 0)) silent (
        config w
          (record r {
            frame = record r.frame { buffer = memcpy r.frame.buffer 0 (window s.memory x 528) };
          })
          s p (fetching 528)))
      start (Step.fetch w r s p 0 528 (omega arith))
  where
    start : slot_start r.offset + 0 ≡ slot_start r.offset
    start = omega arith

-- SharedMemory: a call of `write` on an open handler that packs a valid object while there is a
-- slot to write returns true, and is a run of the steps in which its message is sent and nothing
-- is read.
pub write-Run :
    (w r : SharedMemory) (s : Shared) (q : Reader) (o : DataObject) (timestamp n : ℕ)
    → is_open w ≡ true
    → IsValid o
    → timestamp < 2 ^ 64
    → (pack w.frame o timestamp).0 ≡ some n
    → 0 < s.writable
    → let (res, w', s') = write w s o timestamp false in
      (res ≡ done true)
      × Run (config w r s w_rest q) (current w' o timestamp ∷ []) [] (config w' r s' w_rest q)
unfolding write finish_write
write-Run w r s q o timestamp n opened v t e room =
    rw (opened, e, ne→== s.writable 0 (omega arith))
      (
        refl,
        next (sent _)
            (next silent
              (next silent (next silent here (begin w r s q o timestamp n opened v t e))
                (wait _ r s q o timestamp n room))
              (copy_all _ r _ q o timestamp n))
            (post _ r _ q o timestamp n),
      )

-- A call of `write` returns, with at most one message read meanwhile.
pub record Completed (c : Config) (m : Message) : Type 0 where
  pub os : List Outcome
  pub d : Config
  pub run : Run c (m ∷ []) os d
  pub returned : d.writer ≡ w_rest
  pub few : length os ≤ 1

complete :
    (c : Config) (os : List Outcome) (w r : SharedMemory) (s : Shared) (q : Reader) (o : DataObject)
    (timestamp n : ℕ)
    → length os ≤ 1
    → 0 < s.writable
    → Run c [] os (config w r s (packed o timestamp n) q)
    → Completed c (current w o timestamp)
complete c os w r s q o timestamp n few room run = record {
  os = ((os ++ []) ++ []) ++ [];
  d = _;
  run =
      next (sent _)
        (next silent (next silent run (wait w r s q o timestamp n room))
          (copy_all w r _ q o timestamp n))
        (post w r _ q o timestamp n);
  returned = refl;
  few = rw (append-nil os, append-nil os, append-nil os) few;
}

-- SharedMemory: from every state in which the invariant holds, the writing process is before
-- `sem_wait` in `write` and the reading process is outside of its calls and open, there is a run
-- in which the `write` returns with its message sent and at most one message is read: a full
-- memory is no deadlock.
pub blocked_write-Completed :
    (w r : SharedMemory) (s : Shared) (o : DataObject) (timestamp n : ℕ) (q : List Message)
    → is_open r ≡ true
    → Inv (config w r s (packed o timestamp n) r_rest) q
    → Completed (config w r s (packed o timestamp n) r_rest) (current w o timestamp)
blocked_write-Completed w r s o timestamp n q opened i = elim (dec_lt 0 s.writable) [
  | yes room ↦ complete _ [] w r s r_rest o timestamp n (omega arith) room here
  | no full ↦ complete _ _ w _ _ r_rest o timestamp n (omega arith) (omega arith) (
      next (got _)
        (next silent
          (next silent here
            (take_one w r s (packed o timestamp n) opened (omega (arith, i.readable, i.writable))))
          (fetch_all w r _ (packed o timestamp n)))
        (free w _ _ (packed o timestamp n)))
]
