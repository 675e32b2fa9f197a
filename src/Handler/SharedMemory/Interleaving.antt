-- ===== src/Handler/SharedMemory/Interleaving.antt =====
-- handler/shared_memory.cpp: in whatever order the steps of both processes come, what is read is what
-- was written.
pub mod Invariant
pub mod Writing
pub mod Reading
pub mod Moves
use ipc_performance.Prelude.{
  ℕ, ◌≡◌, refl, ap, ◌∙◌, sym, List, [], ◌∷◌, ◌++◌, map, append_assoc, append-nil, map-append,
}
use ipc_performance.Communication.{Outcome}
use ipc_performance.Handler.Message.{Message, delivered}
use ipc_performance.Handler.SharedMemory.Steps.{
  Config, Label, Step, sent_of, got_of, Run, here, next,
}
use Invariant.{Inv}
use Moves.{After, step-After}

-- Of the messages that were there or have been written since, the first have been read, and the others
-- are there.
pub record Explained (q : List Message) (ms : List Message) (os : List Outcome) (d : Config)
    : Type 0 where
  pub taken : List Message
  pub rest : List Message
  pub inv : Inv d rest
  pub conserved : q ++ ms ≡ taken ++ rest
  pub read : os ≡ map delivered taken

-- SharedMemory: let a writing and a reading process take any number of steps in any order, each
-- step a call on a semaphore or a part of a `memcpy`, from a state in which the invariant holds
-- with the messages `q` in the memory. Then the invariant holds again, and the calls of `read`
-- that have returned have returned, whole and in order, the first of `q` and of the messages
-- whose `write` has returned since; the others are in the memory.
pub run_steps-Explained :
    {c d : Config} {ms : List Message} {os : List Outcome} (q : List Message)
    → Inv c q
    → Run c ms os d
    → Explained q ms os d
run_steps-Explained q i here = record {
  taken = [];
  rest = q;
  inv = i;
  conserved = append-nil q;
  read = refl;
}
run_steps-Explained q i (next {ms} {os} l run step) =
    let x = run_steps-Explained q i run in
    let a = step-After x.rest x.inv step in
    record {
      taken = x.taken ++ a.taken;
      rest = a.rest;
      inv = a.inv;
      conserved =
          sym (append_assoc q ms (sent_of l))
          ∙ ap (λ m. m ++ sent_of l) x.conserved
          ∙ append_assoc x.taken x.rest (sent_of l)
          ∙ ap (λ m. x.taken ++ m) a.conserved
          ∙ sym (append_assoc x.taken a.taken a.rest);
      read = rw (x.read, a.read, map-append delivered x.taken);
    }
