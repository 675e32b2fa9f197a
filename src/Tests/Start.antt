-- ===== src/Tests/Start.antt =====
-- A pair of handlers from the command line at concrete inputs.
use mathlib.Core.Option
use ipc_performance.Prelude.{◌≡◌, refl, true, false, none, some, List, [], ◌∷◌, arith}
use ipc_performance.Handler.Os.{codes}
use ipc_performance.Handler.Link.{Op, put, get, run, spec_run}
use ipc_performance.Handler.SharedMemory.{Replies, open_handler}
use ipc_performance.Handler.SharedMemory.Queue.{link}
use ipc_performance.Program.{file, new_memory, new_file, create_handler}
use ipc_performance.Program.Start.{started, run_started-spec_run}
use ipc_performance.Tests.Data.{zeros, length-zeros, two, two-Sendable}

abbrev replies : Replies
replies = record {
  opened = some 3;
  truncated = true;
  mapped = true;
  reader_sem = some 5;
  writer_sem = some 6;
}

abbrev ops : List Op
ops = put two 5 ∷ get ∷ get ∷ []

opens_writer : (open_handler (new_memory (codes "m") false false) replies).0 ≡ true
unfolding open_handler
opens_writer = refl

opens_reader : (open_handler (new_memory (codes "m") true false) replies).0 ≡ true
unfolding open_handler
opens_reader = refl

-- There were semaphores of the same names before.
run_started-spec_run_example :
    Option.map
      (λ s. run link s ops)
      (started (codes "m") false replies replies (λ name. some 9) (zeros 33792))
    ≡ some (spec_run 0 [] ops)
run_started-spec_run_example =
    run_started-spec_run (codes "m") false replies replies (λ name. some 9) (zeros 33792) ops
      (λ e. ground arith) (λ e. ground arith) opens_writer opens_reader (length-zeros 33792)
      (two-Sendable, omega arith, tt)

file_of_type :
    create_handler (codes "file") (codes "m") true ≡ some (file (new_file (codes "/tmp/m") true))
unfolding create_handler
file_of_type = refl

no_handler : create_handler (codes "pipe") (codes "m") true ≡ none
unfolding create_handler
no_handler = refl
