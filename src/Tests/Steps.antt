-- ===== src/Tests/Steps.antt =====
-- Both processes on one memory, step by step, at concrete inputs.
use ipc_performance.Prelude.{◌≡◌, refl, ap, ◌∙◌, false, some, [], ◌∷◌, arith}
use ipc_performance.Communication.Frame.{pack}
use ipc_performance.Communication.Frame.Wire.{pack-Packed}
use ipc_performance.Handler.SharedMemory.{SharedMemory, write}
use ipc_performance.Handler.SharedMemory.Steps.{
  w_rest, packed, r_rest, Config, config, current, Run,
}
use ipc_performance.Handler.SharedMemory.Interleaving.{Explained, run_steps-Explained}
use ipc_performance.Handler.SharedMemory.Interleaving.Invariant.{Inv}
use ipc_performance.Handler.SharedMemory.Interleaving.Writing.{begin-Inv}
use ipc_performance.Handler.SharedMemory.Whole.{write-Run, Completed, blocked_write-Completed}
use ipc_performance.Tests.Data.{length-zeros, two, two-IsValid, length-two, fresh}
use ipc_performance.Tests.Handlers.{side, memory}

abbrev initial : Config
initial = config side side (memory 0 64) w_rest r_rest

initial-Inv : Inv initial []
initial-Inv = record {
  room = length-zeros 33792;
  w_buffer = length-zeros 528;
  r_buffer = length-zeros 528;
  r_offset = omega arith;
  w_offset = refl;
  readable = refl;
  writable = refl;
  held = tt;
  writing = tt;
  reading = tt;
}

two-packed : (pack fresh two 5).0 ≡ some 6
two-packed =
    (pack-Packed fresh two 5 (length-zeros 528) (omega (arith, length-two))).size
    ∙ ap some length-two

two_written :
    let (res, w, s) = write side (memory 0 64) two 5 false in
    Run initial (current w two 5 ∷ []) [] (config w side s w_rest r_rest)
two_written =
    (write-Run side side (memory 0 64) r_rest two 5 6 refl two-IsValid (omega arith) two-packed
      (omega arith)).1

run_steps-Explained_example :
    let (res, w, s) = write side (memory 0 64) two 5 false in
    Explained [] (current w two 5 ∷ []) [] (config w side s w_rest r_rest)
run_steps-Explained_example = run_steps-Explained [] initial-Inv two_written

abbrev began : SharedMemory
began = record side { frame = (pack fresh two 5).1 }

began-Inv : Inv (config began side (memory 0 64) (packed two 5 6) r_rest) []
began-Inv =
    begin-Inv side side (memory 0 64) r_rest two 5 6 [] two-IsValid (omega arith) two-packed
      initial-Inv

blocked_write-Completed_example :
    Completed (config began side (memory 0 64) (packed two 5 6) r_rest) (current began two 5)
blocked_write-Completed_example =
    blocked_write-Completed began side (memory 0 64) two 5 6 [] refl began-Inv
