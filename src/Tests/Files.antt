-- ===== src/Tests/Files.antt =====
-- SharedFile at concrete inputs.
use ipc_performance.Prelude.{ℕ, ◌≡◌, refl, true, Option, some, List, [], ◌∷◌, arith}
use ipc_performance.Handler.Os.{codes}
use ipc_performance.Handler.Link.{Op, put, get, run, spec_run}
use ipc_performance.Handler.SharedFile.{SharedFile}
use ipc_performance.Handler.SharedFile.Transfer.{State, Linked, link, run_file-spec_run}
use ipc_performance.Tests.Data.{length-zeros, two, two-Sendable, fresh}

abbrev file : Option ℕ → Option ℕ → SharedFile
file fd sem = record {
  path = codes "/tmp/f";
  server = true;
  fd = fd;
  offset = 0;
  reader = sem;
  writer = sem;
  frame = fresh;
}

-- An empty file.
abbrev start : State
start = record {
  w = file (some 4) (some 5);
  r = file (some 4) (some 5);
  shared = record { content = []; readable = 0; writable = 64 };
}

start-Linked : Linked start []
start-Linked = record {
  w_open = refl;
  r_open = refl;
  w_buffer = length-zeros 528;
  r_buffer = length-zeros 528;
  r_offset = omega arith;
  w_offset = refl;
  readable = refl;
  writable = refl;
  held = tt;
}

abbrev ops : List Op
ops = put two 5 ∷ get ∷ get ∷ []

run_file-spec_run_example : run link start ops ≡ spec_run 0 [] ops
run_file-spec_run_example =
    run_file-spec_run start [] ops start-Linked (two-Sendable, omega arith, tt)
