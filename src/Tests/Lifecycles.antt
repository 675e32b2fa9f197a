-- ===== src/Tests/Lifecycles.antt =====
-- Opening and closing at concrete inputs.
use ipc_performance.Prelude.{ℕ, ◌≡◌, refl, Bool, true, false, Option, none, some, [], ◌++◌}
use ipc_performance.Handler.Os.{codes, sems_after, has_fd}
use ipc_performance.Handler.SharedMemory
use ipc_performance.Handler.SharedMemory.{SharedMemory}
use ipc_performance.Handler.SharedMemory.Lifecycle.{reopen_closes_twice}
use ipc_performance.Tests.Data.{fresh}

abbrev memory : Bool → Option ℕ → Option ℕ → SharedMemory
memory server fd sem = record {
  name = codes "/m";
  server = server;
  file = false;
  fd = fd;
  offset = 0;
  address = has_fd fd;
  reader = sem;
  writer = sem;
  frame = fresh;
}

abbrev memory_replies : Bool → SharedMemory.Replies
memory_replies mapped = record {
  opened = some 3;
  truncated = true;
  mapped = mapped;
  reader_sem = some 5;
  writer_sem = some 6;
}

opens_memory : (SharedMemory.open_handler (memory true none none) (memory_replies true)).0 ≡ true
unfolding SharedMemory.open_handler
opens_memory = refl

reopen_closes_twice_example :
    let (_, h1, opening) =
      SharedMemory.open_handler (memory true none none) (memory_replies true) in
    let (_, h2, closing) = SharedMemory.close h1 in
    let (_, h3, reopening) = SharedMemory.open_handler h2 (memory_replies false) in
    (sems_after [] (opening ++ closing) ≡ some [])
    × (sems_after [] (opening ++ (closing ++ reopening)) ≡ none)
reopen_closes_twice_example =
    reopen_closes_twice (memory true none none) (memory_replies true) (memory_replies false) 3 refl
      refl refl opens_memory refl refl
