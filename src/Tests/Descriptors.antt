-- ===== src/Tests/Descriptors.antt =====
-- A handler from the command line at concrete inputs: its descriptors.
use ipc_performance.Prelude.{Bool, true, false, none, some, List, [], ◌∷◌}
use ipc_performance.Program.Descriptors.{Replies, Op, open_op, close_op}

abbrev replies : Bool → Replies
replies mapped = record {
  to_dbus = record { connected = some 3; primary_owner = true };
  to_fifo = record { made = true; opened = some 3 };
  to_queue = some 3;
  to_datagram = record { opened = some 3; parsed = none; bound = true };
  to_stream = record {
    opened = some 3;
    parsed = none;
    bound = true;
    listening = true;
    connected = true;
  };
  to_memory = record {
    opened = some 3;
    truncated = true;
    mapped = mapped;
    reader_sem = some 5;
    writer_sem = some 6;
  };
  to_file = record { stream = some 3; reader_sem = some 5; writer_sem = some 6 };
}

-- `mmap` fails at first; then the memory is opened and closed.
abbrev ops : List Op
ops = open_op (replies false) ∷ open_op (replies true) ∷ close_op ∷ []
