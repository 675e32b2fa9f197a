-- ===== src/Tests/Buses.antt =====
-- DBus handlers at concrete inputs.
use ipc_performance.Prelude.{
  ℕ, ◌≡◌, Bool, true, false, ◌&&◌, Option, none, some, List, [], ◌∷◌, if◌then◌else◌,
}
use ipc_performance.Handler.Link.{Op, put, get}
use ipc_performance.Handler.Sequence.{sequence}
use ipc_performance.Handler.DBus.{DBus, uint32, Built, Seen, interface_name, method_name}
use ipc_performance.Handler.DBus.Call.{no_failure}
use ipc_performance.Handler.DBus.Lifecycle.{connections_after, messages_after}
use ipc_performance.Handler.DBus.Sequence as Calls
use ipc_performance.Handler.DBus.Sequence.{
  open_op, write_op, read_op, close_op, step, connections, finishes, run_bus-exact, step-messages,
}
use ipc_performance.Handler.DBus.Transfer as BusTransfer
use ipc_performance.Handler.Os.{codes}
use ipc_performance.Text.{same_text}
use ipc_performance.Tests.Data.{two, fresh}

abbrev bus : Bool → Option ℕ → DBus
bus server con = record { name = codes "ipc.x.server"; server = server; con = con; frame = fresh }

-- A bus that hands on what was built.
abbrev hand_on : Built → Seen
hand_on b = record {
  is_call = same_text b.interface interface_name && same_text b.method method_name;
  path = b.path;
  args = b.args;
}

abbrev empty : BusTransfer.State
empty = record { w = bus false (some 3); r = bus true (some 4); bus = []; incoming = [] }

-- One object is written; then two reads find it and nothing.
abbrev ops : List Op
ops = put two 5 ∷ get ∷ get ∷ []

-- The name has another owner; then the bus is opened, used and closed.
abbrev calls : List Calls.Op
calls =
    open_op (record { connected = some 5; primary_owner = false })
    ∷ open_op (record { connected = some 5; primary_owner = true })
    ∷ write_op two 5 no_failure
    ∷ read_op none
    ∷ close_op
    ∷ []

run_bus-exact_example :
    let (h, made) = sequence step (bus true none) calls in connections_after [] made ≡ connections h
run_bus-exact_example = run_bus-exact (bus true none) calls

-- A path that ends behind the prefix.
abbrev bad_path : Seen
bad_path = record { is_call = true; path = codes "/ipc/object/"; args = uint32 1 ∷ [] }

step-messages_example :
    messages_after 0 (step (bus true (some 3)) (read_op (some bad_path))).1
    ≡ some (if finishes (bus true (some 3)) (read_op (some bad_path)) then 0 else 1)
step-messages_example = step-messages (bus true (some 3)) (read_op (some bad_path))
