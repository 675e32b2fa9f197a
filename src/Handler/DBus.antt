-- ===== src/Handler/DBus.antt =====
-- handler/dbus.cpp: method calls on the session bus. What the functions of libdbus answer is an argument;
-- the calls that are made are returned.
pub mod Lifecycle
pub mod Call
pub mod Sequence
pub mod Transfer
use ipc_performance.Prelude.{
  ℕ, suc, ◌+◌, ◌-◌, ◌^◌, ◌%◌, Bool, true, false, ◌&&◌, not, ◌==◌, ltb, if◌then◌else◌, Option, none,
  some, List, [], ◌∷◌, ◌++◌, take, drop, length, to_u16, to_u32, minus_one,
}
use ipc_performance.Text.{to_text, stoull}
use ipc_performance.Object.DataType.{DataType, type_code, type_of}
use ipc_performance.Object.DataHeader.{DataHeader}
use ipc_performance.Communication.{
  DataObject, get_type, serialize, deserialize_data_object, buffer_size, connection_closed,
  no_data_available, invalid_data, Outcome, failed, aborted, overrun, with_header,
}
use ipc_performance.Communication.Frame.{Frame}
use ipc_performance.Handler.Os.{codes}

-- PATH_PREFIX, INTERFACE_NAME and METHOD_NAME
abbrev pub path_prefix : List ℕ
path_prefix = codes "/ipc/object/"

abbrev pub interface_name : List ℕ
interface_name = codes "ipc.object.type"

abbrev pub method_name : List ℕ
method_name = codes "read"

-- `con` is the connection, or `none` for the null pointer.
pub record DBus : Type 0 where
  pub name : List ℕ
  pub server : Bool
  pub con : Option ℕ
  pub frame : Frame

-- An argument of a message: the types that the program uses, and all others.
pub data Arg : Type 0 where
  uint32 : ℕ → Arg
  int64 : ℕ → Arg
  byte_array : List ℕ → Arg
  other_arg : Arg

-- A message as the writer builds it.
pub record Built : Type 0 where
  pub destination : List ℕ
  pub path : List ℕ
  pub interface : List ℕ
  pub method : List ℕ
  pub args : List Arg

-- A message as the reader sees it: what `dbus_message_is_method_call` answers for the interface and the
-- method, its path, and its arguments.
pub record Seen : Type 0 where
  pub is_call : Bool
  pub path : List ℕ
  pub args : List Arg

-- The calls that take or give back a connection or a message, and those that reach the bus.
pub data BusCall : Type 0 where
  gets : ℕ → BusCall  -- dbus_bus_get: a connection
  requests_name : List ℕ → BusCall
  releases_name : List ℕ → BusCall
  flushes : BusCall
  drops : ℕ → BusCall  -- dbus_connection_unref
  takes_message : BusCall  -- dbus_message_new_method_call, dbus_connection_pop_message
  sends : Built → BusCall
  drops_message : BusCall  -- dbus_message_unref

-- What the library answers to `open`: the connection, and whether the name's primary owner is this one.
pub record Replies : Type 0 where
  pub connected : Option ℕ
  pub primary_owner : Bool

abbrev pub is_some {ℓ} : {A : Type ℓ} → Option A → Bool
is_some none = false
is_some (some a) = true

abbrev pub is_open : DBus → Bool
is_open h = is_some h.con

unfoldable pub create_server : DBus → Replies → Bool × DBus × List BusCall
create_server h r = elim r.connected [
  | none ↦ (false, record h { con = none }, [])
  | some c ↦ (r.primary_owner, record h { con = some c }, gets c ∷ requests_name h.name ∷ [])
]

unfoldable pub create_client : DBus → Replies → Bool × DBus × List BusCall
create_client h r = elim r.connected [
  | none ↦ (false, record h { con = none }, [])
  | some c ↦ (true, record h { con = some c }, gets c ∷ [])
]

unfoldable pub close : DBus → Bool × DBus × List BusCall
close h = elim h.con [
  | none ↦ (false, h, [])
  | some c ↦ (
    true,
    record h { con = none },
    (if h.server then releases_name h.name else flushes) ∷ drops c ∷ [],
  )
]

-- `open` behind `create_server` or `create_client`: a failure closes the handler.
unfoldable pub keep_or_close : Bool × DBus × List BusCall → Bool × DBus × List BusCall
unfolding close
keep_or_close (true, h, made) = (true, h, made)
keep_or_close (false, h, made) = let (_, h1, calls) = close h in (false, h1, made ++ calls)

unfoldable pub open_handler : DBus → Replies → Bool × DBus × List BusCall
unfolding keep_or_close create_server create_client
open_handler h r =
    if is_open h
    then (true, h, [])
    else if h.server
    then keep_or_close (create_server h r)
    else keep_or_close (create_client h r)

-- `await_data` and `has_data` differ in how long `dbus_connection_read_write` waits. `connected` is its
-- answer, `remains` whether the dispatch status is DBUS_DISPATCH_DATA_REMAINS.
unfoldable pub await_data : DBus → Bool → Bool → Bool
await_data h connected remains = is_open h && (connected && remains)

unfoldable pub has_data : DBus → Bool → Bool → Bool
has_data h connected remains = is_open h && (connected && remains)

-- What the library answers to `write`, in order: whether each call has the memory that it needs.
pub record Answers : Type 0 where
  pub made : Bool
  pub id_appended : Bool
  pub time_appended : Bool
  pub array_opened : Bool
  pub array_appended : Bool
  pub array_closed : Bool
  pub accepted : Bool

abbrev pub object_path : DataObject → List ℕ
object_path o = path_prefix ++ to_text 10 (type_code (get_type o))

abbrev pub build : List ℕ → DataObject → ℕ → ℕ → List ℕ → Built
build name o id timestamp body = record {
  destination = name;
  path = object_path o;
  interface = interface_name;
  method = method_name;
  args = uint32 id ∷ int64 timestamp ∷ byte_array body ∷ [];
}

unfoldable pub write : DBus → DataObject → ℕ → Answers → Bool × DBus × List BusCall
write h o timestamp a =
    let (size, buffer) = serialize o h.frame.buffer 0 buffer_size in
    let id = to_u32 (h.frame.last_id + 1) in
    let h1 = record h { frame = record h.frame { buffer = buffer } } in
    let h2 = record h { frame = record { last_id = id; buffer = buffer } } in
    let given_up = takes_message ∷ drops_message ∷ [] in
    if not (is_open h)
    then (false, h, [])
    else if not a.made
    then (false, h, [])
    else if size == minus_one
    then (false, h1, given_up)
    else if not a.id_appended
    then (false, h2, given_up)
    else if not a.time_appended
    then (false, h2, given_up)
    else if not a.array_opened
    then (false, h2, given_up)
    else if not a.array_appended
    then (false, h2, given_up)
    else if not a.array_closed
    then (false, h2, given_up)
    else if not a.accepted
    then (false, h2, given_up)
    else (
      true,
      h2,
      takes_message ∷ sends (build h.name o id timestamp (take size buffer)) ∷ drops_message ∷ [],
    )

-- `read` from the third argument on, with the calls that it makes.
unfoldable pub read_body : DataType → ℕ → ℕ → List Arg → Outcome × List BusCall
read_body type id timestamp (byte_array bytes ∷ args) =
    let header : DataHeader = record {
      id = id;
      type = type;
      body_size = to_u16 (length bytes);
      timestamp = timestamp;
    } in
    (
      with_header header (deserialize_data_object type bytes (to_u32 (length bytes))),
      drops_message ∷ [],
    )
read_body type id timestamp args = (failed invalid_data, drops_message ∷ [])

-- `read` from the second argument on.
unfoldable pub read_timestamp : DataType → ℕ → List Arg → Outcome × List BusCall
unfolding read_body
read_timestamp type id (int64 timestamp ∷ args) = read_body type id timestamp args
read_timestamp type id args = (failed invalid_data, drops_message ∷ [])

-- `read` from the first argument on, once the type is known.
unfoldable pub read_args : DataType → List Arg → Outcome × List BusCall
unfolding read_timestamp
read_args type (uint32 id ∷ args) = read_timestamp type id args
read_args type args = (failed invalid_data, drops_message ∷ [])

-- `read` on a method call: the number behind the prefix of the path, as DataType. `std::stoul` throws if
-- there is none.
abbrev pub typed : Option ℕ → List Arg → Outcome × List BusCall
typed none args = (aborted, [])
typed (some n) args = read_args (type_of (to_u16 n)) args

unfoldable pub read_call : Seen → Outcome × List BusCall
unfolding read_args
read_call m =
    if length m.args == 0
    then (failed invalid_data, drops_message ∷ [])
    else if ltb (length m.path) (length path_prefix)
    then (overrun, [])
    else typed (stoull 10 (drop (length path_prefix) m.path)) m.args

-- Whether `read` comes to its end, or is left by an exception or worse.
abbrev pub returns : Outcome → Bool
returns aborted = false
returns overrun = false
returns outcome = true

-- `popped` is the message that `dbus_connection_pop_message` takes from the queue.
unfoldable pub read : DBus → Option Seen → Outcome × DBus × List BusCall
unfolding read_call
read h popped =
    if is_open h
    then elim popped [
      | none ↦ (failed no_data_available, h, [])
      | some m ↦
          if m.is_call
          then (let (outcome, calls) = read_call m in (outcome, h, takes_message ∷ calls))
          else (failed no_data_available, h, takes_message ∷ drops_message ∷ [])
    ]
    else (failed connection_closed, h, [])
