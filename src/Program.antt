-- ===== src/Program.antt =====
-- src/main.cpp: the handlers that the command line names, as their constructors leave them.
pub mod Start
pub mod Trace
pub mod Normal
pub mod Descriptors
pub mod Main
use Prim.Native.String.{String}
use ipc_performance.Prelude.{
  ℕ, zero, suc, Bool, true, false, ◌&&◌, ◌==◌, if◌then◌else◌, Option, none, some, List, [], ◌∷◌,
  ◌++◌,
}
use ipc_performance.Communication.{buffer_size}
use ipc_performance.Communication.Frame.{Frame}
use ipc_performance.Handler.Os.{codes}
use ipc_performance.Text.{same_text}
use ipc_performance.Handler.DBus.{DBus}
use ipc_performance.Handler.Fifo.{Fifo}
use ipc_performance.Handler.MessageQueue.{MessageQueue}
use ipc_performance.Handler.Sockets.{Parameters, unix_address}
use ipc_performance.Handler.DatagramSocket.{DatagramSocket}
use ipc_performance.Handler.StreamSocket.Connection.{StreamSocket}
use ipc_performance.Handler.SharedMemory.{SharedMemory}
use ipc_performance.Handler.SharedFile.{SharedFile}

-- `std::shared_ptr<ipc::ICommunicationHandler>`, with the class that was made.
pub data Handler : Type 0 where
  dbus : DBus → Handler
  fifo : Fifo → Handler
  queue : MessageQueue → Handler
  datagram : DatagramSocket → Handler
  stream : StreamSocket → Handler
  memory : SharedMemory → Handler
  file : SharedFile → Handler

unfoldable pub cleared : ℕ → List ℕ
cleared zero = []
cleared (suc n) = 0 ∷ cleared n

-- `last_id_ = 0` and `buffer_{}`
unfoldable pub new_frame : Frame
unfolding cleared
new_frame = record { last_id = 0; buffer = cleared buffer_size }

abbrev pub new_bus : List ℕ → Bool → DBus
new_bus name server = record { name = name; server = server; con = none; frame = new_frame }

abbrev pub new_fifo : List ℕ → Bool → Fifo
new_fifo path readonly = record { path = path; readonly = readonly; fd = none; frame = new_frame }

abbrev pub new_queue : List ℕ → Bool → MessageQueue
new_queue path readonly = record { path = path; readonly = readonly; mqd = none; frame = new_frame }

abbrev pub new_datagram : Parameters → DatagramSocket
new_datagram p = record { parameters = p; address = unix_address []; sfd = none; frame = new_frame }

abbrev pub new_stream : Parameters → StreamSocket
new_stream p = record {
  parameters = p;
  address = unix_address [];
  sfd = none;
  cfd = none;
  frame = new_frame;
}

abbrev pub new_memory : List ℕ → Bool → Bool → SharedMemory
new_memory name server mapped = record {
  name = name;
  server = server;
  file = mapped;
  fd = none;
  offset = 0;
  address = false;
  reader = none;
  writer = none;
  frame = new_frame;
}

abbrev pub new_file : List ℕ → Bool → SharedFile
new_file path server = record {
  path = path;
  server = server;
  fd = none;
  offset = 0;
  reader = none;
  writer = none;
  frame = new_frame;
}

abbrev pub local : List ℕ → Bool → Parameters
local path server = record { path = path; port = 0; server = server; unix = true }

abbrev pub internet : List ℕ → ℕ → Bool → Parameters
internet address port server = record { path = address; port = port; server = server; unix = false }

-- `none` is the null pointer.
unfoldable pub create_handler : List ℕ → List ℕ → Bool → Option Handler
unfolding same_text
create_handler type path reader =
    let tmp = codes "/tmp/" ++ path in
    if same_text type (codes "dbus")
    then some (dbus (new_bus (codes "ipc." ++ (path ++ codes ".server")) reader))
    else if same_text type (codes "fifo")
    then some (fifo (new_fifo tmp reader))
    else if same_text type (codes "queue")
    then some (queue (new_queue (codes "/" ++ path) reader))
    else if same_text type (codes "dgram")
    then some (datagram (new_datagram (local tmp reader)))
    else if same_text type (codes "stream")
    then some (stream (new_stream (local tmp reader)))
    else if same_text type (codes "udp")
    then some (datagram (new_datagram (internet path 8080 reader)))
    else if same_text type (codes "tcp")
    then some (stream (new_stream (internet path 8080 reader)))
    else if same_text type (codes "memory")
    then some (memory (new_memory path reader false))
    else if same_text type (codes "mapped")
    then some (memory (new_memory tmp reader true))
    else if same_text type (codes "file")
    then some (file (new_file tmp reader))
    else none
