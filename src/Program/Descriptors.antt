-- ===== src/Program/Descriptors.antt =====
-- src/main.cpp with the handlers: the descriptors of whatever handler the command line names, or its
-- connection to the bus.
use ipc_performance.Prelude.{ℕ, ◌≡◌, Option, none, some, List, [], ◌∷◌, map}
use ipc_performance.Handler.Os.{Call, held, fds_after}
use ipc_performance.Handler.DBus
use ipc_performance.Handler.DBus.{BusCall}
use ipc_performance.Handler.DBus.Lifecycle.{connections_after}
use ipc_performance.Handler.Fifo
use ipc_performance.Handler.Fifo.{Fifo}
use ipc_performance.Handler.MessageQueue
use ipc_performance.Handler.MessageQueue.{MessageQueue}
use ipc_performance.Handler.DatagramSocket
use ipc_performance.Handler.DatagramSocket.{DatagramSocket}
use ipc_performance.Handler.StreamSocket.Connection as Stream
use ipc_performance.Handler.StreamSocket.Lifecycle.{IsSound}
use ipc_performance.Handler.StreamSocket.Lifecycle as StreamLifecycle
use ipc_performance.Handler.StreamSocket.Sequence as StreamSequence
use ipc_performance.Handler.SharedMemory
use ipc_performance.Handler.SharedMemory.{SharedMemory}
use ipc_performance.Handler.SharedFile
use ipc_performance.Handler.SharedFile.{SharedFile}
use ipc_performance.Program.{Handler, dbus, fifo, queue, datagram, stream, memory, file}

-- What the system answers to `open`, for each class.
pub record Replies : Type 0 where
  pub to_dbus : DBus.Replies
  pub to_fifo : Fifo.Replies
  pub to_queue : Option ℕ
  pub to_datagram : DatagramSocket.Replies
  pub to_stream : Stream.Replies
  pub to_memory : SharedMemory.Replies
  pub to_file : SharedFile.Replies

pub data Op : Type 0 where
  open_op : Replies → Op
  close_op : Op

-- A call of the system, or of libdbus.
pub data Made : Type 0 where
  system : Call → Made
  library : BusCall → Made

-- What is held after the calls: descriptors, and connections to the bus.
unfoldable pub held_after : List ℕ → List Made → List ℕ
held_after hs [] = hs
held_after hs (system call ∷ calls) = held_after (fds_after hs (call ∷ [])) calls
held_after hs (library call ∷ calls) = held_after (connections_after hs (call ∷ [])) calls

-- `open` and `close` of the class that was made.
unfoldable pub step : Handler → Op → Handler × List Made
step (dbus h) (open_op r) =
    let (fine, h1, calls) = DBus.open_handler h r.to_dbus in (dbus h1, map library calls)
step (dbus h) close_op = let (fine, h1, calls) = DBus.close h in (dbus h1, map library calls)
step (fifo h) (open_op r) =
    let (fine, h1, calls) = Fifo.open_handler h r.to_fifo in (fifo h1, map system calls)
step (fifo h) close_op = let (fine, h1, calls) = Fifo.close h in (fifo h1, map system calls)
step (queue h) (open_op r) =
    let (fine, h1, calls) = MessageQueue.open_handler h r.to_queue in (queue h1, map system calls)
step (queue h) close_op =
    let (fine, h1, calls) = MessageQueue.close h in (queue h1, map system calls)
step (datagram h) (open_op r) =
    let (fine, h1, calls) = DatagramSocket.open_handler h r.to_datagram in
    (datagram h1, map system calls)
step (datagram h) close_op =
    let (fine, h1, calls) = DatagramSocket.close h in (datagram h1, map system calls)
step (stream h) (open_op r) =
    let (fine, h1, calls) = Stream.open_handler h r.to_stream in (stream h1, map system calls)
step (stream h) close_op = let (fine, h1, calls) = Stream.close h in (stream h1, map system calls)
step (memory h) (open_op r) =
    let (fine, h1, calls) = SharedMemory.open_handler h r.to_memory in (memory h1, map system calls)
step (memory h) close_op =
    let (fine, h1, calls) = SharedMemory.close h in (memory h1, map system calls)
step (file h) (open_op r) =
    let (fine, h1, calls) = SharedFile.open_handler h r.to_file in (file h1, map system calls)
step (file h) close_op = let (fine, h1, calls) = SharedFile.close h in (file h1, map system calls)

-- The descriptors that a handler names, or its connection.
unfoldable pub named : Handler → List ℕ
named (dbus h) = held h.con
named (fifo h) = held h.fd
named (queue h) = held h.mqd
named (datagram h) = held h.sfd
named (stream h) = StreamLifecycle.fds h
named (memory h) = held h.fd
named (file h) = held h.fd

abbrev pub Keeps : Handler → Type 0
Keeps (stream h) = IsSound h
Keeps h = Unit {0}

-- A handler that names no descriptor.
abbrev Fresh : Option Handler → Type 0
Fresh none = Unit {0}
Fresh (some h) = (named h ≡ []) × Keeps h
