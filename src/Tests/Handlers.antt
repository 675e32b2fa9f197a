-- ===== src/Tests/Handlers.antt =====
-- Handlers that write and read at concrete inputs.
use ipc_performance.Prelude.{
  ℕ, zero, suc, ◌≤◌, ◌≡◌, refl, Bool, true, false, ◌==◌, Option, none, some, List, [], ◌∷◌, ◌++◌,
  arith, length, length-append,
}
use ipc_performance.Prelude.Bytes.{IsBytes, le_bytes-IsBytes}
use ipc_performance.Prelude.Windows.{IsBytes-append}
use ipc_performance.Object.BinaryData
use ipc_performance.Object.DataHeader.Wire.{bytes_of-IsBytes}
use ipc_performance.Object.DataHeader.{bytes_of}
use ipc_performance.Communication.{overrun}
use ipc_performance.Communication.Wire.{encode}
use ipc_performance.Communication.Frame.Wire.{packet, length-packet, header_for}
use ipc_performance.Handler.Message.{Message, bytes, bytes-le, delivered}
use ipc_performance.Handler.Link.{Op, put, get, run, spec_run}
use ipc_performance.Handler.Datagrams.{Genuine, take_datagram-delivered, take_datagram-Genuine}
use ipc_performance.Handler.Os.{codes}
use ipc_performance.Text.{same_text-refl}
use ipc_performance.Handler.Fifo
use ipc_performance.Handler.Fifo.{Fifo}
use ipc_performance.Handler.Fifo.Stream as FifoStream
use ipc_performance.Handler.Fifo.Stream.{run_fifo-spec_run, read_fifo-overrun}
use ipc_performance.Handler.MessageQueue.Transfer as MqTransfer
use ipc_performance.Handler.MessageQueue.Transfer.{run_mq-spec_run}
use ipc_performance.Handler.Sockets.{Parameters, Address, unix_address, build_address, comes_to}
use ipc_performance.Handler.DatagramSocket
use ipc_performance.Handler.DatagramSocket.{DatagramSocket}
use ipc_performance.Handler.DatagramSocket.Opened.{opened, run_opened_datagrams-spec_run}
use ipc_performance.Handler.DatagramSocket.Transfer as DatagramTransfer
use ipc_performance.Handler.DatagramSocket.Transfer.{run_datagram-spec_run}
use ipc_performance.Handler.StreamSocket
use ipc_performance.Handler.StreamSocket.Connection.{StreamSocket}
use ipc_performance.Handler.StreamSocket.Receive.{Event, chunk, nothing_yet}
use ipc_performance.Handler.StreamSocket.Chunks.{payload, Flows}
use ipc_performance.Handler.StreamSocket.Stream.{read_stream-delivered}
use ipc_performance.Handler.SharedMemory.{SharedMemory, Shared, blocked, write}
use ipc_performance.Handler.SharedMemory.Transfer.{
  Linked, next_message, write_memory-Linked, write_memory-full,
}
use ipc_performance.Handler.SharedMemory.Queue as MemoryQueue
use ipc_performance.Handler.SharedMemory.Queue.{run_memory-spec_run}
use ipc_performance.Tests.Data.{
  zeros, length-zeros, zeros-IsBytes, two, two-IsValid, two-Sendable, fresh, first, first-Fits,
  large_header, large_header-IsValid,
}

-- One object is written; then two reads find it and nothing.
abbrev ops : List Op
ops = put two 5 ∷ get ∷ get ∷ []

abbrev fifo : Fifo
fifo = record { path = []; readonly = false; fd = some 3; frame = fresh }

abbrev pipe : FifoStream.State
pipe = record { w = fifo; r = record fifo { readonly = true }; pipe = [] }

pipe-Holds : FifoStream.Holds pipe []
pipe-Holds = record {
  w_open = refl;
  r_open = refl;
  w_buffer = length-zeros 528;
  r_buffer = length-zeros 528;
  queued = refl;
  fit = tt;
}

run_fifo-spec_run_example : run (FifoStream.link 5) pipe ops ≡ spec_run 0 [] ops
run_fifo-spec_run_example =
    run_fifo-spec_run 5 pipe [] ops pipe-Holds (two-Sendable, omega arith, tt)

read_fifo-overrun_example :
    (Fifo.read fifo (bytes_of large_header ++ zeros 600) false false).0 ≡ overrun
read_fifo-overrun_example =
    read_fifo-overrun fifo large_header (zeros 600) refl (length-zeros 528) large_header-IsValid
      (omega arith) (omega (arith, length-zeros 600))

abbrev queue : MqTransfer.State
queue = record {
  w = record { path = []; readonly = false; mqd = some 3; frame = fresh };
  r = record { path = []; readonly = true; mqd = some 4; frame = fresh };
  queue = [];
}

queue-Holds : MqTransfer.Holds queue []
queue-Holds = record {
  w_open = refl;
  r_open = refl;
  w_buffer = length-zeros 528;
  r_buffer = length-zeros 528;
  queued = refl;
  fit = tt;
}

run_mq-spec_run_example : run MqTransfer.link queue ops ≡ spec_run 0 [] ops
run_mq-spec_run_example = run_mq-spec_run queue [] ops queue-Holds (two-Sendable, omega arith, tt)

abbrev parameters : Bool → Bool → Parameters
parameters server unix = record {
  path = codes "127.0.0.1";
  port = 8080;
  server = server;
  unix = unix;
}

abbrev local_path : Address
local_path = unix_address (codes "127.0.0.1")

abbrev datagrams : DatagramTransfer.State
datagrams = record {
  w = record {
    parameters = parameters false true;
    address = local_path;
    sfd = some 3;
    frame = fresh;
  };
  r = record {
    parameters = parameters true true;
    address = local_path;
    sfd = some 4;
    frame = fresh;
  };
  queue = [];
}

-- The loopback address is one of the machine's.
abbrev is_here : ℕ → Bool
is_here ip = ip == 16777343

same_path : comes_to is_here local_path local_path ≡ true
unfolding comes_to
same_path = same_text-refl (codes "127.0.0.1")

run_datagram-spec_run_example :
    run (DatagramTransfer.link is_here 5) datagrams ops ≡ spec_run 0 [] ops
run_datagram-spec_run_example =
    run_datagram-spec_run is_here 5 datagrams [] ops
      (record {
        w_open = refl;
        r_open = refl;
        reaches = same_path;
        w_buffer = length-zeros 528;
        r_buffer = length-zeros 528;
        queued = refl;
        fit = tt;
      })
      (two-Sendable, omega arith, tt)

-- A socket that was never opened, and what the system answers to `open`.
abbrev closed : Bool → DatagramSocket
closed server = record {
  parameters = parameters server false;
  address = unix_address [];
  sfd = none;
  frame = fresh;
}

abbrev answered : Option ℕ → DatagramSocket.Replies
answered parsed = record { opened = some 3; parsed = parsed; bound = true }

opens_client : (DatagramSocket.open_handler (closed false) (answered (some 16777343))).0 ≡ true
unfolding DatagramSocket.open_handler build_address
opens_client = refl

opens_server : (DatagramSocket.open_handler (closed true) (answered none)).0 ≡ true
unfolding DatagramSocket.open_handler build_address
opens_server = refl

loopback : (ip : ℕ) → some 16777343 ≡ some ip → is_here ip ≡ true
loopback ip e = ground arith

run_opened_datagrams-spec_run_example :
    run
      (DatagramTransfer.link is_here 5)
      (opened (closed false) (closed true) (answered (some 16777343)) (answered none))
      ops
    ≡ spec_run 0 [] ops
run_opened_datagrams-spec_run_example =
    run_opened_datagrams-spec_run is_here 5 (closed false) (closed true) (answered (some 16777343))
      (answered none) ops refl refl refl refl refl refl refl (length-zeros 528) (length-zeros 528)
      opens_client opens_server loopback (two-Sendable, omega arith, tt)

first-IsBytes : IsBytes (bytes first)
unfolding packet encode BinaryData.Wire.encode
first-IsBytes =
    IsBytes-append _ _ (bytes_of-IsBytes (header_for 1 5 two))
      (IsBytes-append _ _ (le_bytes-IsBytes 4 2) two-IsValid)

take_datagram-Genuine_example : Genuine (bytes first) (header_for 1 5 two) two
take_datagram-Genuine_example =
    take_datagram-Genuine fresh (bytes first) (header_for 1 5 two) two (zeros-IsBytes 528)
      (length-zeros 528) first-IsBytes (bytes-le first-Fits)
      (take_datagram-delivered fresh first first-Fits (length-zeros 528)).0

abbrev stream : StreamSocket
stream = record {
  parameters = parameters true true;
  address = unix_address [];
  sfd = some 3;
  cfd = some 4;
  frame = fresh;
}

-- The first message in two pieces, with nothing in between for a while.
abbrev pieces : List Event
pieces = chunk (bytes first) ∷ nothing_yet ∷ chunk (9 ∷ []) ∷ []

read_stream-delivered_example :
    let (outcome, h', left) = StreamSocket.read stream pieces in
    (outcome ≡ delivered first)
    × (payload left ≡ 9 ∷ [])
    × Flows left
    × (length h'.frame.buffer ≡ 528)
read_stream-delivered_example =
    read_stream-delivered stream 4 pieces first (9 ∷ []) refl (length-zeros 528) first-Fits
      (omega (arith, length-packet 1 5 two), (omega arith, tt)) tt refl

abbrev pub memory : ℕ → ℕ → Shared
memory readable writable = record { memory = zeros 33792; readable = readable; writable = writable }

abbrev pub side : SharedMemory
side = record {
  name = [];
  server = true;
  file = false;
  fd = some 3;
  offset = 0;
  address = true;
  reader = some 5;
  writer = some 6;
  frame = fresh;
}

pub memory-Linked : Linked side side (memory 0 64) []
memory-Linked = record {
  w_open = refl;
  r_open = refl;
  room = length-zeros 33792;
  w_buffer = length-zeros 528;
  r_buffer = length-zeros 528;
  r_offset = omega arith;
  w_offset = refl;
  readable = refl;
  writable = refl;
  held = tt;
}

run_memory-spec_run_example :
    run MemoryQueue.link (record { w = side; r = side; shared = memory 0 64 }) ops
    ≡ spec_run 0 [] ops
run_memory-spec_run_example =
    run_memory-spec_run (record { w = side; r = side; shared = memory 0 64 }) [] ops memory-Linked
      (two-Sendable, omega arith, tt)

-- A memory to which `n` messages have been written.
record Filled (n : ℕ) : Type 0 where
  w : SharedMemory
  shared : Shared
  q : List Message
  linked : Linked w side shared q
  amount : length q ≡ n

fill : (n : ℕ) → n ≤ 64 → Filled n
fill zero h = record {
  w = side;
  shared = memory 0 64;
  q = [];
  linked = memory-Linked;
  amount = refl;
}
fill (suc n) h =
    let f : Filled n = fill n (omega arith) in
    let wrote =
      write_memory-Linked f.w side f.shared f.q two 5 f.linked two-Sendable.object_valid
        two-Sendable.size_fits two-Sendable.timestamp_fits (omega (arith, f.amount)) in
    record {
      w = _;
      shared = _;
      q = f.q ++ next_message f.w two 5 ∷ [];
      linked = wrote.1;
      amount = omega (arith, length-append f.q (next_message f.w two 5 ∷ []), f.amount);
    }

full : Filled 64
full = fill 64 (omega arith)

write_memory-full_example :
    let (res, w, s) = write full.w full.shared two 5 false in
    (res ≡ blocked) × (s ≡ full.shared) × Linked w side s full.q
write_memory-full_example =
    write_memory-full full.w side full.shared full.q two 5 full.linked two-Sendable.size_fits
      full.amount
