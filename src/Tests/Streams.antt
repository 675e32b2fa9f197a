-- ===== src/Tests/Streams.antt =====
-- StreamSocket at concrete inputs: sequences of calls, and the ends of `read`.
use ipc_performance.Prelude.{
  ℕ, zero, suc, ◌≡◌, refl, ap, append-nil, true, false, Option, none, some, List, [], ◌∷◌, ◌++◌,
  arith, length-append, inr,
}
use ipc_performance.Object.DataHeader.{bytes_of}
use ipc_performance.Communication.{overrun}
use ipc_performance.Handler.Os.{codes, fds_after, ready}
use ipc_performance.Handler.Sequence.{sequence}
use ipc_performance.Handler.Sockets.{Parameters, unix_address}
use ipc_performance.Handler.StreamSocket
use ipc_performance.Handler.StreamSocket.Connection as Stream
use ipc_performance.Handler.StreamSocket.Connection.{StreamSocket}
use ipc_performance.Handler.StreamSocket.Lifecycle.{fds, IsSound}
use ipc_performance.Handler.StreamSocket.Receive.{Event, chunk, nothing_yet, failure}
use ipc_performance.Handler.StreamSocket.Sequence.{
  Op, open_op, accept_op, await_op, write_op, close_op, step, run_stream-exact,
}
use ipc_performance.Handler.StreamSocket.Returns.{
  is_waiting, answers, AllBytes, read_stream-returns,
}
use ipc_performance.Handler.Link as Link
use ipc_performance.Handler.Link.{put, get, run, spec_run}
use ipc_performance.Handler.StreamSocket.Chunks.{payload, Flows, Begun}
use ipc_performance.Handler.StreamSocket.Transfer as StreamTransfer
use ipc_performance.Handler.StreamSocket.Transfer.{run_stream-spec_run}
use ipc_performance.Handler.StreamSocket.Overrun.{read_stream-overrun}
use ipc_performance.Tests.Data.{
  zeros, length-zeros, zeros-IsBytes, two, two-Sendable, fresh, large_header, large_header-IsValid,
}

abbrev unix : Parameters
unix = record { path = codes "s"; port = 0; server = true; unix = true }

abbrev stream : Option ℕ → Option ℕ → StreamSocket
stream sfd cfd = record {
  parameters = unix;
  address = unix_address [];
  sfd = sfd;
  cfd = cfd;
  frame = fresh;
}

abbrev replies : Stream.Replies
replies = record {
  opened = some 3;
  parsed = none;
  bound = true;
  listening = true;
  connected = false;
}

-- A client is accepted, then another one, and all is closed.
abbrev calls : List Op
calls =
    open_op replies
    ∷ await_op ready (some 5) ready
    ∷ write_op two 5 true
    ∷ accept_op ready (some 6)
    ∷ close_op
    ∷ []

run_stream-exact_example :
    let (h, made) = sequence step (stream none none) calls in
    (fds_after [] made ≡ fds h) × IsSound h
run_stream-exact_example = run_stream-exact (stream none none) calls (inr refl)

failures : ℕ → List Event
failures zero = []
failures (suc n) = failure ∷ failures n

answers-failures : (n : ℕ) → answers (failures n) ≡ n
unfolding failures
answers-failures zero = refl
answers-failures (suc n) = ap suc (answers-failures n)

failures-AllBytes : (n : ℕ) → AllBytes (failures n)
unfolding failures
failures-AllBytes zero = tt
failures-AllBytes (suc n) = failures-AllBytes n

-- Two bytes of a header, then nothing for a while, then errors.
abbrev broken_off : List Event
broken_off = chunk (1 ∷ 2 ∷ []) ∷ nothing_yet ∷ failures 70000

read_stream-returns_example :
    is_waiting (StreamSocket.read (stream (some 3) (some 4)) broken_off).0 ≡ false
read_stream-returns_example =
    read_stream-returns (stream (some 3) (some 4)) broken_off (zeros-IsBytes 528) (length-zeros 528)
      ((omega arith, (omega arith, tt)), failures-AllBytes 70000)
      (omega (arith, answers-failures 70000))

-- A header that announces 600 bytes, and the bytes.
abbrev large : List Event
large = chunk (bytes_of large_header ++ zeros 600) ∷ []

read_stream-overrun_example : (StreamSocket.read (stream (some 3) (some 4)) large).0 ≡ overrun
read_stream-overrun_example =
    read_stream-overrun (stream (some 3) (some 4)) 4 large large_header (zeros 600) refl
      (length-zeros 528) large_header-IsValid (omega arith) (omega (arith, length-zeros 600))
      (omega (arith, length-append (bytes_of large_header) (zeros 600), length-zeros 600), tt) tt
      (append-nil (bytes_of large_header ++ zeros 600))

-- The stream arrives byte by byte, with nothing in between.
bytewise : List ℕ → List Event
bytewise [] = nothing_yet ∷ []
bytewise (b ∷ bs) = chunk (b ∷ []) ∷ nothing_yet ∷ bytewise bs

bytewise-Flows : (bs : List ℕ) → Flows (bytewise bs)
unfolding bytewise
bytewise-Flows [] = tt
bytewise-Flows (b ∷ bs) = (omega arith, bytewise-Flows bs)

payload-bytewise : (bs : List ℕ) → payload (bytewise bs) ≡ bs
unfolding bytewise
payload-bytewise [] = refl
payload-bytewise (b ∷ bs) = ap (◌∷◌ b) (payload-bytewise bs)

bytewise-Begun : (b : ℕ) (bs : List ℕ) → Begun (bytewise (b ∷ bs))
unfolding bytewise
bytewise-Begun b bs = tt

bytewise_empty : (events : List Event) × (bytewise [] ≡ nothing_yet ∷ events)
unfolding bytewise
bytewise_empty = ([], refl)

abbrev pair : StreamTransfer.State
pair = record { w = stream (some 3) none; r = stream (some 4) (some 5); stream = [] }

pair-Holds : StreamTransfer.Holds pair []
pair-Holds = record {
  w_open = refl;
  client = 5;
  r_client = refl;
  w_buffer = length-zeros 528;
  r_buffer = length-zeros 528;
  queued = refl;
  fit = tt;
}

-- One object is written; then two reads find it and nothing.
abbrev transfers : List Link.Op
transfers = put two 5 ∷ get ∷ get ∷ []

run_stream-spec_run_example :
    run
      (StreamTransfer.link bytewise bytewise-Flows payload-bytewise bytewise-Begun bytewise_empty 9)
      pair
      transfers
    ≡ spec_run 0 [] transfers
run_stream-spec_run_example =
    run_stream-spec_run bytewise bytewise-Flows payload-bytewise bytewise-Begun bytewise_empty 9
      pair [] transfers pair-Holds (two-Sendable, omega arith, tt)
