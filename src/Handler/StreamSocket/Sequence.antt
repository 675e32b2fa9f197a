-- ===== src/Handler/StreamSocket/Sequence.antt =====
-- handler/stream_socket.cpp: whatever is called, in any order, the descriptors are those that the
-- handler names.
use ipc_performance.Prelude.{ℕ, ◌≡◌, refl, Bool, Option, List, [], arith}
use ipc_performance.Communication.{DataObject}
use ipc_performance.Handler.Os.{Call, Poll, fds_after, remove}
use ipc_performance.Handler.Sequence.{fds_after-append, sequence, sequence-exact}
use ipc_performance.Handler.StreamSocket.{write, read}
use ipc_performance.Handler.StreamSocket.Connection.{
  StreamSocket, Replies, open_handler, close, accept, await_data,
}
use ipc_performance.Handler.StreamSocket.Receive.{Event}
use ipc_performance.Handler.StreamSocket.Lifecycle.{
  fds, IsSound, open_stream-fds, accept-fds, await_stream-fds,
}

-- The operations, with what the system answers to each.
pub data Op : Type 0 where
  open_op : Replies → Op
  accept_op : Poll → Option ℕ → Op
  await_op : Poll → Option ℕ → Poll → Op
  write_op : DataObject → ℕ → Bool → Op
  read_op : List Event → Op
  close_op : Op

unfoldable pub step : StreamSocket → Op → StreamSocket × List Call
step h (open_op r) = let (fine, h1, calls) = open_handler h r in (h1, calls)
step h (accept_op polled accepted) = let (fine, h1, calls) = accept h polled accepted in (h1, calls)
step h (await_op polled accepted p) =
    let (fine, h1, calls) = await_data h polled accepted p in (h1, calls)
step h (write_op o timestamp accepted) =
    let (fine, h1, sent) = write h o timestamp accepted in (h1, [])
step h (read_op events) = let (outcome, h1, left) = read h events in (h1, [])
step h close_op = let (fine, h1, calls) = close h in (h1, calls)

write-exact :
    (h : StreamSocket) (o : DataObject) (timestamp : ℕ) (accepted : Bool)
    → IsSound h
    → (fds h ≡ fds (write h o timestamp accepted).1) × IsSound (write h o timestamp accepted).1
unfolding write
write-exact h o timestamp accepted s = ground arith

read-exact :
    (h : StreamSocket) (events : List Event)
    → IsSound h
    → (fds h ≡ fds (read h events).1) × IsSound (read h events).1
unfolding read
read-exact h events s = ground arith

pub close-exact :
    (h : StreamSocket)
    → IsSound h
    → (fds_after (fds h) (close h).2 ≡ fds (close h).1) × IsSound (close h).1
unfolding close fds_after remove
close-exact h s = ground arith

step-exact :
    (h : StreamSocket) (op : Op)
    → IsSound h
    → (fds_after (fds h) (step h op).1 ≡ fds (step h op).0) × IsSound (step h op).0
unfolding step fds_after
step-exact h (open_op r) s = let all = open_stream-fds h r s in (all.1, all.2)
step-exact h (accept_op polled accepted) s =
    let all = accept-fds h polled accepted s in (all.1, all.2)
step-exact h (await_op polled accepted p) s = await_stream-fds h polled accepted p s
step-exact h (write_op o timestamp accepted) s = write-exact h o timestamp accepted s
step-exact h (read_op events) s = read-exact h events s
step-exact h close_op s = close-exact h s

-- StreamSocket: if a client is only there while the socket is open, then behind every sequence of
-- `open`, `accept`, `await_data`, `write`, `read` and `close`, whatever the system answers, the
-- process holds just the descriptors that the handler names, and a client is still only there
-- while the socket is open.
pub run_stream-exact :
    (h : StreamSocket) (ops : List Op)
    → IsSound h
    → let (h', calls) = sequence step h ops in (fds_after (fds h) calls ≡ fds h') × IsSound h'
unfolding fds_after
run_stream-exact =
    sequence-exact step fds_after fds_after-append (λ held. nothing held) fds IsSound step-exact
  where
    nothing : (held : List ℕ) → fds_after held [] ≡ held
    nothing held = refl
