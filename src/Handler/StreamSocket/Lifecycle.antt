-- ===== src/Handler/StreamSocket/Lifecycle.antt =====
-- handler/stream_socket.cpp: opening, accepting and closing.
use ipc_performance.Prelude.{ℕ, ◌≡◌, true, false, Option, none, List, [], ◌++◌, arith, ◌⊎◌}
use ipc_performance.Handler.Os.{fds_after, held, remove, has_fd, Poll}
use ipc_performance.Handler.StreamSocket.Connection.{
  StreamSocket, Replies, is_open, open_handler, close, accept, await_data,
}

-- The descriptors that the handler names.
abbrev pub fds : StreamSocket → List ℕ
fds h = held h.cfd ++ held h.sfd

-- A client is only there while the socket is open.
abbrev pub IsSound : StreamSocket → Type 0
IsSound h = (is_open h ≡ true) ⊎ (h.cfd ≡ none)

-- StreamSocket: if a client is only there while the socket is open, then, whatever the system
-- answers, `open` returns whether the socket is open afterwards, the process holds just the
-- descriptors that the handler names, and a client is still only there while the socket is open.
pub open_stream-fds :
    (h : StreamSocket) (r : Replies)
    → IsSound h
    → let (fine, h', calls) = open_handler h r in
      (fine ≡ is_open h') × (fds_after (fds h) calls ≡ fds h') × IsSound h'
unfolding open_handler fds_after remove
open_stream-fds h r s = ground arith

-- StreamSocket: if a client is only there while the socket is open, `close` returns whether the
-- socket was open, afterwards it is not, and none of the descriptors that the handler named is
-- held.
pub close_stream-fds :
    (h : StreamSocket)
    → IsSound h
    → let (fine, h', calls) = close h in
      (fine ≡ is_open h) × (is_open h' ≡ false) × (fds_after (fds h) calls ≡ []) × IsSound h'
unfolding close fds_after remove
close_stream-fds h s = ground arith

-- StreamSocket: if a client is only there while the socket is open, `accept` closes the client
-- that was there before it takes another: afterwards the process holds just the descriptors that
-- the handler names, `accept` returns whether a client is there, and a client is still only there
-- while the socket is open.
pub accept-fds :
    (h : StreamSocket) (polled : Poll) (accepted : Option ℕ)
    → IsSound h
    → let (fine, h', calls) = accept h polled accepted in
      (fine ≡ has_fd h'.cfd) × (fds_after (fds h) calls ≡ fds h') × IsSound h'
unfolding accept fds_after remove
accept-fds h polled accepted s = ground arith

-- StreamSocket: if a client is only there while the socket is open, this is so behind
-- `await_data` too, and the process then holds just the descriptors that the handler names.
pub await_stream-fds :
    (h : StreamSocket) (polled : Poll) (accepted : Option ℕ) (p : Poll)
    → IsSound h
    → let (fine, h', calls) = await_data h polled accepted p in
      (fds_after (fds h) calls ≡ fds h') × IsSound h'
unfolding await_data fds_after remove
await_stream-fds h polled accepted p s = ground arith
