-- ===== src/Handler/DatagramSocket/Lifecycle.antt =====
-- handler/datagram_socket.cpp: opening and closing.
use ipc_performance.Prelude.{◌≡◌, false, [], arith}
use ipc_performance.Handler.Os.{fds_after, unlinks_any, held, remove}
use ipc_performance.Handler.DatagramSocket.{DatagramSocket, Replies, is_open, open_handler, close}

-- DatagramSocket: whatever the system answers, `open` returns whether the socket is open
-- afterwards, and the process holds just the descriptor that the handler names; where the address
-- or `bind` fails, it has been closed again.
pub open_datagram-fds :
    (h : DatagramSocket) (r : Replies)
    → let (fine, h', calls) = open_handler h r in
      (fine ≡ is_open h') × (fds_after (held h.sfd) calls ≡ held h'.sfd)
unfolding open_handler fds_after remove
open_datagram-fds h r = ground arith

-- `close` returns whether the socket was open; afterwards it is not, and no descriptor is held.
pub close_datagram-fds :
    (h : DatagramSocket)
    → let (fine, h', calls) = close h in
      (fine ≡ is_open h) × (is_open h' ≡ false) × (fds_after (held h.sfd) calls ≡ [])
unfolding close fds_after remove
close_datagram-fds h = ground arith

-- The client takes no name away, neither by `open` nor by `close`.
pub datagram_client_keeps_names :
    (h : DatagramSocket) (r : Replies)
    → h.parameters.server ≡ false
    → (unlinks_any (open_handler h r).2 ≡ false) × (unlinks_any (close h).2 ≡ false)
unfolding open_handler close unlinks_any
datagram_client_keeps_names h r e = ground arith
