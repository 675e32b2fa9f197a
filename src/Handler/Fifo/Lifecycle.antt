-- ===== src/Handler/Fifo/Lifecycle.antt =====
-- handler/fifo.cpp: opening and closing.
use ipc_performance.Prelude.{◌≡◌, false, [], arith}
use ipc_performance.Handler.Os.{fds_after, unlinks_any, held, remove}
use ipc_performance.Handler.Fifo.{Fifo, Replies, is_open, open_handler, close}

-- Fifo: whatever the system answers, `open` returns whether the pipe is open afterwards, and the
-- process holds just the descriptor that the handler names.
pub open_fifo-fds :
    (h : Fifo) (r : Replies)
    → let (fine, h', calls) = open_handler h r in
      (fine ≡ is_open h') × (fds_after (held h.fd) calls ≡ held h'.fd)
unfolding open_handler fds_after
open_fifo-fds h r = ground arith

-- Fifo: `close` returns whether the pipe was open, afterwards it is not, and no descriptor is
-- held.
pub close_fifo-fds :
    (h : Fifo)
    → let (fine, h', calls) = close h in
      (fine ≡ is_open h) × (is_open h' ≡ false) × (fds_after (held h.fd) calls ≡ [])
unfolding close fds_after remove
close_fifo-fds h = ground arith

-- The writer takes no name away, neither by `open` nor by `close`.
pub fifo_writer_keeps_names :
    (h : Fifo) (r : Replies)
    → h.readonly ≡ false
    → (unlinks_any (open_handler h r).2 ≡ false) × (unlinks_any (close h).2 ≡ false)
unfolding open_handler close unlinks_any
fifo_writer_keeps_names h r e = ground arith
