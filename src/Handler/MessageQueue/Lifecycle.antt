-- ===== src/Handler/MessageQueue/Lifecycle.antt =====
-- handler/message_queue.cpp: opening and closing.
use ipc_performance.Prelude.{ℕ, ◌≡◌, false, Option, [], arith}
use ipc_performance.Handler.Os.{fds_after, unlinks_any, held, remove}
use ipc_performance.Handler.MessageQueue.{MessageQueue, is_open, open_handler, close}

-- MessageQueue: whatever the system answers, `open` returns whether the queue is open afterwards,
-- and the process holds just the descriptor that the handler names.
pub open_mq-fds :
    (h : MessageQueue) (opened : Option ℕ)
    → let (fine, h', calls) = open_handler h opened in
      (fine ≡ is_open h') × (fds_after (held h.mqd) calls ≡ held h'.mqd)
unfolding open_handler fds_after
open_mq-fds h opened = ground arith

-- `close` returns whether the queue was open; afterwards it is not, and no descriptor is held.
pub close_mq-fds :
    (h : MessageQueue)
    → let (fine, h', calls) = close h in
      (fine ≡ is_open h) × (is_open h' ≡ false) × (fds_after (held h.mqd) calls ≡ [])
unfolding close fds_after remove
close_mq-fds h = ground arith

-- The writer takes no name away, neither by `open` nor by `close`.
pub mq_writer_keeps_names :
    (h : MessageQueue) (opened : Option ℕ)
    → h.readonly ≡ false
    → (unlinks_any (open_handler h opened).2 ≡ false) × (unlinks_any (close h).2 ≡ false)
unfolding open_handler close unlinks_any
mq_writer_keeps_names h opened e = ground arith
