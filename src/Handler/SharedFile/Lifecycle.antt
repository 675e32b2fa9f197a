-- ===== src/Handler/SharedFile/Lifecycle.antt =====
-- handler/shared_file.cpp: opening and closing.
use ipc_performance.Prelude.{ℕ, ◌≡◌, true, false, none, some, List, [], ◌++◌, arith, if◌then◌else◌}
use ipc_performance.Handler.Os.{fds_after, sems_after, held, drop_sem, remove}
use ipc_performance.Handler.SharedFile.{SharedFile, Replies, is_open, open_handler, close}

-- The semaphores that an open handler names.
abbrev pub sems : SharedFile → List ℕ
sems h = held h.writer ++ held h.reader

-- SharedFile: `open` of a handler that was never open returns whether the file is open
-- afterwards, never closes a semaphore that it does not hold, and afterwards holds the two that
-- the handler names if it returns true, and none if it returns false.
pub open_file-sems :
    (h : SharedFile) (r : Replies)
    → h.fd ≡ none
    → h.reader ≡ none
    → h.writer ≡ none
    → let (fine, h', calls) = open_handler h r in
      (fine ≡ is_open h') × (sems_after [] calls ≡ some (if fine then sems h' else []))
unfolding open_handler sems_after drop_sem
open_file-sems h r e f g = ground arith

-- SharedFile: `close` of an open handler returns true; afterwards the handler is not open, and of
-- the semaphores that it names none is held.
pub close_file-sems :
    (h : SharedFile)
    → is_open h ≡ true
    → let (fine, h', calls) = close h in
      (fine ≡ true) × (is_open h' ≡ false) × (sems_after (sems h) calls ≡ some [])
unfolding close sems_after drop_sem
close_file-sems h e = ground arith

-- SharedFile: whatever the system answers, the process holds just the descriptor that the handler
-- names behind `open`, and behind `close`.
pub open_file-fds :
    (h : SharedFile) (r : Replies)
    → fds_after (held h.fd) (open_handler h r).2 ≡ held (open_handler h r).1.fd
unfolding open_handler fds_after remove
open_file-fds h r = ground arith

pub close_file-fds : (h : SharedFile) → fds_after (held h.fd) (close h).2 ≡ held (close h).1.fd
unfolding close fds_after remove
close_file-fds h = ground arith
