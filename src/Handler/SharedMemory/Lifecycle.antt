-- ===== src/Handler/SharedMemory/Lifecycle.antt =====
-- handler/shared_memory.cpp: opening and closing.
use ipc_performance.Prelude.{
  ℕ, ◌≡◌, ap, ◌∙◌, sym, inl, inr, Option-cases, Bool, true, false, none, some, List, [], ◌∷◌, ◌++◌,
  arith, if◌then◌else◌,
}
use ipc_performance.Handler.Os.{
  Call, opens, closes, maps, unmaps, sem_opens, sem_closes, sem_unlinks, unlinks, makes_fifo,
  fds_after, sems_after, unlinks_any, held, remove, drop_sem,
}
use ipc_performance.Handler.SharedMemory.{SharedMemory, Replies, is_open, open_handler, close}

-- SharedMemory: whatever the system answers, `open` returns whether the memory is open
-- afterwards, and the process then holds just the descriptor that the handler names; where
-- ftruncate, mmap or a semaphore fails, it has been closed again.
pub open_memory-fds :
    (h : SharedMemory) (r : Replies)
    → let (fine, h', calls) = open_handler h r in
      (fine ≡ is_open h') × (fds_after (held h.fd) calls ≡ held h'.fd)
unfolding open_handler fds_after remove
open_memory-fds h r = ground arith

-- The semaphores that an open handler names.
abbrev pub sems : SharedMemory → List ℕ
sems h = held h.writer ++ held h.reader

-- SharedMemory: `open` of a handler that was never open never closes a semaphore that it does not
-- hold, and afterwards holds the two that the handler names if it returns true, and none if it
-- returns false.
pub open_memory-sems :
    (h : SharedMemory) (r : Replies)
    → h.fd ≡ none
    → h.reader ≡ none
    → h.writer ≡ none
    → let (fine, h', calls) = open_handler h r in
      sems_after [] calls ≡ some (if fine then sems h' else [])
unfolding open_handler sems_after drop_sem
open_memory-sems h r e f g = ground arith

-- SharedMemory: `close` of an open handler returns true; afterwards the handler is not open, and
-- of the descriptor and the semaphores that it names none is held.
pub close_memory-fds_sems :
    (h : SharedMemory)
    → is_open h ≡ true
    → let (fine, h', calls) = close h in
      (fine ≡ true)
      × (is_open h' ≡ false)
      × (fds_after (held h.fd) calls ≡ [])
      × (sems_after (sems h) calls ≡ some [])
unfolding close fds_after sems_after drop_sem remove
close_memory-fds_sems h e = ground arith

injective : {xs ys : List ℕ} → some xs ≡ some ys → xs ≡ ys
injective {xs} e = ap (λ o. elim o [ none ↦ xs | some zs ↦ zs ]) e

sems_after-append :
    (hs ms : List ℕ) (xs ys : List Call)
    → sems_after hs xs ≡ some ms
    → sems_after hs (xs ++ ys) ≡ sems_after ms ys
unfolding sems_after
sems_after-append hs ms [] ys e = ap (λ ks. sems_after ks ys) (injective e)
sems_after-append hs ms (opens fd ∷ xs) ys e = sems_after-append hs ms xs ys e
sems_after-append hs ms (closes fd ∷ xs) ys e = sems_after-append hs ms xs ys e
sems_after-append hs ms (maps ∷ xs) ys e = sems_after-append hs ms xs ys e
sems_after-append hs ms (unmaps b ∷ xs) ys e = sems_after-append hs ms xs ys e
sems_after-append hs ms (sem_opens name v s ∷ xs) ys e = sems_after-append (s ∷ hs) ms xs ys e
sems_after-append hs ms (sem_closes none ∷ xs) ys e = sems_after-append hs ms xs ys e
sems_after-append hs ms (sem_closes (some s) ∷ xs) ys e = elim (Option-cases (drop_sem s hs)) [
  | inl d ↦ absurd (ground arith)
  | inr (rest, d) ↦ rw (d, sems_after) (sems_after-append rest ms xs ys (ground arith))
]
sems_after-append hs ms (sem_unlinks name ∷ xs) ys e = sems_after-append hs ms xs ys e
sems_after-append hs ms (unlinks name ∷ xs) ys e = sems_after-append hs ms xs ys e
sems_after-append hs ms (makes_fifo name ∷ xs) ys e = sems_after-append hs ms xs ys e

-- A stale pointer is closed where mmap fails.
stale_closes :
    (h : SharedMemory) (r : Replies) (rs fd : ℕ)
    → h.fd ≡ none
    → h.reader ≡ some rs
    → r.opened ≡ some fd
    → r.mapped ≡ false
    → sems_after [] (open_handler h r).2 ≡ none
unfolding open_handler sems_after drop_sem
stale_closes h r rs fd e f g k = ground arith

-- A successful `open` leaves a pointer to the first semaphore, and `close` keeps it.
open_close_pointer :
    (h : SharedMemory) (r : Replies)
    → h.fd ≡ none
    → (open_handler h r).0 ≡ true
    → (rs : ℕ) × ((close (open_handler h r).1).1.reader ≡ some rs)
      × ((close (open_handler h r).1).1.fd ≡ none)
unfolding open_handler close
open_close_pointer h r e f = elim (Option-cases r.reader_sem) [
  | inl d ↦ absurd (ground arith)
  | inr (rs, d) ↦ (rs, ground arith, ground arith)
]

-- SharedMemory: a handler that was never open is opened, which succeeds, and closed: no semaphore
-- is held then. If it is opened again, and mmap fails, it closes a semaphore that it does not
-- hold.
pub reopen_closes_twice :
    (h : SharedMemory) (first second : Replies) (fd : ℕ)
    → h.fd ≡ none
    → h.reader ≡ none
    → h.writer ≡ none
    → (open_handler h first).0 ≡ true
    → second.opened ≡ some fd
    → second.mapped ≡ false
    → let (_, h1, opening) = open_handler h first in
      let (_, h2, closing) = close h1 in
      let (_, h3, reopening) = open_handler h2 second in
      (sems_after [] (opening ++ closing) ≡ some [])
      × (sems_after [] (opening ++ (closing ++ reopening)) ≡ none)
reopen_closes_twice h first second fd e f g fine o m =
    let h1 = (open_handler h first).1 in
    let stale = open_close_pointer h first e fine in
    let opened : sems_after [] (open_handler h first).2 ≡ some (sems h1) =
      open_memory-sems h first e f g ∙ ap (λ (b : Bool). some (if b then sems h1 else [])) fine in
    let closed : sems_after (sems h1) (close h1).2 ≡ some [] =
      (close_memory-fds_sems h1 (sym (open_memory-fds h first).0 ∙ fine)).3 in
    let opening = (open_handler h first).2 in
    let closing = (close h1).2 in
    let reopening = (open_handler (close h1).1 second).2 in
    (
      sems_after-append [] (sems h1) opening closing opened ∙ closed,
      sems_after-append [] (sems h1) opening (closing ++ reopening) opened
          ∙ sems_after-append (sems h1) [] closing reopening closed
          ∙ stale_closes (close h1).1 second stale.0 fd stale.2 stale.1 o m,
    )

-- SharedMemory: the client takes no name of the memory or of a semaphore away, neither by `open`
-- nor by `close`.
pub memory_client_keeps_names :
    (h : SharedMemory) (r : Replies)
    → h.server ≡ false
    → (unlinks_any (open_handler h r).2 ≡ false) × (unlinks_any (close h).2 ≡ false)
unfolding open_handler close unlinks_any
memory_client_keeps_names h r e = ground arith

-- Opening leaves the buffer and the slot.
pub open_memory-kept :
    (h : SharedMemory) (r : Replies)
    → let (fine, h', calls) = open_handler h r in (h'.frame ≡ h.frame) × (h'.offset ≡ h.offset)
unfolding open_handler
open_memory-kept h r = ground arith
