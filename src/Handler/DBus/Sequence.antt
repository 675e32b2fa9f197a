-- ===== src/Handler/DBus/Sequence.antt =====
-- handler/dbus.cpp: whatever is called, in any order, the connections are those that the handler names.
use ipc_performance.Prelude.{
  ℕ, ◌≡◌, refl, Bool, true, if◌then◌else◌, some, Option, List, [], ◌∷◌, ◌++◌, arith,
}
use ipc_performance.Communication.{DataObject}
use ipc_performance.Handler.Os.{held, remove}
use ipc_performance.Handler.Sequence.{sequence, sequence-exact}
use ipc_performance.Handler.DBus.{
  DBus, BusCall, gets, requests_name, releases_name, flushes, drops, takes_message, sends,
  drops_message, Seen, Replies, Answers, open_handler, close, write, read, returns,
}
use ipc_performance.Handler.DBus.Lifecycle.{
  connections_after, messages_after, open_bus-connections, write_bus-messages, read_bus-messages,
  read_bus-connections,
}

-- The operations, with what the library answers to each.
pub data Op : Type 0 where
  open_op : Replies → Op
  write_op : DataObject → ℕ → Answers → Op
  read_op : Option Seen → Op
  close_op : Op

unfoldable pub step : DBus → Op → DBus × List BusCall
step h (open_op r) = let (fine, h1, calls) = open_handler h r in (h1, calls)
step h (write_op o timestamp a) = let (fine, h1, calls) = write h o timestamp a in (h1, calls)
step h (read_op popped) = let (outcome, h1, calls) = read h popped in (h1, calls)
step h close_op = let (fine, h1, calls) = close h in (h1, calls)

-- Whether the operation comes to its end.
abbrev pub finishes : DBus → Op → Bool
finishes h (read_op popped) = returns (read h popped).0
finishes h op = true

abbrev pub connections : DBus → List ℕ
connections h = held h.con

pub connections_after-append :
    (hs : List ℕ) (xs ys : List BusCall)
    → connections_after hs (xs ++ ys) ≡ connections_after (connections_after hs xs) ys
unfolding connections_after
connections_after-append hs [] ys = refl
connections_after-append hs (gets c ∷ xs) ys = connections_after-append (c ∷ hs) xs ys
connections_after-append hs (drops c ∷ xs) ys = connections_after-append (remove c hs) xs ys
connections_after-append hs (requests_name n ∷ xs) ys = connections_after-append hs xs ys
connections_after-append hs (releases_name n ∷ xs) ys = connections_after-append hs xs ys
connections_after-append hs (flushes ∷ xs) ys = connections_after-append hs xs ys
connections_after-append hs (takes_message ∷ xs) ys = connections_after-append hs xs ys
connections_after-append hs (sends b ∷ xs) ys = connections_after-append hs xs ys
connections_after-append hs (drops_message ∷ xs) ys = connections_after-append hs xs ys

write-exact :
    (h : DBus) (o : DataObject) (timestamp : ℕ) (a : Answers)
    → connections_after (connections h) (write h o timestamp a).2
      ≡ connections (write h o timestamp a).1
unfolding write connections_after
write-exact h o timestamp a = ground arith

pub close_bus-exact :
    (h : DBus) → connections_after (connections h) (close h).2 ≡ connections (close h).1
unfolding close connections_after remove
close_bus-exact h = ground arith

open-messages : (h : DBus) (r : Replies) → messages_after 0 (open_handler h r).2 ≡ some 0
unfolding open_handler messages_after
open-messages h r = ground arith

close-messages : (h : DBus) → messages_after 0 (close h).2 ≡ some 0
unfolding close messages_after
close-messages h = ground arith

step-exact :
    (h : DBus) (op : Op)
    → Unit {0}
    → (connections_after (connections h) (step h op).1 ≡ connections (step h op).0) × Unit {0}
unfolding step
step-exact h (open_op r) u = ((open_bus-connections h r).1, tt)
step-exact h (write_op o timestamp a) u = (write-exact h o timestamp a, tt)
step-exact h (read_op popped) u = (read_bus-connections h popped, tt)
step-exact h close_op u = (close_bus-exact h, tt)

-- DBus: behind every sequence of `open`, `write`, `read` and `close`, whatever the library
-- answers, the process holds just the connection that the handler names, if it names one.
pub run_bus-exact :
    (h : DBus) (ops : List Op)
    → let (h', calls) = sequence step h ops in
      connections_after (connections h) calls ≡ connections h'
unfolding connections_after
run_bus-exact h ops =
    (sequence-exact step connections_after connections_after-append nothing connections
      (λ h. Unit {0}) step-exact h ops tt).0
  where
    nothing : (hs : List ℕ) → connections_after hs [] ≡ hs
    nothing hs = refl

-- DBus: each operation gives back every message that it takes, on all branches, and gives back
-- none that it has not taken, but for a `read` that does not come to its end: that keeps the one
-- message that it took.
pub step-messages :
    (h : DBus) (op : Op) → messages_after 0 (step h op).1 ≡ some (if finishes h op then 0 else 1)
unfolding step
step-messages h (open_op r) = open-messages h r
step-messages h (write_op o timestamp a) = write_bus-messages h o timestamp a
step-messages h (read_op popped) = read_bus-messages h popped
step-messages h close_op = close-messages h
