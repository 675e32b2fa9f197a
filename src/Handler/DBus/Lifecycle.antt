-- ===== src/Handler/DBus/Lifecycle.antt =====
-- handler/dbus.cpp: what is taken from the library is given back.
use ipc_performance.Prelude.{
  ℕ, zero, suc, ◌≡◌, refl, inl, inr, Bool-cases, false, if◌then◌else◌, Option, none, some, List, [],
  ◌∷◌, arith, true, ◌==◌, ltb, length, drop, to_u16, to_u32,
}
use ipc_performance.Text.{stoull}
use ipc_performance.Object.DataType.{DataType, type_of}
use ipc_performance.Object.DataHeader.{DataHeader}
use ipc_performance.Communication.{
  DataObject, Outcome, Result, ok, err, with_header, deserialize_data_object,
}
use ipc_performance.Handler.Os.{held, remove}
use ipc_performance.Handler.DBus.{
  DBus, Arg, uint32, int64, byte_array, other_arg, BusCall, gets, drops, takes_message,
  drops_message, Seen, Replies, Answers, path_prefix, is_open, open_handler, close, write, read,
  read_call, read_args, read_timestamp, read_body, typed, returns,
}

-- The connections that are held after the calls.
unfoldable pub connections_after : List ℕ → List BusCall → List ℕ
unfolding remove
connections_after held [] = held
connections_after held (gets c ∷ calls) = connections_after (c ∷ held) calls
connections_after held (drops c ∷ calls) = connections_after (remove c held) calls
connections_after held (call ∷ calls) = connections_after held calls

-- The messages that are held after the calls, or `none` if one is given back that is not held.
unfoldable pub messages_after : ℕ → List BusCall → Option ℕ
messages_after n [] = some n
messages_after n (takes_message ∷ calls) = messages_after (suc n) calls
messages_after zero (drops_message ∷ calls) = none
messages_after (suc n) (drops_message ∷ calls) = messages_after n calls
messages_after n (call ∷ calls) = messages_after n calls

-- DBus: whatever the library answers, `open` returns whether there is a connection afterwards, and just
-- that connection is held: where the name has another owner it has been given back.
pub open_bus-connections :
    (h : DBus) (r : Replies)
    → let (fine, h', calls) = open_handler h r in
      (fine ≡ is_open h') × (connections_after (held h.con) calls ≡ held h'.con)
unfolding open_handler connections_after remove
open_bus-connections h r = ground arith

-- DBus: `close` returns whether there was a connection, and afterwards none is held.
pub close_bus-connections :
    (h : DBus)
    → let (fine, h', calls) = close h in
      (fine ≡ is_open h) × (is_open h' ≡ false) × (connections_after (held h.con) calls ≡ [])
unfolding close connections_after remove
close_bus-connections h = ground arith

-- DBus: `write` gives back the message that it takes, on every branch.
pub write_bus-messages :
    (h : DBus) (o : DataObject) (timestamp : ℕ) (a : Answers)
    → messages_after 0 (write h o timestamp a).2 ≡ some 0
unfolding write messages_after
write_bus-messages h o timestamp a = ground arith

-- What the rest of `read` leaves of the one message that it holds, and of the connections.
abbrev pub Rest : Outcome × List BusCall → Type 0
Rest r =
    (messages_after 1 r.1 ≡ some (if returns r.0 then 0 else 1))
    × ((hs : List ℕ) → connections_after hs r.1 ≡ hs)

with_header-returns : (h : DataHeader) (r : Result DataObject) → returns (with_header h r) ≡ true
unfolding with_header
with_header-returns h (ok o) = refl
with_header-returns h (err e) = refl

read_body-Rest :
    (type : DataType) (id timestamp : ℕ) (args : List Arg) → Rest (read_body type id timestamp args)
unfolding read_body connections_after messages_after
read_body-Rest type id timestamp [] = (refl, λ hs. refl)
read_body-Rest type id timestamp (byte_array bytes ∷ args) = (
  rw (with_header-returns _ (deserialize_data_object type bytes (to_u32 (length bytes)))) refl,
  λ hs. refl,
)
read_body-Rest type id timestamp (uint32 n ∷ args) = (refl, λ hs. refl)
read_body-Rest type id timestamp (int64 n ∷ args) = (refl, λ hs. refl)
read_body-Rest type id timestamp (other_arg ∷ args) = (refl, λ hs. refl)

read_timestamp-Rest :
    (type : DataType) (id : ℕ) (args : List Arg) → Rest (read_timestamp type id args)
unfolding read_timestamp connections_after messages_after
read_timestamp-Rest type id [] = (refl, λ hs. refl)
read_timestamp-Rest type id (byte_array bytes ∷ args) = (refl, λ hs. refl)
read_timestamp-Rest type id (uint32 n ∷ args) = (refl, λ hs. refl)
read_timestamp-Rest type id (int64 n ∷ args) = read_body-Rest type id n args
read_timestamp-Rest type id (other_arg ∷ args) = (refl, λ hs. refl)

read_args-Rest : (type : DataType) (args : List Arg) → Rest (read_args type args)
unfolding read_args connections_after messages_after
read_args-Rest type [] = (refl, λ hs. refl)
read_args-Rest type (byte_array bytes ∷ args) = (refl, λ hs. refl)
read_args-Rest type (uint32 n ∷ args) = read_timestamp-Rest type n args
read_args-Rest type (int64 n ∷ args) = (refl, λ hs. refl)
read_args-Rest type (other_arg ∷ args) = (refl, λ hs. refl)

typed-Rest : (n : Option ℕ) (args : List Arg) → Rest (typed n args)
unfolding connections_after messages_after
typed-Rest none args = (refl, λ hs. refl)
typed-Rest (some n) args = read_args-Rest (type_of (to_u16 n)) args

read_call-Rest : (m : Seen) → Rest (read_call m)
unfolding read_call connections_after messages_after
read_call-Rest m = elim (Bool-cases (length m.args == 0)) [
  | inl e ↦ rw e (refl, λ hs. refl)
  | inr e ↦ elim (Bool-cases (ltb (length m.path) (length path_prefix))) [
    | inl l ↦ rw (e, l) (refl, λ hs. refl)
    | inr l ↦ rw (e, l) (typed-Rest (stoull 10 (drop (length path_prefix) m.path)) m.args)
  ]
]

-- DBus: `read` gives back the message that it takes if it returns, and keeps it if it does not.
pub read_bus-messages :
    (h : DBus) (popped : Option Seen)
    → let (outcome, h', calls) = read h popped in
      messages_after 0 calls ≡ some (if returns outcome then 0 else 1)
unfolding read messages_after
read_bus-messages h none = ground arith
read_bus-messages h (some m) = elim (Bool-cases (is_open h)) [
  | inr e ↦ rw e refl
  | inl e ↦ elim (Bool-cases m.is_call) [
    | inr c ↦ rw (e, c) refl
    | inl c ↦ rw (e, c) ((read_call-Rest m).0)
  ]
]

pub read_bus-connections :
    (h : DBus) (popped : Option Seen)
    → let (outcome, h', calls) = read h popped in connections_after (held h.con) calls ≡ held h'.con
unfolding read connections_after
read_bus-connections h none = ground arith
read_bus-connections h (some m) = elim (Bool-cases (is_open h)) [
  | inr e ↦ rw e refl
  | inl e ↦ elim (Bool-cases m.is_call) [
    | inr c ↦ rw (e, c) refl
    | inl c ↦ rw (e, c) ((read_call-Rest m).1 (held h.con))
  ]
]
