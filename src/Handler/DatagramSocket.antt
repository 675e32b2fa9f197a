-- ===== src/Handler/DatagramSocket.antt =====
-- handler/datagram_socket.cpp: a Unix or Internet domain socket that keeps messages whole.
pub mod Lifecycle
pub mod Transfer
pub mod Opened
use ipc_performance.Prelude.{
  ℕ, ◌+◌, Bool, true, false, ◌&&◌, not, if◌then◌else◌, Option, none, some, List, [], ◌∷◌, ◌++◌,
  take,
}
use ipc_performance.Communication.{DataObject, connection_closed, Outcome, failed}
use ipc_performance.Communication.Frame.{Frame, pack}
use ipc_performance.Handler.Os.{
  Call, opens, closes, unlinks, has_fd, Poll, is_ready, Received, received, again, broken,
}
use ipc_performance.Handler.Datagrams.{take_datagram}
use ipc_performance.Handler.Sockets.{Address, Parameters, build_address, sun_path}

pub record DatagramSocket : Type 0 where
  pub parameters : Parameters
  pub address : Address
  pub sfd : Option ℕ
  pub frame : Frame

-- What the system answers to `open`: the descriptor of `socket`, the address that `inet_pton` makes, and
-- whether `bind` succeeds.
pub record Replies : Type 0 where
  pub opened : Option ℕ
  pub parsed : Option ℕ
  pub bound : Bool

abbrev pub is_open : DatagramSocket → Bool
is_open h = has_fd h.sfd

-- `create_server` behind `build_address`.
abbrev bind_server : DatagramSocket → Replies → List Call → Bool × DatagramSocket × List Call
bind_server h r made =
    (r.bound, h, made ++ (if h.parameters.unix then unlinks (sun_path h.address) ∷ [] else []))

unfoldable pub create_server : DatagramSocket → Replies → Bool × DatagramSocket × List Call
create_server h r = elim r.opened [
  | none ↦ (false, record h { sfd = none }, [])
  | some fd ↦ elim (build_address h.parameters r.parsed) [
    | none ↦ (false, record h { sfd = some fd }, opens fd ∷ [])
    | some a ↦ bind_server (record h { sfd = some fd; address = a }) r (opens fd ∷ [])
  ]
]

unfoldable pub create_client : DatagramSocket → Replies → Bool × DatagramSocket × List Call
create_client h r = elim r.opened [
  | none ↦ (false, record h { sfd = none }, [])
  | some fd ↦ elim (build_address h.parameters r.parsed) [
    | none ↦ (false, record h { sfd = some fd }, opens fd ∷ [])
    | some a ↦ (true, record h { sfd = some fd; address = a }, opens fd ∷ [])
  ]
]

unfoldable pub close : DatagramSocket → Bool × DatagramSocket × List Call
close h = elim h.sfd [
  | none ↦ (false, h, [])
  | some fd ↦ (
    true,
    record h { sfd = none },
    closes fd
        ∷ (if h.parameters.unix && h.parameters.server
            then unlinks (sun_path h.address) ∷ []
            else []),
  )
]

-- `open` behind `create_server` or `create_client`: a failure closes the handler.
unfoldable pub keep_or_close : Bool × DatagramSocket × List Call → Bool × DatagramSocket × List Call
unfolding close
keep_or_close (true, h, made) = (true, h, made)
keep_or_close (false, h, made) = let (_, h1, calls) = close h in (false, h1, made ++ calls)

unfoldable pub open_handler : DatagramSocket → Replies → Bool × DatagramSocket × List Call
unfolding keep_or_close create_server create_client
open_handler h r =
    if is_open h
    then (true, h, [])
    else if h.parameters.server
    then keep_or_close (create_server h r)
    else keep_or_close (create_client h r)

-- `await_data` and `has_data` differ in how long `poll` waits.
unfoldable pub await_data : DatagramSocket → Poll → Bool
await_data h p = is_open h && is_ready p

unfoldable pub has_data : DatagramSocket → Poll → Bool
has_data h p = is_open h && is_ready p

-- The option is what is handed to `sendto`, and to which address; it answers `accepted`.
unfoldable pub write :
    DatagramSocket → DataObject → ℕ → Bool → Bool × DatagramSocket × Option (List ℕ × Address)
write h o timestamp accepted =
    let (packed, frame) = pack h.frame o timestamp in
    let h1 = record h { frame = frame } in
    if not (is_open h) then (false, h, none) else elim packed [
      | none ↦ (false, h1, none)
      | some size ↦ (accepted, h1, some (take (16 + size) frame.buffer, h.address))
    ]

-- `recvfrom` from the datagrams that have arrived, oldest first; of one that is longer than the buffer
-- the rest is lost.
unfoldable pub recvfrom : List (List ℕ) → Bool → Received × List (List ℕ)
recvfrom [] fails = if fails then (broken, []) else (again, [])
recvfrom (m ∷ queue) fails = if fails then (broken, m ∷ queue) else (received (take 528 m), queue)

unfoldable pub read :
    DatagramSocket → List (List ℕ) → Bool → Outcome × DatagramSocket × List (List ℕ)
read h queue fails =
    let (answer, rest) = recvfrom queue fails in
    let (outcome, frame) = take_datagram h.frame answer in
    if is_open h
    then (outcome, record h { frame = frame }, rest)
    else (failed connection_closed, h, queue)
