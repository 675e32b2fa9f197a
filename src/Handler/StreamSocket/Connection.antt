-- ===== src/Handler/StreamSocket/Connection.antt =====
-- stream_socket.cpp: opening, accepting and closing.
use ipc_performance.Prelude.{
  ℕ, Bool, true, false, ◌&&◌, if◌then◌else◌, Option, none, some, List, [], ◌∷◌, ◌++◌,
}
use ipc_performance.Communication.Frame.{Frame}
use ipc_performance.Handler.Os.{Call, opens, closes, unlinks, has_fd, Poll, is_ready}
use ipc_performance.Handler.Sockets.{Address, Parameters, build_address, sun_path}

-- `cfd` is the client that the server has accepted.
pub record StreamSocket : Type 0 where
  pub parameters : Parameters
  pub address : Address
  pub sfd : Option ℕ
  pub cfd : Option ℕ
  pub frame : Frame

-- What the system answers to `open`: the descriptor of `socket`, the address that `inet_pton` makes, and
-- whether `bind`, `listen` and `connect` succeed.
pub record Replies : Type 0 where
  pub opened : Option ℕ
  pub parsed : Option ℕ
  pub bound : Bool
  pub listening : Bool
  pub connected : Bool

abbrev pub is_open : StreamSocket → Bool
is_open h = has_fd h.sfd

-- `create_server` behind `build_address`.
abbrev pub bind_server : StreamSocket → Replies → List Call → Bool × StreamSocket × List Call
bind_server h r made = (
  r.bound && r.listening,
  h,
  made ++ (if h.parameters.unix then unlinks (sun_path h.address) ∷ [] else []),
)

unfoldable pub create_server : StreamSocket → Replies → Bool × StreamSocket × List Call
create_server h r = elim r.opened [
  | none ↦ (false, record h { sfd = none }, [])
  | some fd ↦ elim (build_address h.parameters r.parsed) [
    | none ↦ (false, record h { sfd = some fd }, opens fd ∷ [])
    | some a ↦ bind_server (record h { sfd = some fd; address = a }) r (opens fd ∷ [])
  ]
]

unfoldable pub create_client : StreamSocket → Replies → Bool × StreamSocket × List Call
create_client h r = elim r.opened [
  | none ↦ (false, record h { sfd = none }, [])
  | some fd ↦ elim (build_address h.parameters r.parsed) [
    | none ↦ (false, record h { sfd = some fd }, opens fd ∷ [])
    | some a ↦ (r.connected, record h { sfd = some fd; address = a }, opens fd ∷ [])
  ]
]

unfoldable pub close : StreamSocket → Bool × StreamSocket × List Call
close h =
    let client : List Call = elim h.cfd [ none ↦ [] | some c ↦ closes c ∷ [] ] in
    let names =
      if h.parameters.unix && h.parameters.server then unlinks (sun_path h.address) ∷ [] else [] in
    elim h.sfd [
      | none ↦ (false, h, [])
      | some fd ↦ (true, record h { sfd = none; cfd = none }, closes fd ∷ (client ++ names))
    ]

-- `open` behind `create_server` or `create_client`: a failure closes the handler.
unfoldable pub keep_or_close : Bool × StreamSocket × List Call → Bool × StreamSocket × List Call
unfolding close
keep_or_close (true, h, made) = (true, h, made)
keep_or_close (false, h, made) = let (_, h1, calls) = close h in (false, h1, made ++ calls)

unfoldable pub open_handler : StreamSocket → Replies → Bool × StreamSocket × List Call
unfolding keep_or_close create_server create_client
open_handler h r =
    if is_open h
    then (true, h, [])
    else if h.parameters.server
    then keep_or_close (create_server h r)
    else keep_or_close (create_client h r)

-- `accept` on what `poll` and `accept4` answer. The client before is dropped first.
unfoldable pub accept : StreamSocket → Poll → Option ℕ → Bool × StreamSocket × List Call
accept h polled accepted =
    let dropped : List Call = elim h.cfd [ none ↦ [] | some c ↦ closes c ∷ [] ] in
    let h1 = record h { cfd = none } in
    if is_open h
    then (if is_ready polled
        then elim accepted [
          | none ↦ (false, h1, dropped)
          | some c ↦ (true, record h { cfd = some c }, dropped ++ (opens c ∷ []))
        ]
        else (false, h1, dropped))
    else (false, h, [])

-- `await_data`: it accepts a client if there is none, then polls it.
unfoldable pub await_data : StreamSocket → Poll → Option ℕ → Poll → Bool × StreamSocket × List Call
unfolding accept
await_data h polled accepted p =
    let (fine, h1, calls) = accept h polled accepted in
    if has_fd h.cfd then (is_ready p, h, []) else (fine && is_ready p, h1, calls)

unfoldable pub has_data : StreamSocket → Poll → Bool
has_data h p = has_fd h.cfd && is_ready p
