-- ===== src/Handler/StreamSocket/Returns.antt =====
-- stream_socket.cpp: the loops of `read` come to an end.
use ipc_performance.Prelude.{
  ℕ, suc, ◌+◌, ◌-◌, ◌^◌, ◌≤◌, ◌<◌, ◌≡◌, refl, ◌∙◌, Bool, true, false, List, [], ◌∷◌, arith, take,
  length, Option-cases, inl, inr, dec_lt, lt→ltb, le→ltb, ne→==, eq→==, lt→leb, le→leb, ℕ_discrete,
}
use ipc_performance.Prelude.Bytes.{IsBytes, memcpy, length-memcpy}
use ipc_performance.Prelude.Windows.{IsBytes-take, IsBytes-drop, IsBytes-memcpy}
use ipc_performance.Object.DataHeader.{DataHeader}
use ipc_performance.Object.DataHeader.Wire.{deserialize_header_sound}
use ipc_performance.Communication.{
  Outcome, waiting, with_header, Result, ok, err, deserialize_data_object, DataObject,
}
use ipc_performance.Handler.StreamSocket.{read}
use ipc_performance.Handler.StreamSocket.Connection.{StreamSocket}
use ipc_performance.Handler.StreamSocket.Receive.{
  Event, chunk, nothing_yet, failure, end, leftover, Loop, filled, stopped, receive_header,
  receive_body, receive_packet, finish_header, finish_body,
}

abbrev pub is_waiting : Outcome → Bool
is_waiting waiting = true
is_waiting outcome = false

-- The calls of `recv` that find more than EAGAIN.
abbrev pub answers : List Event → ℕ
answers [] = 0
answers (nothing_yet ∷ events) = answers events
answers (event ∷ events) = suc (answers events)

abbrev pub AllBytes : List Event → Type 0
AllBytes [] = Unit {0}
AllBytes (chunk bs ∷ events) = IsBytes bs × AllBytes events
AllBytes (event ∷ events) = AllBytes events

-- The loop does not wait for ever, and `n` answers are left behind it.
abbrev Goes : ℕ → ℕ → Loop → Type 0
Goes n room (stopped outcome buffer events) = is_waiting outcome ≡ false
Goes n room (filled buffer events) =
    (n ≤ answers events) × IsBytes buffer × (length buffer ≡ room) × AllBytes events

leftover-answers :
    (bs : List ℕ) (n : ℕ) (events : List Event) → answers events ≤ answers (leftover bs n events)
unfolding leftover
leftover-answers bs n events = elim (dec_lt n (length bs)) [
  | yes more ↦ rw (lt→leb (length bs) n more) (omega arith)
  | no all ↦ rw (le→leb (length bs) n (omega arith)) (omega arith)
]

leftover-AllBytes :
    (bs : List ℕ) (n : ℕ) (events : List Event)
    → IsBytes bs
    → AllBytes events
    → AllBytes (leftover bs n events)
unfolding leftover
leftover-AllBytes bs n events b a = elim (dec_lt n (length bs)) [
  | yes more ↦ rw (lt→leb (length bs) n more) (IsBytes-drop n bs b, a)
  | no all ↦ rw (le→leb (length bs) n (omega arith)) a
]

receive_header-Goes :
    (n room : ℕ) (buffer : List ℕ) (amount : ℕ) (events : List Event)
    → IsBytes buffer
    → length buffer ≡ room
    → AllBytes events
    → 16 + n ≤ amount + answers events
    → amount < 16
    → Goes n room (receive_header buffer amount events)
unfolding receive_header
receive_header-Goes n room buffer amount [] b l a h w = absurd (omega arith)
receive_header-Goes n room buffer amount (nothing_yet ∷ events) b l a h w = elim (dec_lt 0 amount) [
  | yes p ↦ rw (lt→ltb 0 amount p) (receive_header-Goes n room buffer amount events b l a h w)
  | no p ↦ rw (le→ltb 0 amount (omega arith)) refl
]
receive_header-Goes n room buffer amount (failure ∷ events) b l a h w = refl
receive_header-Goes n room buffer amount (end ∷ events) b l a h w = refl
receive_header-Goes n room buffer amount (chunk bs ∷ events) b l a h w =
    let got : List ℕ = take (16 - amount) bs in
    let b1 : IsBytes (memcpy buffer amount got) =
      IsBytes-memcpy buffer amount got b (IsBytes-take (16 - amount) bs a.0) in
    let l1 : length (memcpy buffer amount got) ≡ room = length-memcpy buffer amount got ∙ l in
    elim (ℕ_discrete (length got) 0) [
      | yes z ↦ rw (eq→== (length got) 0 z) refl
      | no nz ↦ elim (dec_lt (amount + length got) 16) [
        | yes more ↦
            rw (ne→== (length got) 0 nz, lt→ltb (amount + length got) 16 more)
              (receive_header-Goes n room (memcpy buffer amount got) (amount + length got) events b1
                l1 a.1 (omega arith) more)
        | no full ↦
            rw (ne→== (length got) 0 nz, le→ltb (amount + length got) 16 (omega arith))
              (
                omega (arith, leftover-answers bs (16 - amount) events),
                b1,
                l1,
                leftover-AllBytes bs (16 - amount) events a.0 a.1,
              )
      ]
    ]

-- The body loop does not wait for ever either.
abbrev Stops : Loop → Type 0
Stops (stopped outcome buffer events) = is_waiting outcome ≡ false
Stops (filled buffer events) = Unit {0}

receive_body-Stops :
    (buffer : List ℕ) (amount size : ℕ) (events : List Event)
    → size ≤ amount + answers events
    → Stops (receive_body buffer amount size events)
unfolding receive_body
receive_body-Stops buffer amount size [] h = rw (le→ltb amount size (omega arith)) tt
receive_body-Stops buffer amount size (nothing_yet ∷ events) h = elim (dec_lt amount size) [
  | yes p ↦ rw (lt→ltb amount size p) (receive_body-Stops buffer amount size events h)
  | no p ↦ rw (le→ltb amount size (omega arith)) tt
]
receive_body-Stops buffer amount size (failure ∷ events) h = elim (dec_lt amount size) [
  | yes p ↦ rw (lt→ltb amount size p) refl
  | no p ↦ rw (le→ltb amount size (omega arith)) tt
]
receive_body-Stops buffer amount size (end ∷ events) h = elim (dec_lt amount size) [
  | yes p ↦ rw (lt→ltb amount size p) refl
  | no p ↦ rw (le→ltb amount size (omega arith)) tt
]
receive_body-Stops buffer amount size (chunk bs ∷ events) h =
    let got : List ℕ = take (size - amount) bs in
    elim (dec_lt amount size) [
      | no p ↦ rw (le→leb size amount (omega arith)) tt
      | yes p ↦ elim (ℕ_discrete (length got) 0) [
        | yes z ↦ rw (lt→leb size amount p, eq→== (length got) 0 z) refl
        | no nz ↦ elim (dec_lt 528 (amount + length got)) [
          | yes o ↦
              rw (lt→leb size amount p, ne→== (length got) 0 nz, lt→ltb 528 (amount + length got) o)
                refl
          | no o ↦ elim (dec_lt (amount + length got) size) [
            | yes more ↦
                rw
                  (
                    lt→leb size amount p,
                    ne→== (length got) 0 nz,
                    le→ltb 528 (amount + length got) (omega arith),
                    lt→ltb (amount + length got) size more,
                  )
                  (receive_body-Stops (memcpy buffer amount got) (amount + length got) size events
                    (omega arith))
            | no full ↦
                rw
                  (
                    lt→leb size amount p,
                    ne→== (length got) 0 nz,
                    le→ltb 528 (amount + length got) (omega arith),
                    le→ltb (amount + length got) size (omega arith),
                  )
                  tt
          ]
        ]
      ]
    ]

with_header-Stops : (h : DataHeader) (r : Result DataObject) → is_waiting (with_header h r) ≡ false
unfolding with_header
with_header-Stops h (ok o) = refl
with_header-Stops h (err e) = refl

finish_body-Stops : (h : DataHeader) (l : Loop) → Stops l → is_waiting (finish_body h l).0 ≡ false
finish_body-Stops h (stopped outcome buffer events) s = s
finish_body-Stops h (filled buffer events) s =
    with_header-Stops h (deserialize_data_object h.type buffer h.body_size)

finish_header-Goes : (l : Loop) → Goes (2 ^ 16 - 1) 528 l → is_waiting (finish_header l).0 ≡ false
finish_header-Goes (stopped outcome buffer events) g = g
finish_header-Goes (filled buffer events) g =
    let (h, found, valid, image) =
      deserialize_header_sound buffer 16 g.1 (omega arith) (omega (arith, g.2)) in
    rw found (
      finish_body-Stops h (receive_body buffer 0 h.body_size events)
        (receive_body-Stops buffer 0 h.body_size events (omega (arith, g.0, valid.body_size_fits))))

-- StreamSocket: `read` comes to its end, whatever arrives: with a buffer of 528 bytes and bytes
-- in the pieces, it has returned or broken off at the latest when `recv` has answered 16 + 65535
-- times with anything but EAGAIN, however often it has answered EAGAIN in between.
pub read_stream-returns :
    (h : StreamSocket) (events : List Event)
    → IsBytes h.frame.buffer
    → length h.frame.buffer ≡ 528
    → AllBytes events
    → 16 + (2 ^ 16 - 1) ≤ answers events
    → is_waiting (read h events).0 ≡ false
unfolding read receive_packet
read_stream-returns h events b l a n =
    let returned : is_waiting (receive_packet h.frame.buffer events).0 ≡ false =
      finish_header-Goes (receive_header h.frame.buffer 0 events) (
        receive_header-Goes (2 ^ 16 - 1) 528 h.frame.buffer 0 events b l a (omega arith)
          (omega arith)) in
    elim (Option-cases h.cfd) [ inl e ↦ rw e refl | inr (fd, e) ↦ rw e returned ]
