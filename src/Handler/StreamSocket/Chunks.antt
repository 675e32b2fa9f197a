-- ===== src/Handler/StreamSocket/Chunks.antt =====
-- stream_socket.cpp: a packet is read the same however the stream is cut into pieces.
use ipc_performance.Prelude.{
  ℕ, zero, suc, ◌+◌, ◌-◌, ◌≤◌, ◌<◌, ◌≡◌, refl, ap, ◌∙◌, List, [], ◌∷◌, ◌++◌, arith, take, drop,
  length, length-append, length-drop, take_all, dec_lt, lt→ltb, le→ltb, ne→==, lt→leb, le→leb,
}
use mathlib.Core.Path.{subst}
use ipc_performance.Prelude.Append.{append-inside, append-outside}
use ipc_performance.Prelude.Bytes.{memcpy, memcpy-append, memcpy-nil}
use ipc_performance.Handler.StreamSocket.Receive.{
  Event, chunk, nothing_yet, failure, end, leftover, Loop, filled, receive_header, receive_body,
}

-- The bytes that arrive.
abbrev pub payload : List Event → List ℕ
payload [] = []
payload (chunk bs ∷ events) = bs ++ payload events
payload (nothing_yet ∷ events) = payload events
payload (failure ∷ events) = payload events
payload (end ∷ events) = payload events

-- The stream only arrives in pieces, and neither fails nor ends.
abbrev pub Flows : List Event → Type 0
Flows [] = Unit {0}
Flows (chunk bs ∷ events) = (0 < length bs) × Flows events
Flows (nothing_yet ∷ events) = Flows events
Flows (failure ∷ events) = ⊥
Flows (end ∷ events) = ⊥

-- The loop has filled the buffer, and what follows is left.
pub record Fills (l : Loop) (buffer rest : List ℕ) : Type 0 where
  pub events : List Event
  pub ends : l ≡ filled buffer events
  pub flows : Flows events
  pub left : payload events ≡ rest

leftover-Flows :
    (bs : List ℕ) (n : ℕ) (events : List Event) → Flows events → Flows (leftover bs n events)
unfolding leftover
leftover-Flows bs n events f = elim (dec_lt n (length bs)) [
  | yes more ↦ rw (lt→leb (length bs) n more) (omega (arith, length-drop n bs), f)
  | no all ↦ rw (le→leb (length bs) n (omega arith)) f
]

drop_all : (n : ℕ) (bs : List ℕ) → length bs ≤ n → drop n bs ≡ []
drop_all zero [] h = refl
drop_all (suc n) [] h = refl
drop_all zero (b ∷ bs) h = absurd (omega arith)
drop_all (suc n) (b ∷ bs) h = drop_all n bs (omega arith)

payload-leftover :
    (bs : List ℕ) (n : ℕ) (events : List Event)
    → payload (leftover bs n events) ≡ drop n bs ++ payload events
unfolding leftover
payload-leftover bs n events = elim (dec_lt n (length bs)) [
  | yes more ↦ rw (lt→leb (length bs) n more)
  | no all ↦ rw (le→leb (length bs) n (omega arith), drop_all n bs (omega arith))
]

-- The first event is bytes.
abbrev pub Begun : List Event → Type 0
Begun (chunk bs ∷ events) = Unit {0}
Begun events = ⊥

-- What one piece does for a loop that needs the bytes `need`: it is a part of them, or it holds them.
module _ (bs : List ℕ) (events : List Event) (need rest : List ℕ)
    (p : payload (chunk bs ∷ events) ≡ need ++ rest) where
  more_needed :
      length bs < length need
      → (bs ++ drop (length bs) need ≡ need) × (payload events ≡ drop (length bs) need ++ rest)
  more_needed h = append-inside bs (payload events) need rest p (omega arith)

  last_piece :
      (n : ℕ)
      → n ≡ length need
      → length need ≤ length bs
      → Flows events
      → (take n bs ≡ need) × (payload (leftover bs n events) ≡ rest)
  last_piece n e h f =
      let cut : (take (length need) bs ≡ need) × (drop (length need) bs ++ payload events ≡ rest) =
        append-outside bs (payload events) need rest p h in
      rw e (cut.0, payload-leftover bs (length need) events ∙ cut.1)

-- The header loop collects the bytes that are missing, whatever the pieces, if the first byte is there.
pub receive_header-Fills :
    (buffer : List ℕ) (amount : ℕ) (events : List Event) (need rest : List ℕ)
    → Flows events
    → (amount ≡ 0 → Begun events)
    → amount < 16
    → amount + length need ≡ 16
    → payload events ≡ need ++ rest
    → Fills (receive_header buffer amount events) (memcpy buffer amount need) rest
unfolding receive_header
receive_header-Fills buffer amount [] need rest f begun lt e p =
    absurd (omega (arith, ap length p, length-append need rest))
receive_header-Fills buffer amount (nothing_yet ∷ events) need rest f begun lt e p =
    elim (dec_lt 0 amount) [
      | yes pos ↦
          rw (lt→ltb 0 amount pos) (
            receive_header-Fills buffer amount events need rest f (λ z. absurd (omega arith)) lt e
              p)
      | no z ↦ absurd (begun (omega arith))
    ]
receive_header-Fills buffer amount (failure ∷ events) need rest f begun lt e p = absurd f
receive_header-Fills buffer amount (end ∷ events) need rest f begun lt e p = absurd f
receive_header-Fills buffer amount (chunk bs ∷ events) need rest f begun lt e p =
    elim (dec_lt (length bs) (length need)) [
      | yes part ↦
          let cut : (bs ++ drop (length bs) need ≡ need)
              × (payload events ≡ drop (length bs) need ++ rest) =
            more_needed bs events need rest p part in
          rw
            (
              take_all (16 - amount) bs (omega arith),
              ne→== (length bs) 0 (omega (arith, f.0)),
              lt→ltb (amount + length bs) 16 (omega arith),
            )
            (subst
              (λ b.
                Fills (receive_header (memcpy buffer amount bs) (amount + length bs) events) b rest)
              (memcpy-append buffer amount bs (drop (length bs) need) (amount + length bs) refl
                ∙ ap (memcpy buffer amount) cut.0)
              (receive_header-Fills (memcpy buffer amount bs) (amount + length bs) events
                (drop (length bs) need) rest f.1 (λ z. absurd (omega (arith, f.0))) (omega arith)
                (omega (arith, length-drop (length bs) need)) cut.1))
      | no whole ↦
          let cut : (take (16 - amount) bs ≡ need)
              × (payload (leftover bs (16 - amount) events) ≡ rest) =
            last_piece bs events need rest p (16 - amount) (omega arith) (omega arith) f.1 in
          rw
            (
              cut.0,
              ne→== (length need) 0 (omega arith),
              le→ltb (amount + length need) 16 (omega arith),
            )
            (record {
              events = leftover bs (16 - amount) events;
              ends = refl;
              flows = leftover-Flows bs (16 - amount) events f.1;
              left = cut.1;
            })
    ]

nil_of_length : (bs : List ℕ) → length bs ≡ 0 → bs ≡ []
nil_of_length [] e = refl
nil_of_length (b ∷ bs) e = absurd (omega arith)

none_left :
    (buffer : List ℕ) (amount : ℕ) (events : List Event) (need rest : List ℕ)
    → Flows events
    → length need ≡ 0
    → payload events ≡ need ++ rest
    → Fills (filled buffer events) (memcpy buffer amount need) rest
none_left buffer amount events need rest f z p =
    rw (nil_of_length need z, memcpy-nil buffer amount)
      (record {
        events = events;
        ends = refl;
        flows = f;
        left = p ∙ ap (λ bs. bs ++ rest) (nil_of_length need z);
      })

-- So does the body loop.
pub receive_body-Fills :
    (buffer : List ℕ) (amount size : ℕ) (events : List Event) (need rest : List ℕ)
    → Flows events
    → size ≤ 528
    → amount + length need ≡ size
    → payload events ≡ need ++ rest
    → Fills (receive_body buffer amount size events) (memcpy buffer amount need) rest
unfolding receive_body
receive_body-Fills buffer amount size [] need rest f small e p =
    let none_needed : length need ≡ 0 = omega (arith, ap length p, length-append need rest) in
    rw (le→ltb amount size (omega arith)) (none_left buffer amount [] need rest f none_needed p)
receive_body-Fills buffer amount size (nothing_yet ∷ events) need rest f small e p =
    elim (dec_lt amount size) [
      | yes more ↦
          rw (lt→ltb amount size more)
            (receive_body-Fills buffer amount size events need rest f small e p)
      | no full ↦
          rw (le→ltb amount size (omega arith))
            (none_left buffer amount (nothing_yet ∷ events) need rest f (omega arith) p)
    ]
receive_body-Fills buffer amount size (failure ∷ events) need rest f small e p = absurd f
receive_body-Fills buffer amount size (end ∷ events) need rest f small e p = absurd f
receive_body-Fills buffer amount size (chunk bs ∷ events) need rest f small e p =
    elim (dec_lt amount size) [
      | no full ↦
          rw (le→leb size amount (omega arith))
            (none_left buffer amount (chunk bs ∷ events) need rest f (omega arith) p)
      | yes missing ↦ elim (dec_lt (length bs) (length need)) [
        | yes part ↦
            let cut : (bs ++ drop (length bs) need ≡ need)
                × (payload events ≡ drop (length bs) need ++ rest) =
              more_needed bs events need rest p part in
            rw
              (
                lt→leb size amount missing,
                take_all (size - amount) bs (omega arith),
                ne→== (length bs) 0 (omega (arith, f.0)),
                le→ltb 528 (amount + length bs) (omega arith),
                lt→ltb (amount + length bs) size (omega arith),
              )
              (subst
                (λ b.
                  Fills (receive_body (memcpy buffer amount bs) (amount + length bs) size events) b
                    rest)
                (memcpy-append buffer amount bs (drop (length bs) need) (amount + length bs) refl
                  ∙ ap (memcpy buffer amount) cut.0)
                (receive_body-Fills (memcpy buffer amount bs) (amount + length bs) size events
                  (drop (length bs) need) rest f.1 small
                  (omega (arith, length-drop (length bs) need)) cut.1))
        | no whole ↦
            let cut : (take (size - amount) bs ≡ need)
                × (payload (leftover bs (size - amount) events) ≡ rest) =
              last_piece bs events need rest p (size - amount) (omega arith) (omega arith) f.1 in
            rw
              (
                lt→leb size amount missing,
                cut.0,
                ne→== (length need) 0 (omega arith),
                le→ltb 528 (amount + length need) (omega arith),
                le→ltb (amount + length need) size (omega arith),
              )
              (record {
                events = leftover bs (size - amount) events;
                ends = refl;
                flows = leftover-Flows bs (size - amount) events f.1;
                left = cut.1;
              })
      ]
    ]
