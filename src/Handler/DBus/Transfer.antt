-- ===== src/Handler/DBus/Transfer.antt =====
-- handler/dbus.cpp: a pair of handlers is a queue, if the bus hands on the messages as they are. `read` sees
-- what the connection has received, and only `has_data` and `await_data` let it receive.
use mathlib.Core.Path.{subst}
use ipc_performance.Prelude.{
  ℕ, ◌<◌, ◌≡◌, refl, ap, ◌∙◌, sym, Bool, true, false, not, if◌then◌else◌, append_assoc, append-nil,
  none, some, List, [], ◌∷◌, ◌++◌, length, map, map-append,
}
use ipc_performance.Communication.{DataObject, Outcome, failed, no_data_available}
use ipc_performance.Communication.Frame.Wire.{next_id}
use ipc_performance.Handler.Message.{Message, delivered, AllFit, AllFit-append}
use ipc_performance.Handler.Link.{Sendable, numbered, numbered-Fits, Link}
use ipc_performance.Handler.DBus.Call.{
  sent, call_of, no_failure, read_call-call_of, Written, write-Written,
}
use ipc_performance.Handler.DBus.{
  DBus, Built, Seen, interface_name, method_name, is_open, write, read, has_data,
}

-- A writer, a reader, the messages on the bus, and those that the reader's connection has received, which
-- `dbus_connection_pop_message` takes.
pub record State : Type 0 where
  pub w : DBus
  pub r : DBus
  pub bus : List Built
  pub incoming : List Seen

unfoldable pub send : State → DataObject → ℕ → Bool × State
send s o timestamp =
    let (fine, w, calls) = write s.w o timestamp no_failure in
    (fine, record s { w = w; bus = s.bus ++ sent calls })

abbrev pub is_empty : List Seen → Bool
is_empty [] = true
is_empty (m ∷ ms) = false

-- `read` with what `dbus_connection_pop_message` finds.
unfoldable pub pop : State → Outcome × State
pop s = elim s.incoming [
  | [] ↦ let (outcome, r, calls) = read s.r none in (outcome, record s { r = r })
  | m ∷ incoming ↦
      let (outcome, r, calls) = read s.r (some m) in
      (outcome, record s { r = r; incoming = incoming })
]

append_empty : {A : Type 0} (xs ys : List A) → xs ++ ys ≡ [] → (xs ≡ []) × (ys ≡ [])
append_empty [] ys e = (refl, e)
append_empty (x ∷ xs) ys e = absurd (cc)

-- `deliver` is what the bus makes of a message until `read` sees it, `reaches` whether a message to a
-- destination goes to the connection that owns a name.
module _ (deliver : Built → Seen) (reaches : List ℕ → List ℕ → Bool)
    (reaches_law : (name : List ℕ) → reaches name name ≡ true)
    (path_law : (b : Built) → (deliver b).path ≡ b.path)
    (args_law : (b : Built) → (deliver b).args ≡ b.args)
    (call_law : (b : Built)
      → b.interface ≡ interface_name
      → b.method ≡ method_name
      → (deliver b).is_call ≡ true) where
  -- What the bus hands to the connection that owns the name.
  unfoldable pub routed : List ℕ → List Built → List Seen
  routed name [] = []
  routed name (b ∷ bus) =
      if reaches b.destination name then deliver b ∷ routed name bus else routed name bus

  -- `has_data`: `dbus_connection_read_write` lets the connection receive what is on the bus.
  unfoldable pub poll : State → Bool × State
  poll s =
      let incoming = s.incoming ++ routed s.r.name s.bus in
      if is_open s.r
      then (has_data s.r true (not (is_empty incoming)), record s { bus = []; incoming = incoming })
      else (has_data s.r true false, s)

  -- `has_data`, then `read`.
  unfoldable pub receive : State → Outcome × State
  receive s = let (there, s1) = poll s in pop s1

  -- `read` without `has_data` or `await_data` does not find what is only on the bus.
  pub pop-no_data :
      (s : State) → is_open s.r ≡ true → s.incoming ≡ [] → (pop s).0 ≡ failed no_data_available
  unfolding pop read
  pop-no_data s o e = rw (e, o)

  abbrev Addressed : List ℕ → List Built → Type 0
  Addressed name [] = Unit {0}
  Addressed name (b ∷ bus) = (reaches b.destination name ≡ true) × Addressed name bus

  abbrev seen_of : List ℕ → Message → Seen
  seen_of name m = deliver (call_of name m)

  -- Both are open under one name, and the messages `q` are received or on the bus, addressed to it.
  pub record Holds (s : State) (q : List Message) : Type 0 where
    pub w_open : is_open s.w ≡ true
    pub r_open : is_open s.r ≡ true
    pub same_name : s.w.name ≡ s.r.name
    pub w_buffer : length s.w.frame.buffer ≡ 528
    pub queued : s.incoming ++ map deliver s.bus ≡ map (seen_of s.r.name) q
    pub addressed : Addressed s.r.name s.bus
    pub fit : AllFit q

  routed-Addressed :
      (name : List ℕ) (bus : List Built) → Addressed name bus → routed name bus ≡ map deliver bus
  unfolding routed
  routed-Addressed name [] a = refl
  routed-Addressed name (b ∷ bus) a = rw a.0 (ap (◌∷◌ (deliver b)) (routed-Addressed name bus a.1))

  Addressed-append :
      (name : List ℕ) (bus : List Built) (b : Built)
      → Addressed name bus
      → reaches b.destination name ≡ true
      → Addressed name (bus ++ b ∷ [])
  Addressed-append name [] b a e = (e, tt)
  Addressed-append name (c ∷ bus) b a e = (a.0, Addressed-append name bus b a.1 e)

  pub send_law :
      (capacity : ℕ) (s : State) (q : List Message) (o : DataObject) (timestamp : ℕ)
      → Holds s q
      → Sendable o timestamp
      → length q < capacity
      → ((send s o timestamp).0 ≡ true)
        × Holds (send s o timestamp).1 (q ++ numbered s.w.frame.last_id o timestamp ∷ [])
        × ((send s o timestamp).1.w.frame.last_id ≡ next_id s.w.frame.last_id)
  unfolding send
  send_law capacity s q o timestamp h d free =
      let m : Message = numbered s.w.frame.last_id o timestamp in
      let b : Built = call_of s.w.name m in
      let p : Written s.w o timestamp (write s.w o timestamp no_failure) =
        write-Written s.w o timestamp h.w_open h.w_buffer d.size_fits in
      let last : seen_of s.w.name m ≡ seen_of s.r.name m =
        ap (λ name. seen_of name m) h.same_name in
      (
        p.fine,
        record {
          w_open = p.con ∙ h.w_open;
          r_open = h.r_open;
          same_name = p.name ∙ h.same_name;
          w_buffer = p.room ∙ h.w_buffer;
          queued =
              ap (λ bs. s.incoming ++ map deliver (s.bus ++ bs)) p.calls
              ∙ ap (λ xs. s.incoming ++ xs) (map-append deliver s.bus (b ∷ []))
              ∙ sym (append_assoc s.incoming (map deliver s.bus) (deliver b ∷ []))
              ∙ ap (λ xs. xs ++ deliver b ∷ []) h.queued
              ∙ ap (λ x. map (seen_of s.r.name) q ++ x ∷ []) last
              ∙ sym (map-append (seen_of s.r.name) q (m ∷ []));
          addressed =
              subst (λ bs. Addressed s.r.name (s.bus ++ bs)) (sym p.calls)
                (Addressed-append s.r.name s.bus b h.addressed (
                  subst (λ name. reaches s.w.name name ≡ true) h.same_name (reaches_law s.w.name)));
          fit = AllFit-append q m h.fit (numbered-Fits s.w.frame.last_id o timestamp d);
        },
        p.counted,
      )

  pub receive_law :
      (s : State) (m : Message) (q : List Message)
      → Holds s (m ∷ q)
      → ((receive s).0 ≡ delivered m)
        × Holds (receive s).1 q
        × ((receive s).1.w.frame.last_id ≡ s.w.frame.last_id)
  unfolding receive poll pop read
  receive_law s m q h =
      let b : Built = call_of s.r.name m in
      rw
        (
          h.r_open,
          routed-Addressed s.r.name s.bus h.addressed,
          h.queued,
          h.r_open,
          call_law b refl refl,
          read_call-call_of s.r.name m (deliver b) h.fit.0 (path_law b) (args_law b),
        )
        (
          refl,
          record {
            w_open = h.w_open;
            r_open = h.r_open;
            same_name = h.same_name;
            w_buffer = h.w_buffer;
            queued = append-nil (map (seen_of s.r.name) q);
            addressed = tt;
            fit = h.fit.1;
          },
          refl,
        )

  pub empty_law : (s : State) → Holds s [] → receive s ≡ (failed no_data_available, s)
  unfolding receive poll pop read
  empty_law s h =
      let none_left = append_empty s.incoming (map deliver s.bus) h.queued in
      rw (h.r_open, routed-Addressed s.r.name s.bus h.addressed, h.queued, h.r_open)
        (ap (λ t. (failed no_data_available, t)) (same s none_left.0 (unmapped s.bus none_left.1)))
    where
      unmapped : (bus : List Built) → map deliver bus ≡ [] → bus ≡ []
      unmapped [] e = refl
      unmapped (b ∷ bus) e = absurd (cc)

      same : (s : State) → s.incoming ≡ [] → s.bus ≡ [] → record s { bus = []; incoming = [] } ≡ s
      same s e f = λ i. record s { bus = sym f i; incoming = sym e i }

  -- A pair of handlers as a link: the bus keeps any number of messages.
  abbrev pub link : ℕ → Link
  link capacity = record {
    State = State;
    Holds = Holds;
    counter = λ s. s.w.frame.last_id;
    capacity = capacity;
    send = send;
    receive = receive;
    send_law = send_law capacity;
    receive_law = receive_law;
    empty_law = empty_law;
  }
