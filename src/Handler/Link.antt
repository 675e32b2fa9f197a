-- ===== src/Handler/Link.antt =====
-- What a pair of handlers promises, one that writes and one that reads: ICommunicationHandler of
-- communication_handler.hpp as an interface with laws. Its specification is a queue of messages.
use ipc_performance.Prelude.{
  ℕ, suc, ◌<◌, ◌≤◌, ◌^◌, ◌≡◌, refl, Bool, true, List, [], ◌∷◌, ◌++◌, arith, length, length-append,
}
use Prim.Native.Nat.{pred}
use mathlib.Core.Path.{subst}
use ipc_performance.Communication.{DataObject, IsValid, Outcome, failed, no_data_available}
use ipc_performance.Communication.Wire.{encode}
use ipc_performance.Communication.Frame.Wire.{next_id}
use ipc_performance.Handler.Message.{Message, Fits, delivered}

-- What one can send: a valid object that fits the buffer, at a time.
pub record Sendable (o : DataObject) (timestamp : ℕ) : Type 0 where
  pub object_valid : IsValid o
  pub size_fits : length (encode o) ≤ 512
  pub timestamp_fits : timestamp < 2 ^ 64

abbrev pub numbered : ℕ → DataObject → ℕ → Message
numbered last_id o timestamp = record { id = next_id last_id; timestamp = timestamp; object = o }

pub numbered-Fits :
    (last_id : ℕ) (o : DataObject) (timestamp : ℕ)
    → Sendable o timestamp
    → Fits (numbered last_id o timestamp)
numbered-Fits last_id o timestamp s = record {
  id_fits = omega arith;
  timestamp_fits = s.timestamp_fits;
  object_valid = s.object_valid;
  size_fits = s.size_fits;
}

-- `Holds s q`: in the state `s` of both handlers and of what lies between them the messages `q` are under
-- way, oldest first. `counter` is `last_id_` of the handler that writes.
pub record Link : Type 1 where
  pub State : Type 0
  pub Holds : State → List Message → Type 0
  pub counter : State → ℕ
  pub capacity : ℕ
  pub send : State → DataObject → ℕ → Bool × State
  pub receive : State → Outcome × State
  pub send_law :
      (s : State) (q : List Message) (o : DataObject) (timestamp : ℕ)
      → Holds s q
      → Sendable o timestamp
      → length q < capacity
      → ((send s o timestamp).0 ≡ true)
        × Holds (send s o timestamp).1 (q ++ numbered (counter s) o timestamp ∷ [])
        × (counter (send s o timestamp).1 ≡ next_id (counter s))
  pub receive_law :
      (s : State) (m : Message) (q : List Message)
      → Holds s (m ∷ q)
      → ((receive s).0 ≡ delivered m) × Holds (receive s).1 q × (counter (receive s).1 ≡ counter s)
  pub empty_law : (s : State) → Holds s [] → receive s ≡ (failed no_data_available, s)

pub data Op : Type 0 where
  put : DataObject → ℕ → Op
  get : Op

pub data Reply : Type 0 where
  wrote : Bool → Reply
  got : Outcome → Reply

-- The queue that calls of a link stand for: the reply to each call of a sequence.
unfoldable pub spec_run : ℕ → List Message → List Op → List Reply
spec_run last_id q [] = []
spec_run last_id q (put o timestamp ∷ ops) =
    wrote true ∷ spec_run (next_id last_id) (q ++ numbered last_id o timestamp ∷ []) ops
spec_run last_id [] (get ∷ ops) = got (failed no_data_available) ∷ spec_run last_id [] ops
spec_run last_id (m ∷ q) (get ∷ ops) = got (delivered m) ∷ spec_run last_id q ops

-- Every object can be sent, and with `n` messages under way at first no more than `capacity` ever are.
abbrev pub Within : ℕ → ℕ → List Op → Type 0
Within capacity n [] = Unit {0}
Within capacity n (put o timestamp ∷ ops) =
    Sendable o timestamp × (n < capacity) × Within capacity (suc n) ops
Within capacity n (get ∷ ops) = Within capacity (pred n) ops

module _ (l : Link) where
  open l use {State, Holds, counter, capacity, send, receive, send_law, receive_law, empty_law}

  unfoldable pub run : State → List Op → List Reply
  run s [] = []
  run s (put o timestamp ∷ ops) = let (fine, s1) = send s o timestamp in wrote fine ∷ run s1 ops
  run s (get ∷ ops) = let (outcome, s1) = receive s in got outcome ∷ run s1 ops

  -- No sequence of calls tells the link from the queue.
  pub run-eq-spec_run :
      (s : State) (q : List Message) (ops : List Op)
      → Holds s q
      → Within capacity (length q) ops
      → run s ops ≡ spec_run (counter s) q ops
  unfolding run spec_run
  run-eq-spec_run s q [] h w = refl
  run-eq-spec_run s q (put o timestamp ∷ ops) h w =
      let more : List Message = q ++ numbered (counter s) o timestamp ∷ [] in
      let sent : ((send s o timestamp).0 ≡ true)
          × Holds (send s o timestamp).1 more
          × (counter (send s o timestamp).1 ≡ next_id (counter s)) =
        send_law s q o timestamp h w.0 w.1 in
      let longer : suc (length q) ≡ length more =
        omega (arith, length-append q (numbered (counter s) o timestamp ∷ [])) in
      rw (
        sent.0,
        run-eq-spec_run (send s o timestamp).1 more ops sent.1
            (subst (λ n. Within capacity n ops) longer w.2),
        sent.2,
      )
  run-eq-spec_run s [] (get ∷ ops) h w = rw (empty_law s h, run-eq-spec_run s [] ops h w)
  run-eq-spec_run s (m ∷ q) (get ∷ ops) h w =
      let taken : ((receive s).0 ≡ delivered m)
          × Holds (receive s).1 q
          × (counter (receive s).1 ≡ counter s) =
        receive_law s m q h in
      rw (taken.0, run-eq-spec_run (receive s).1 q ops taken.1 w, taken.2)
