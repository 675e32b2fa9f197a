-- ===== src/Benchmark/Session.antt =====
-- src/benchmark/latency.cpp over a pair of handlers that keeps the laws of Link: the client's run, then the
-- server's.
use ipc_performance.Prelude.{
  ℕ, suc, ◌+◌, ◌-◌, ◌^◌, ◌≤◌, ◌<◌, ◌≡◌, refl, ap, ◌∙◌, sym, true, List, [], ◌∷◌, ◌++◌, arith,
  length, to_u32, sub64, le→leb, lt→leb, append_assoc, append-nil,
}
use ipc_performance.Communication.{DataObject}
use ipc_performance.Communication.Frame.Wire.{next_id, header_for}
use ipc_performance.Handler.Message.{Message, delivered}
use ipc_performance.Handler.Link.{Link}
use ipc_performance.Benchmark.{Round, round, returned}
use ipc_performance.Benchmark.Client.{series, AllSendable, run_client, run_client-series}
use ipc_performance.Benchmark.Latency.{run_server}

-- The latencies of messages that were sent at `times` and read at `nows`, as `unsigned int`.
abbrev pub differences : List ℕ → List ℕ → List ℕ
differences [] nows = []
differences (timestamp ∷ times) [] = []
differences (timestamp ∷ times) (now ∷ nows) = to_u32 (sub64 now timestamp) ∷ differences times nows

-- The rounds of a server that reads messages at the times.
abbrev pub rounds_of : List Message → List ℕ → List Round
rounds_of [] nows = []
rounds_of (m ∷ ms) [] = []
rounds_of (m ∷ ms) (now ∷ nows) = round (delivered m) now ∷ rounds_of ms nows

module _ (l : Link) where
  open l use {State, Holds, counter, capacity, receive, receive_law}

  -- One `read` for each of the times.
  unfoldable pub receive_all : State → List ℕ → List Round × State
  receive_all s [] = ([], s)
  receive_all s (now ∷ nows) =
      let (outcome, s1) = receive s in
      let (rounds, s2) = receive_all s1 nows in (round outcome now ∷ rounds, s2)

  receive_all-rounds_of :
      (s : State) (q : List Message) (nows : List ℕ)
      → Holds s q
      → length nows ≡ length q
      → ((receive_all s nows).0 ≡ rounds_of q nows) × Holds (receive_all s nows).1 []
  unfolding receive_all
  receive_all-rounds_of s [] [] h e = (refl, h)
  receive_all-rounds_of s [] (now ∷ nows) h e = absurd (omega arith)
  receive_all-rounds_of s (m ∷ q) [] h e = absurd (omega arith)
  receive_all-rounds_of s (m ∷ q) (now ∷ nows) h e =
      let taken : ((receive s).0 ≡ delivered m)
          × Holds (receive s).1 q
          × (counter (receive s).1 ≡ counter s) =
        receive_law s m q h in
      let more = receive_all-rounds_of (receive s).1 q nows taken.1 (omega arith) in
      (rw (taken.0, more.0) refl, more.1)

length-series :
    (id : ℕ) (o : DataObject) (times : List ℕ) → length (series id o times) ≡ length times
unfolding series
length-series id o [] = refl
length-series id o (timestamp ∷ times) = ap suc (length-series (next_id id) o times)

run_server-series :
    (n i id : ℕ) (o : DataObject) (ls times nows : List ℕ)
    → n < 2 ^ 32 - 1
    → i + length times ≡ n + 1
    → length nows ≡ length times
    → run_server n i ls (rounds_of (series id o times) nows)
      ≡ (returned true, ls ++ differences times nows)
unfolding run_server series header_for
run_server-series n i id o ls [] nows w h e =
    rw (lt→leb i n (omega arith)) (ap (λ xs. (returned true, xs)) (sym (append-nil ls)))
run_server-series n i id o ls (timestamp ∷ times) [] w h e = absurd (omega arith)
run_server-series n i id o ls (timestamp ∷ times) (now ∷ nows) w h e =
    let x : List ℕ = to_u32 (sub64 now timestamp) ∷ [] in
    let next : to_u32 (i + 1) ≡ i + 1 = omega arith in
    rw (le→leb i n (omega arith), next)
      (run_server-series n (i + 1) (next_id id) o (ls ++ x) times nows w (omega arith) (omega arith)
        ∙ ap (λ ls. (returned true, ls)) (append_assoc ls x (differences times nows)))

-- The latency benchmark from end to end, over any pair of handlers that keeps the laws of Link:
-- if nothing is under way, the object can be sent at each of the times, the iterations are fewer
-- than 2 ^ 32 - 1 and no more than the pair can hold, and the server reads as many times, then
-- the client returns true, the server returns true with, for each message in turn, the time at
-- which it was read less the time at which it was written, modulo 2 ^ 32, and nothing is under
-- way afterwards.
pub latency_session-differences :
    (l : Link) (s : l.State) (o : DataObject) (times nows : List ℕ)
    → l.Holds s []
    → AllSendable o times
    → length times ≤ l.capacity
    → length times < 2 ^ 32 - 1
    → length nows ≡ length times
    → let (status, s1) = run_client l (length times) 1 s o times in
      let (rounds, s2) = receive_all l s1 nows in
      (status ≡ returned true)
      × (run_server (length times) 1 [] rounds ≡ (returned true, differences times nows))
      × l.Holds s2 []
latency_session-differences l s o times nows h a c w e =
    let sent = run_client-series l s [] o times w h a (omega arith) in
    let read =
      receive_all-rounds_of l (run_client l (length times) 1 s o times).1
        (series (l.counter s) o times) nows sent.1
        (e ∙ sym (length-series (l.counter s) o times)) in
    (
      sent.0,
      rw read.0
          (run_server-series (length times) 1 (l.counter s) o [] times nows w (omega arith) e),
      read.1,
    )
