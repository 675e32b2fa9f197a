-- ===== src/Benchmark/Client.antt =====
-- src/benchmark: the clients, which write the same object again and again to a handler that keeps the
-- laws of Link. latency.cpp stands for all.
use ipc_performance.Prelude.{
  ℕ, zero, suc, ◌+◌, ◌-◌, ◌%◌, ◌≤◌, ◌<◌, ◌^◌, ◌≡◌, refl, ap, ◌∙◌, sym, true, false, if◌then◌else◌,
  List, [], ◌∷◌, ◌++◌, arith, length, length-append, append_assoc, append-nil, to_u32, leb, le→leb,
  lt→leb,
}
use mathlib.Core.Path.{subst}
use ipc_performance.Object.BinaryData
use ipc_performance.Communication.{DataObject, binary_object}
use ipc_performance.Communication.Wire.{encode}
use ipc_performance.Communication.Frame.Wire.{next_id}
use ipc_performance.Benchmark.{Status, returned, running}
use ipc_performance.Handler.Message.{Message}
use ipc_performance.Handler.Link.{Link, Sendable, numbered}

-- `size_ - sizeof(std::uint32_t)`, on `size_t`.
unfoldable pub payload_amount : ℕ → ℕ
payload_amount size = (size + 2 ^ 64 - 4) % 2 ^ 64

-- The loop that pushes `amount` random bytes: `rand` is the sequence of `rand() % 256`.
unfoldable pub random_bytes : (ℕ → ℕ) → ℕ → List ℕ
random_bytes rand zero = []
random_bytes rand (suc n) = random_bytes rand n ++ rand n ∷ []

-- The dummy object of the throughput and execution benchmarks.
unfoldable pub dummy : (ℕ → ℕ) → ℕ → DataObject
unfolding payload_amount random_bytes
dummy rand size = binary_object (record { bytes = random_bytes rand (payload_amount size) })

length-random_bytes : (rand : ℕ → ℕ) (n : ℕ) → length (random_bytes rand n) ≡ n
unfolding random_bytes
length-random_bytes rand zero = refl
length-random_bytes rand (suc n) =
    omega (arith, length-append (random_bytes rand n) (rand n ∷ []), length-random_bytes rand n)

-- The dummy object of the throughput and execution benchmarks has an encoding of exactly `size`
-- bytes, for a size from 4 on below 2 ^ 32.
pub length-dummy :
    (rand : ℕ → ℕ) (size : ℕ) → 4 ≤ size → size < 2 ^ 32 → length (encode (dummy rand size)) ≡ size
unfolding dummy encode payload_amount
length-dummy rand size lo hi = omega (
  arith,
  BinaryData.Wire.length-encode
      (record { bytes = random_bytes rand ((size + 2 ^ 64 - 4) % 2 ^ 64) }),
  length-random_bytes rand ((size + 2 ^ 64 - 4) % 2 ^ 64),
)

-- The messages of a client that writes an object at the given times.
unfoldable pub series : ℕ → DataObject → List ℕ → List Message
series last_id o [] = []
series last_id o (timestamp ∷ times) =
    numbered last_id o timestamp ∷ series (next_id last_id) o times

abbrev pub AllSendable : DataObject → List ℕ → Type 0
AllSendable o [] = Unit {0}
AllSendable o (timestamp ∷ times) = Sendable o timestamp × AllSendable o times

module _ (l : Link) where
  open l use {State, Holds, counter, capacity, send, send_law}

  -- `run_client` from turn `i` on: the counter is an `unsigned int`; `times` are the clock's readings at
  -- the calls of `write`. `running`: it has come to the end of them.
  unfoldable pub run_client : ℕ → ℕ → State → DataObject → List ℕ → Status × State
  run_client iterations i s o [] = (if leb i iterations then running else returned true, s)
  run_client iterations i s o (timestamp ∷ times) =
      let (result, s1) = send s o timestamp in
      let more = run_client iterations (to_u32 (i + 1)) s1 o times in
      if leb i iterations
      then (if result then more else (returned false, s1))
      else (returned true, s)

  run_client-from :
      (n i : ℕ) (s : State) (q : List Message) (o : DataObject) (times : List ℕ)
      → n < 2 ^ 32 - 1
      → i + length times ≡ n + 1
      → Holds s q
      → AllSendable o times
      → length q + length times ≤ capacity
      → ((run_client n i s o times).0 ≡ returned true)
        × Holds (run_client n i s o times).1 (q ++ series (counter s) o times)
  unfolding run_client series
  run_client-from n i s q o [] b e h a c =
      rw (lt→leb i n (omega arith)) (refl, subst (Holds s) (sym (append-nil q)) h)
  run_client-from n i s q o (timestamp ∷ times) b e h a c =
      let m : Message = numbered (counter s) o timestamp in
      let s1 : State = (send s o timestamp).1 in
      let sent : ((send s o timestamp).0 ≡ true)
          × Holds s1 (q ++ m ∷ [])
          × (counter s1 ≡ next_id (counter s)) =
        send_law s q o timestamp h a.0 (omega arith) in
      let more : ((run_client n (i + 1) s1 o times).0 ≡ returned true)
          × Holds (run_client n (i + 1) s1 o times).1
              ((q ++ m ∷ []) ++ series (counter s1) o times) =
        run_client-from n (i + 1) s1 (q ++ m ∷ []) o times b (omega arith) sent.1 a.1
          (omega (arith, length-append q (m ∷ []))) in
      let same : (q ++ m ∷ []) ++ series (counter s1) o times
          ≡ q ++ m ∷ series (next_id (counter s)) o times =
        append_assoc q (m ∷ []) (series (counter s1) o times)
        ∙ ap (λ n. q ++ m ∷ series n o times) sent.2 in
      let counts : to_u32 (i + 1) ≡ i + 1 = omega arith in
      rw (sent.0, le→leb i n (omega arith), counts)
        (more.0, subst (Holds (run_client n (i + 1) s1 o times).1) same more.1)

  -- The clients over any pair of handlers that keeps the laws of Link: if the iterations are fewer
  -- than 2 ^ 32 - 1, the messages under way and the iterations are no more than its capacity and
  -- the object can be sent at each of the times, `run_client` returns true, and then the messages
  -- that were under way are, followed by one message for each iteration with ids that count up from
  -- the writer's.
  pub run_client-series :
      (s : State) (q : List Message) (o : DataObject) (times : List ℕ)
      → length times < 2 ^ 32 - 1
      → Holds s q
      → AllSendable o times
      → length q + length times ≤ capacity
      → let (status, s1) = run_client (length times) 1 s o times in
        (status ≡ returned true) × Holds s1 (q ++ series (counter s) o times)
  run_client-series s q o times b h a c =
      run_client-from (length times) 1 s q o times b (omega arith) h a c
