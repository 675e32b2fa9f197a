-- ===== src/Communication/Frame/Parts.antt =====
-- What a `read` that returns a message has found in its buffer.
use ipc_performance.Prelude.{
  ℕ, ◌≤◌, ◌≡◌, Bool, true, if◌then◌else◌, some, List, arith, take, drop, length, Option-cases,
  Bool-cases, inl, inr,
}
use mathlib.Core.Path.{subst}
use ipc_performance.Prelude.Bytes.{IsBytes}
use ipc_performance.Object.DataHeader
use ipc_performance.Object.DataHeader.{DataHeader, bytes_of}
use ipc_performance.Object.DataHeader.Wire as HeaderWire
use ipc_performance.Communication.{
  DataObject, message, aborted, Result, ok, err, with_header, deserialize_data_object,
}
use ipc_performance.Communication.Frame.{read_header, read_body}

with_header-message :
    (h h' : DataHeader) (r : Result DataObject) (o : DataObject)
    → with_header h r ≡ message h' o
    → (h ≡ h') × (r ≡ ok o)
unfolding with_header
with_header-message h h' (ok x) o e = (cc, ground arith)
with_header-message h h' (err x) o e = absurd (cc)

-- The header that is read passes the test of the `assert`, and the object is read behind it.
pub record Parts (buffer : List ℕ) (h : DataHeader) (o : DataObject) (test : DataHeader → Bool)
    : Type 0 where
  pub header : DataHeader.deserialize buffer 16 ≡ some h
  pub passed : test h ≡ true
  pub object : deserialize_data_object h.type (drop 16 buffer) h.body_size ≡ ok o

module _ (buffer : List ℕ) (h : DataHeader) (o : DataObject) (test : DataHeader → Bool) where
  step :
      (h0 : DataHeader)
      → DataHeader.deserialize buffer 16 ≡ some h0
      → (if test h0 then read_body (drop 16 buffer) h0 else aborted) ≡ message h o
      → Parts buffer h o test
  step h0 d e = elim (Bool-cases (test h0)) [
    | inr fails ↦ absurd (ground (arith, fails))
    | inl passes ↦
        let found : (h0 ≡ h)
            × (deserialize_data_object h0.type (drop 16 buffer) h0.body_size ≡ ok o) =
          with_header-message h0 h _ o (rw passes at e) in
        subst (λ k. Parts buffer k o test) found.0
          (record { header = d; passed = passes; object = found.1 })
  ]

  pub read-Parts :
      read_header buffer (λ k. if test k then read_body (drop 16 buffer) k else aborted)
        ≡ message h o
      → Parts buffer h o test
  read-Parts e = elim (Option-cases (DataHeader.deserialize buffer 16)) [
    | inl nothing ↦ absurd (ground (arith, nothing))
    | inr (h0, d) ↦ step h0 d (rw d at e)
  ]

  pub Parts-image :
      Parts buffer h o test
      → IsBytes buffer
      → 16 ≤ length buffer
      → DataHeader.IsValid h × (bytes_of h ≡ take 16 buffer)
  Parts-image p b l =
      let sound : (h0 : DataHeader) × (DataHeader.deserialize buffer 16 ≡ some h0)
          × DataHeader.IsValid h0
          × (bytes_of h0 ≡ take 16 buffer) =
        HeaderWire.deserialize_header_sound buffer 16 b (omega arith) l in
      subst (λ k. DataHeader.IsValid k × (bytes_of k ≡ take 16 buffer)) {x = sound.0} (cc (sound.1))
        (sound.2, sound.3)
