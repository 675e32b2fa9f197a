-- ===== src/Handler/Datagrams.antt =====
-- What message_queue.cpp and datagram_socket.cpp share: a message arrives whole in the buffer.
use ipc_performance.Prelude.{
  ℕ, ◌+◌, ◌-◌, ◌%◌, ◌^◌, ◌≡◌, ◌≤◌, refl, ap, ◌∙◌, sym, ◌==◌, if◌then◌else◌, List, ◌++◌, arith, take,
  drop, length, eq→==,
}
use ipc_performance.Prelude.Bytes.{memcpy, length-memcpy, window-memcpy}
use ipc_performance.Prelude.{==→eq, length-drop, take-take}
use ipc_performance.Communication.Wire.{Begins, deserialize-Begins}
use ipc_performance.Communication.Frame.Parts.{Parts, read-Parts, Parts-image}
use ipc_performance.Prelude.Bytes.{IsBytes}
use ipc_performance.Prelude.Windows.{IsBytes-memcpy, IsBytes-drop, take-add}
use ipc_performance.Object.DataHeader
use ipc_performance.Object.DataHeader.{DataHeader, bytes_of}
use ipc_performance.Communication.{
  DataObject, no_data_available, read_error, Outcome, failed, aborted, message, IsValid, get_type,
}
use ipc_performance.Communication.Wire.{encode}
use ipc_performance.Communication.Frame.{Frame, read_header, read_body}
use ipc_performance.Communication.Frame.Wire.{length-packet, body_size-header_for}
use ipc_performance.Handler.Os.{Received, received, again, broken}
use ipc_performance.Handler.Message.{Message, Fits, bytes, bytes-le, delivered, read-Carries}

-- `read` on the answer of the receiving call, which puts the bytes at the start of the buffer. The
-- test of the `assert` is made in `size_t`, where a message shorter than a header wraps round.
unfoldable pub take_datagram : Frame → Received → Outcome × Frame
take_datagram f again = (failed no_data_available, f)
take_datagram f broken = (failed read_error, f)
take_datagram f (received bs) =
    let buffer = memcpy f.buffer 0 bs in
    (
      read_header buffer λ header.
          if header.body_size == (length bs + 2 ^ 64 - 16) % 2 ^ 64
          then read_body (drop 16 buffer) header
          else aborted,
      record f { buffer = buffer },
    )

-- A message that arrives whole is returned.
pub take_datagram-delivered :
    (f : Frame) (m : Message)
    → Fits m
    → length f.buffer ≡ 528
    → let (outcome, f') = take_datagram f (received (bytes m)) in
      (outcome ≡ delivered m) × (length f'.buffer ≡ 528)
unfolding take_datagram
take_datagram-delivered f m fits l = (
  read-Carries (memcpy f.buffer 0 (bytes m)) m
      (λ header. header.body_size == (length (bytes m) + 2 ^ 64 - 16) % 2 ^ 64)
      (record {
        fits = fits;
        found =
            window-memcpy f.buffer 0 (bytes m) (length (bytes m)) refl
              (omega (arith, bytes-le fits));
      })
      (eq→== _ _ (body_size-header_for m.id m.timestamp m.object ∙ size)),
  length-memcpy f.buffer 0 (bytes m) ∙ l,
)
  where
    size : length (encode m.object) ≡ (length (bytes m) + 2 ^ 64 - 16) % 2 ^ 64
    size = omega (arith, length-packet m.id m.timestamp m.object, fits.size_fits)

-- What a `read` that returns a message has received: the bytes begin with the image of its header
-- and the encoding of its object, and have the length that the header announces.
pub record Genuine (bs : List ℕ) (h : DataHeader) (o : DataObject) : Type 0 where
  pub header_valid : DataHeader.IsValid h
  pub object_valid : IsValid o
  pub typed : get_type o ≡ h.type
  pub announced : length bs ≡ 16 + h.body_size
  pub found : take (16 + length (encode o)) bs ≡ bytes_of h ++ encode o

-- MessageQueue and DatagramSocket: if the receiving call has returned at most 528 bytes and
-- `read` returns a message, then the header and the object are valid, the object is of the
-- header's type, the number of bytes is the size that the header announces and 16, and the bytes
-- begin with the header's image and the object's encoding, whatever the buffer held before.
pub take_datagram-Genuine :
    (f : Frame) (bs : List ℕ) (h : DataHeader) (o : DataObject)
    → IsBytes f.buffer
    → length f.buffer ≡ 528
    → IsBytes bs
    → length bs ≤ 528
    → (take_datagram f (received bs)).0 ≡ message h o
    → Genuine bs h o
unfolding take_datagram
take_datagram-Genuine f bs h o fb fl b l e = record {
  header_valid = image.0;
  object_valid = begins.valid;
  typed = begins.typed;
  announced = announced;
  found =
      ap (take (16 + n)) (sym arrived)
      ∙ take-take (16 + n) (length bs) buffer short
      ∙ sym (take-add 16 n buffer)
      ∙ rw (← image.1, begins.bytes);
}
  where
    buffer : List ℕ
    buffer = memcpy f.buffer 0 bs

    n : ℕ
    n = length (encode o)

    whole : length buffer ≡ 528
    whole = length-memcpy f.buffer 0 bs ∙ fl

    buffer_bytes : IsBytes buffer
    buffer_bytes = IsBytes-memcpy f.buffer 0 bs fb b

    parts : Parts buffer h o (λ header. header.body_size == (length bs + 2 ^ 64 - 16) % 2 ^ 64)
    parts = read-Parts buffer h o _ e

    image : DataHeader.IsValid h × (bytes_of h ≡ take 16 buffer)
    image = Parts-image buffer h o _ parts buffer_bytes (omega (arith, whole))

    announced : length bs ≡ 16 + h.body_size
    announced = omega (arith, ==→eq _ _ parts.passed, image.0.body_size_fits)

    begins : Begins h.type (drop 16 buffer) h.body_size o
    begins =
        deserialize-Begins h.type (drop 16 buffer) h.body_size o
          (IsBytes-drop 16 buffer buffer_bytes)
          (omega (arith, length-drop 16 buffer, whole, announced)) parts.object

    short : 16 + n ≤ length bs
    short = omega (arith, announced, begins.fits)

    arrived : take (length bs) buffer ≡ bs
    arrived = window-memcpy f.buffer 0 bs (length bs) refl (omega arith)
