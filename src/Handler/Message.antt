-- ===== src/Handler/Message.antt =====
-- A message on its way from a handler that writes to one that reads.
use ipc_performance.Prelude.{
  ℕ, ◌≤◌, ◌<◌, ◌^◌, ◌≡◌, refl, ap, ◌∙◌, sym, Bool, true, some, List, [], ◌∷◌, ◌++◌, arith, take,
  drop, length, if◌then◌else◌, take-append-drop, append_assoc, append-nil,
}
use ipc_performance.Prelude.Bytes.{memcpy, window-memcpy}
use ipc_performance.Object.DataHeader
use ipc_performance.Object.DataHeader.{DataHeader, bytes_of}
use ipc_performance.Object.DataHeader.Wire as HeaderWire
use ipc_performance.Communication.{DataObject, IsValid, Outcome, message, aborted}
use ipc_performance.Communication.Wire.{encode}
use ipc_performance.Communication.Frame.{read_header, read_body}
use ipc_performance.Communication.Frame.Wire.{
  packet, length-packet, header_for, header_for-IsValid, read_header-packet, read_body-encode,
  drop-packet,
}

-- A message under way.
pub record Message : Type 0 where
  pub id : ℕ
  pub timestamp : ℕ
  pub object : DataObject

-- Its numbers are in the range of their types, and it fits a buffer.
pub record Fits (m : Message) : Type 0 where
  pub id_fits : m.id < 2 ^ 32
  pub timestamp_fits : m.timestamp < 2 ^ 64
  pub object_valid : IsValid m.object
  pub size_fits : length (encode m.object) ≤ 512

abbrev pub bytes : Message → List ℕ
bytes m = packet m.id m.timestamp m.object

-- The message stands at the start of the slot.
pub record Carries (slot : List ℕ) (m : Message) : Type 0 where
  pub fits : Fits m
  pub found : take (length (bytes m)) slot ≡ bytes m

pub bytes-le : {m : Message} → Fits m → length (bytes m) ≤ 528
bytes-le {m} f = omega (arith, length-packet m.id m.timestamp m.object, f.size_fits)

-- What a `read` returns that finds the message.
abbrev pub delivered : Message → Outcome
delivered m = message (header_for m.id m.timestamp m.object) m.object

-- A buffer that carries a message is read as that message, if its header passes the test of the
-- handler's `assert`.
pub read-Carries :
    (buffer : List ℕ) (m : Message) (test : DataHeader → Bool)
    → Carries buffer m
    → test (header_for m.id m.timestamp m.object) ≡ true
    → read_header buffer
        (λ header. if test header then read_body (drop 16 buffer) header else aborted)
      ≡ delivered m
read-Carries buffer m test c passes =
    rw
      (
        ← whole,
        read_header-packet m.id m.timestamp m.object rest
            (λ header.
              if test header then read_body (drop 16 (bytes m ++ rest)) header else aborted)
            c.fits.id_fits c.fits.timestamp_fits c.fits.size_fits,
        passes,
        drop-packet m.id m.timestamp m.object rest,
      )
      (read_body-encode m.id m.timestamp m.object rest c.fits.object_valid c.fits.size_fits)
  where
    rest : List ℕ
    rest = drop (length (bytes m)) buffer

    whole : bytes m ++ rest ≡ buffer
    whole = ap (λ bs. bs ++ rest) (sym c.found) ∙ take-append-drop (length (bytes m)) buffer

-- The parts of the message's packet.
abbrev pub header_of : Message → DataHeader
header_of m = header_for m.id m.timestamp m.object

abbrev pub body_of : Message → List ℕ
body_of m = encode m.object

pub bytes-append :
    (m : Message) (rest : List ℕ) → bytes m ++ rest ≡ bytes_of (header_of m) ++ (body_of m ++ rest)
unfolding packet
bytes-append m rest = append_assoc (bytes_of (header_of m)) (body_of m) rest

-- What has been copied to the start of a buffer is what the buffer begins with.
begins-memcpy :
    (buffer src : List ℕ)
    → length src ≤ length buffer
    → src ++ drop (length src) (memcpy buffer 0 src) ≡ memcpy buffer 0 src
begins-memcpy buffer src h =
    ap (λ bs. bs ++ drop (length src) (memcpy buffer 0 src))
      (sym (window-memcpy buffer 0 src (length src) refl (omega arith)))
    ∙ take-append-drop (length src) (memcpy buffer 0 src)

-- A buffer to which a header has been copied is read as that header.
pub deserialize-memcpy_header :
    (buffer : List ℕ) (h : DataHeader)
    → DataHeader.IsValid h
    → length buffer ≡ 528
    → DataHeader.deserialize (memcpy buffer 0 (bytes_of h)) 16 ≡ some h
deserialize-memcpy_header buffer h v l =
    rw (← begins-memcpy buffer (bytes_of h) (omega (arith, HeaderWire.length-bytes_of h)))
      (HeaderWire.deserialize_header-bytes_of h _ 16 v (omega arith))

pub deserialize-memcpy :
    (buffer : List ℕ) (m : Message)
    → Fits m
    → length buffer ≡ 528
    → DataHeader.deserialize (memcpy buffer 0 (bytes_of (header_of m))) 16 ≡ some (header_of m)
deserialize-memcpy buffer m f =
    deserialize-memcpy_header buffer (header_of m)
      (header_for-IsValid m.id m.timestamp m.object f.id_fits f.timestamp_fits f.size_fits)

-- And one to which the body has been copied is read as the object.
pub read_body-memcpy :
    (buffer : List ℕ) (m : Message)
    → Fits m
    → length buffer ≡ 528
    → read_body (memcpy buffer 0 (body_of m)) (header_of m) ≡ delivered m
read_body-memcpy buffer m f l =
    rw (← begins-memcpy buffer (body_of m) (omega (arith, f.size_fits)))
      (read_body-encode m.id m.timestamp m.object _ f.object_valid f.size_fits)

abbrev pub AllFit : List Message → Type 0
AllFit [] = Unit {0}
AllFit (m ∷ ms) = Fits m × AllFit ms

pub AllFit-append : (ms : List Message) (m : Message) → AllFit ms → Fits m → AllFit (ms ++ m ∷ [])
AllFit-append [] m a f = (f, tt)
AllFit-append (x ∷ ms) m a f = (a.0, AllFit-append ms m a.1 f)

-- The bytes of messages, one behind the other.
abbrev pub joined : List Message → List ℕ
joined [] = []
joined (m ∷ ms) = bytes m ++ joined ms

pub joined-append : (ms : List Message) (m : Message) → joined (ms ++ m ∷ []) ≡ joined ms ++ bytes m
joined-append [] m = append-nil (bytes m)
joined-append (x ∷ ms) m =
    ap (λ bs. bytes x ++ bs) (joined-append ms m)
    ∙ sym (append_assoc (bytes x) (joined ms) (bytes m))
