-- ===== src/Handler/Slots.antt =====
-- The slots that shared_memory.cpp and shared_file.cpp both lay over their memory: 64 slots of
-- BUFFER_SIZE bytes, used in turn, each of which carries a message from its first byte on.
use ipc_performance.Prelude.{
  ℕ, ◌+◌, ◌*◌, ◌%◌, ◌≤◌, ◌<◌, ◌≡◌, ◌≢◌, refl, ap, ◌∙◌, List, [], ◌∷◌, ◌++◌, arith, take, length,
  take-take, dec_lt, leb, drop, if◌then◌else◌, le→leb,
}
use ipc_performance.Prelude.Bytes.{
  memcpy, window, window-memcpy, window-memcpy_before, window-memcpy_behind,
}
use mathlib.Core.Path.{subst}
use ipc_performance.Communication.{Outcome, aborted}
use ipc_performance.Handler.Message.{
  Message, Fits, Carries, bytes, bytes-le, delivered, read-Carries,
}
use ipc_performance.Communication.Frame.{read_header, read_body}
use ipc_performance.Communication.Wire.{encode}
use ipc_performance.Communication.Frame.Wire.{body_size-header_for}

-- TOTAL_AMOUNT and TOTAL_SIZE
abbrev pub total_amount : ℕ
total_amount = 64

abbrev pub total_size : ℕ
total_size = 528 * 64

-- `offset_ * BUFFER_SIZE`, and `(offset_ + 1) % TOTAL_AMOUNT`
abbrev pub slot_start : ℕ → ℕ
slot_start k = k * 528

abbrev pub next_slot : ℕ → ℕ
next_slot k = (k + 1) % 64

-- The end of `read`: what the buffer holds, with the `assert` on the size of the body.
unfoldable pub take_apart : List ℕ → Outcome
take_apart buffer =
    read_header buffer
      λ header. if leb header.body_size 512 then read_body (drop 16 buffer) header else aborted

abbrev pub slot_at : List ℕ → ℕ → List ℕ
slot_at memory k = window memory (slot_start k) 528

-- The messages stand in consecutive slots from slot `k` on.
abbrev pub Holds : List ℕ → ℕ → List Message → Type 0
Holds memory k [] = Unit {0}
Holds memory k (m ∷ ms) = Carries (slot_at memory k) m × Holds memory (next_slot k) ms

-- A write into one slot does not reach another.
pub slot-memcpy_ne :
    (memory src : List ℕ) (j k o n : ℕ)
    → j ≢ k
    → slot_start k ≤ o
    → o + length src ≤ slot_start k + 528
    → n ≤ 528
    → window (memcpy memory o src) (slot_start j) n ≡ window memory (slot_start j) n
slot-memcpy_ne memory src j k o n ne lo hi small = elim (dec_lt j k) [
  | yes below ↦ window-memcpy_before memory o src (slot_start j) n (omega arith)
  | no above ↦ window-memcpy_behind memory o src (slot_start j) n (omega arith)
]

slot_at-memcpy_ne :
    (memory src : List ℕ) (j k o : ℕ)
    → j ≢ k
    → slot_start k ≤ o
    → o + length src ≤ slot_start k + 528
    → slot_at (memcpy memory o src) j ≡ slot_at memory j
slot_at-memcpy_ne memory src j k o ne lo hi =
    slot-memcpy_ne memory src j k o 528 ne lo hi (omega arith)

-- The slots that follow slot `h` round the memory differ from it for fewer than 64 steps.
ahead : ℕ → ℕ → ℕ
ahead h n = (h + n) % 64

ahead-ne : (h n d : ℕ) → h < 64 → d < n → n < 64 → ahead h d ≢ ahead h n
unfolding ahead
ahead-ne h n d hh hd hn e = omega arith

-- A write into the slot behind the messages, at any place of it, leaves them as they are.
pub Holds-memcpy :
    (memory src : List ℕ) (h k o : ℕ) (ms : List Message)
    → h < 64
    → k ≡ (h + length ms) % 64
    → length ms < 64
    → slot_start k ≤ o
    → o + length src ≤ slot_start k + 528
    → Holds memory h ms
    → Holds (memcpy memory o src) h ms
Holds-memcpy memory src h k o [] hh e l lo hi held = tt
Holds-memcpy memory src h k o (m ∷ ms) hh e l lo hi held = (
  record { fits = held.0.fits; found = ap (take (length (bytes m))) same ∙ held.0.found },
  Holds-memcpy memory src (next_slot h) k o ms (omega arith) (omega arith) (omega arith) lo hi
      held.1,
)
  where
    same : slot_at (memcpy memory o src) h ≡ slot_at memory h
    same = slot_at-memcpy_ne memory src h k o (omega arith) lo hi

-- A message that has been copied to a slot in full is carried by it.
pub Carries-memcpy :
    (memory : List ℕ) (k : ℕ) (m : Message)
    → Fits m
    → k < 64
    → length memory ≡ total_size
    → Carries (slot_at (memcpy memory (slot_start k) (bytes m)) k) m
Carries-memcpy memory k m f hk l = record {
  fits = f;
  found =
      take-take (length (bytes m)) 528 _ (bytes-le f)
      ∙ window-memcpy memory (slot_start k) (bytes m) (length (bytes m)) refl
          (omega (arith, bytes-le f));
}

-- A message that is carried by the slot behind the others is the last of them.
pub Holds-append :
    (memory : List ℕ) (h k : ℕ) (ms : List Message) (m : Message)
    → h < 64
    → k ≡ (h + length ms) % 64
    → Holds memory h ms
    → Carries (slot_at memory k) m
    → Holds memory h (ms ++ m ∷ [])
Holds-append memory h k [] m hh e held c = (subst (λ j. Carries (slot_at memory j) m) same c, tt)
  where
    same : k ≡ h
    same = omega arith
Holds-append memory h k (x ∷ ms) m hh e held c =
    (held.0, Holds-append memory (next_slot h) k ms m (omega arith) (omega arith) held.1 c)

-- So a message that is copied to the slot behind the others is the last of them.
pub Holds-put :
    (memory : List ℕ) (h k : ℕ) (ms : List Message) (m : Message)
    → h < 64
    → k ≡ (h + length ms) % 64
    → length ms < 64
    → length memory ≡ total_size
    → Fits m
    → Holds memory h ms
    → Holds (memcpy memory (slot_start k) (bytes m)) h (ms ++ m ∷ [])
Holds-put memory h k ms m hh e l room f held =
    Holds-append (memcpy memory (slot_start k) (bytes m)) h k ms m hh e
      (Holds-memcpy memory (bytes m) h k (slot_start k) ms hh e l (omega arith)
        (omega (arith, bytes-le f)) held)
      (Carries-memcpy memory k m f (omega arith) room)

-- So a slot that carries a message is taken apart into it.
pub take_apart-Carries :
    (buffer : List ℕ) (m : Message) → Carries buffer m → take_apart buffer ≡ delivered m
unfolding take_apart
take_apart-Carries buffer m c =
    read-Carries buffer m (λ header. leb header.body_size 512) c
      (ap (λ n. leb n 512) (body_size-header_for m.id m.timestamp m.object)
        ∙ le→leb (length (encode m.object)) 512 c.fits.size_fits)
