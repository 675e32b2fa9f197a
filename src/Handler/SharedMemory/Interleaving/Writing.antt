-- ===== src/Handler/SharedMemory/Interleaving/Writing.antt =====
-- handler/shared_memory.cpp: the steps of `write` keep the invariant.
use ipc_performance.Prelude.{
  ℕ, ◌+◌, ◌≤◌, ◌<◌, ◌^◌, ◌≡◌, refl, ap, ◌∙◌, sym, Option, none, some, List, [], ◌∷◌, ◌++◌, arith,
  length, length-append, take-take, dec_lt,
}
use ipc_performance.Prelude.Bytes.{
  memcpy, window, length-memcpy, window-memcpy, window-memcpy_before,
}
use ipc_performance.Prelude.Windows.{window-join, length-window}
use ipc_performance.Communication.{DataObject, IsValid}
use ipc_performance.Communication.Wire.{encode}
use ipc_performance.Communication.Frame.{Frame, pack}
use ipc_performance.Communication.Frame.Wire.{Packed, pack-Packed, pack-refuses, length-packet}
use ipc_performance.Handler.Message.{Message, Carries, bytes, bytes-le}
use ipc_performance.Handler.Slots.{
  slot_start, next_slot, slot_at, Holds-memcpy, Holds-append, slot-memcpy_ne,
}
use ipc_performance.Handler.SharedMemory.{SharedMemory, Shared}
use ipc_performance.Handler.SharedMemory.Steps.{
  w_rest, packed, copying, Reader, r_rest, awaiting, fetching, config, current,
}
use ipc_performance.Handler.SharedMemory.Interleaving.Invariant.{
  Copied, Fetched, Reading, taken, Inv,
}

pub packed-fits :
    (f : Frame) (o : DataObject) (timestamp n : ℕ)
    → (pack f o timestamp).0 ≡ some n
    → length (encode o) ≤ 512
packed-fits f o timestamp n e = elim (dec_lt 512 (length (encode o))) [
  | no small ↦ omega arith
  | yes big ↦
      let same : none ≡ some n =
        sym (ap (λ (r : Option ℕ × Frame). r.0) (pack-refuses f o timestamp big)) ∙ e in
      absurd (cc)
]

pub begin-Inv :
    (w r : SharedMemory) (s : Shared) (p : Reader) (o : DataObject) (timestamp n : ℕ)
    (q : List Message)
    → IsValid o
    → timestamp < 2 ^ 64
    → (pack w.frame o timestamp).0 ≡ some n
    → Inv (config w r s w_rest p) q
    → Inv
        (config (record w { frame = (pack w.frame o timestamp).1 }) r s (packed o timestamp n) p)
        q
begin-Inv w r s p o timestamp n q v t e i = record {
  room = i.room;
  w_buffer = x.room ∙ i.w_buffer;
  r_buffer = i.r_buffer;
  r_offset = i.r_offset;
  w_offset = i.w_offset;
  readable = i.readable;
  writable = i.writable;
  held = i.held;
  writing = record {
    fits = record {
      id_fits = omega (arith, x.counted);
      timestamp_fits = t;
      object_valid = v;
      size_fits = small;
    };
    size = size;
    image = rw (size, x.bytes, x.counted);
  };
  reading = i.reading;
}
  where
    small : length (encode o) ≤ 512
    small = packed-fits w.frame o timestamp n e

    x : Packed w.frame o timestamp (pack w.frame o timestamp)
    x = pack-Packed w.frame o timestamp i.w_buffer small

    size : n ≡ length (encode o)
    size = ground (arith, x.size)

pub refuse-Inv :
    (w r : SharedMemory) (s : Shared) (p : Reader) (o : DataObject) (timestamp : ℕ)
    (q : List Message)
    → (pack w.frame o timestamp).0 ≡ none
    → Inv (config w r s w_rest p) q
    → Inv (config (record w { frame = (pack w.frame o timestamp).1 }) r s w_rest p) q
refuse-Inv w r s p o timestamp q e i = elim (dec_lt 512 (length (encode o))) [
  | yes big ↦ rw (ap (λ (r : Option ℕ × Frame). r.1) (pack-refuses w.frame o timestamp big)) i
  | no small ↦
      let x : Packed w.frame o timestamp (pack w.frame o timestamp) =
        pack-Packed w.frame o timestamp i.w_buffer (omega arith) in
      let same : none ≡ some (length (encode o)) = sym e ∙ x.size in absurd (cc)
]

-- A part of the packet is copied.
module _ (w r : SharedMemory) (s : Shared) (p : Reader) (o : DataObject) (timestamp n k j : ℕ)
    (q : List Message) (fits : k + j ≤ 16 + n)
    (i : Inv (config w r s (copying o timestamp n k) p) q) where
  abbrev part : List ℕ
  part = window w.frame.buffer k j

  abbrev place : ℕ
  place = slot_start w.offset + k

  abbrev memory1 : List ℕ
  memory1 = memcpy s.memory place part

  size : n ≤ 512
  size = omega (arith, i.writing.0.size, i.writing.0.fits.size_fits)

  length-part : length part ≡ j
  length-part = length-window w.frame.buffer k j (omega (arith, size, i.w_buffer))

  in_slot : place + length part ≤ slot_start w.offset + 528
  in_slot = omega (arith, length-part, size)

  free_slot : length q < 64
  free_slot = omega (arith, i.writable)

  w_offset-lt : w.offset < 64
  w_offset-lt = omega (arith, i.w_offset)

  in_memory : place + length part ≤ length s.memory
  in_memory = omega (arith, i.room, in_slot, w_offset-lt)

  copied : Copied w memory1 n (k + j)
  copied = record {
    bound = fits;
    done =
        sym (window-join memory1 (slot_start w.offset) k place j (k + j) refl refl)
        ∙ rw
            (
              window-memcpy_before s.memory place part (slot_start w.offset) k (omega arith),
              window-memcpy s.memory place part j (sym length-part) in_memory,
              i.writing.1.done,
            )
            (window-join w.frame.buffer 0 k k j (k + j) (omega arith) refl);
  }

  other_slot : (x : ℕ) → Fetched r s.memory x → 0 < length q → Fetched r memory1 x
  other_slot x f there = record {
    bound = f.bound;
    done =
        f.done
        ∙ sym (
            slot-memcpy_ne s.memory part r.offset w.offset place x
              (λ e. absurd (omega (arith, i.w_offset, i.r_offset, free_slot))) (omega arith) in_slot
              f.bound);
  }

  Reading-copy : (p1 : Reader) → Reading r s.memory p1 → taken p1 ≤ length q → Reading r memory1 p1
  Reading-copy r_rest h t = tt
  Reading-copy awaiting h t = tt
  Reading-copy (fetching x) h t = other_slot x h (omega arith)

  pub copy-Inv :
      Inv (config w r (record s { memory = memory1 }) (copying o timestamp n (k + j)) p) q
  copy-Inv = record {
    room = length-memcpy s.memory place part ∙ i.room;
    w_buffer = i.w_buffer;
    r_buffer = i.r_buffer;
    r_offset = i.r_offset;
    w_offset = i.w_offset;
    readable = i.readable;
    writable = i.writable;
    held =
        Holds-memcpy s.memory part r.offset w.offset place q i.r_offset i.w_offset free_slot
          (omega arith) in_slot i.held;
    writing = (i.writing.0, copied);
    reading = Reading-copy p i.reading (omega (arith, i.readable));
  }

-- The packet is passed on.
pub post-Inv :
    (w r : SharedMemory) (s : Shared) (p : Reader) (o : DataObject) (timestamp n : ℕ)
    (q : List Message)
    → Inv (config w r s (copying o timestamp n (16 + n)) p) q
    → Inv
        (config
          (record w { offset = next_slot w.offset })
          r
          (record s { readable = s.readable + 1 })
          w_rest
          p)
        (q ++ current w o timestamp ∷ [])
post-Inv w r s p o timestamp n q i = record {
  room = i.room;
  w_buffer = i.w_buffer;
  r_buffer = i.r_buffer;
  r_offset = i.r_offset;
  w_offset = omega (arith, i.w_offset, one_more);
  readable = omega (arith, i.readable, one_more);
  writable = omega (arith, i.writable, one_more);
  held = Holds-append s.memory r.offset w.offset q m i.r_offset i.w_offset i.held carried;
  writing = tt;
  reading = i.reading;
}
  where
    m : Message
    m = current w o timestamp

    one_more : length (q ++ m ∷ []) ≡ length q + 1
    one_more = length-append q (m ∷ [])

    whole : 16 + n ≡ length (bytes m)
    whole = omega (arith, length-packet m.id m.timestamp m.object, i.writing.0.size)

    carried : Carries (slot_at s.memory w.offset) m
    carried = record {
      fits = i.writing.0.fits;
      found =
          take-take (length (bytes m)) 528 _ (bytes-le i.writing.0.fits)
          ∙ rw (← whole) (i.writing.1.done ∙ i.writing.0.image);
    }
