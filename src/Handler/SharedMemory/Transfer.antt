-- ===== src/Handler/SharedMemory/Transfer.antt =====
-- shared_memory.cpp, whole calls: a writer and a reader on one memory are a queue of at most 64
-- messages.
use ipc_performance.Prelude.{
  ℕ, suc, ◌+◌, ◌-◌, ◌%◌, ◌≤◌, ◌<◌, ◌^◌, ◌≡◌, refl, ap, ◌∙◌, sym, Bool, true, false, Option, none,
  List, [], ◌∷◌, ◌++◌, arith, take, length, length-append, ltb, ne→==, eq→==, lt→ltb, Bool-cases,
  inl, inr,
}
use ipc_performance.Prelude.Bytes.{memcpy, length-memcpy, memcpy_all}
use ipc_performance.Prelude.Windows.{length-window}
use ipc_performance.Communication.{DataObject, IsValid, no_data_available, failed}
use ipc_performance.Communication.Wire.{encode}
use ipc_performance.Communication.Frame.{Frame, pack}
use ipc_performance.Communication.Frame.Wire.{next_id, Packed, pack-Packed, pack-refuses}
use ipc_performance.Handler.Message.{Message, Fits, delivered}
use ipc_performance.Handler.Slots.{
  total_size, slot_start, Holds, Holds-put, take_apart-Carries, slot_at,
}
use ipc_performance.Handler.SharedMemory.{
  SharedMemory, is_open, Shared, done, blocked, write, read, finish_write, fetch, has_data,
  await_data,
}

-- Writer `w` and reader `r` are open on the same memory, which holds the messages `q`, oldest first.
pub record Linked (w r : SharedMemory) (s : Shared) (q : List Message) : Type 0 where
  pub w_open : is_open w ≡ true
  pub r_open : is_open r ≡ true
  pub room : length s.memory ≡ total_size
  pub w_buffer : length w.frame.buffer ≡ 528
  pub r_buffer : length r.frame.buffer ≡ 528
  pub r_offset : r.offset < 64
  pub w_offset : w.offset ≡ (r.offset + length q) % 64
  pub readable : s.readable ≡ length q
  pub writable : s.writable + length q ≡ 64
  pub held : Holds s.memory r.offset q

-- The message that the writer makes of an object.
abbrev pub next_message : SharedMemory → DataObject → ℕ → Message
next_message w o timestamp = record {
  id = next_id w.frame.last_id;
  timestamp = timestamp;
  object = o;
}

next_message-Fits :
    (w : SharedMemory) (o : DataObject) (timestamp : ℕ)
    → IsValid o
    → length (encode o) ≤ 512
    → timestamp < 2 ^ 64
    → Fits (next_message w o timestamp)
next_message-Fits w o timestamp v s t = record {
  id_fits = omega arith;
  timestamp_fits = t;
  object_valid = v;
  size_fits = s;
}

-- A `write` of an object that fits, while a slot is free, returns true and puts the message, under
-- the next id, behind the others.
pub write_memory-Linked :
    (w r : SharedMemory) (s : Shared) (q : List Message) (o : DataObject) (timestamp : ℕ)
    → Linked w r s q
    → IsValid o
    → length (encode o) ≤ 512
    → timestamp < 2 ^ 64
    → length q < 64
    → let (res, w', s') = write w s o timestamp false in
      (res ≡ done true)
      × Linked w' r s' (q ++ next_message w o timestamp ∷ [])
      × (w'.frame.last_id ≡ next_id w.frame.last_id)
unfolding write finish_write
write_memory-Linked w r s q o timestamp l v fits t free =
    rw (l.w_open, p.size, ne→== s.writable 0 (omega (arith, l.writable)))
      (
        refl,
        record {
          w_open = l.w_open;
          r_open = l.r_open;
          room = length-memcpy s.memory (slot_start w.offset) sent ∙ l.room;
          w_buffer = p.room ∙ l.w_buffer;
          r_buffer = l.r_buffer;
          r_offset = l.r_offset;
          w_offset = omega (arith, l.w_offset, one_more);
          readable = omega (arith, l.readable, one_more);
          writable = omega (arith, l.writable, one_more);
          held = carried;
        },
        p.counted,
      )
  where
    m : Message
    m = next_message w o timestamp

    p : Packed w.frame o timestamp (pack w.frame o timestamp)
    p = pack-Packed w.frame o timestamp l.w_buffer fits

    sent : List ℕ
    sent = take (16 + length (encode o)) (pack w.frame o timestamp).1.buffer

    one_more : length (q ++ m ∷ []) ≡ length q + 1
    one_more = length-append q (m ∷ [])

    carried : Holds (memcpy s.memory (slot_start w.offset) sent) r.offset (q ++ m ∷ [])
    carried = rw p.bytes (
        Holds-put s.memory r.offset w.offset q m l.r_offset l.w_offset free l.room
          (next_message-Fits w o timestamp v fits t) l.held)

-- SharedMemory: while all 64 slots hold messages, `write` of an object that fits waits, and
-- neither the memory nor the messages change.
pub write_memory-full :
    (w r : SharedMemory) (s : Shared) (q : List Message) (o : DataObject) (timestamp : ℕ)
    → Linked w r s q
    → length (encode o) ≤ 512
    → length q ≡ 64
    → let (res, w', s') = write w s o timestamp false in
      (res ≡ blocked) × (s' ≡ s) × Linked w' r s' q
unfolding write
write_memory-full w r s q o timestamp l fits full =
    rw (l.w_open, p.size, eq→== s.writable 0 (omega (arith, l.writable)))
      (
        refl,
        refl,
        record {
          w_open = l.w_open;
          r_open = l.r_open;
          room = l.room;
          w_buffer = p.room ∙ l.w_buffer;
          r_buffer = l.r_buffer;
          r_offset = l.r_offset;
          w_offset = l.w_offset;
          readable = l.readable;
          writable = l.writable;
          held = l.held;
        },
      )
  where
    p : Packed w.frame o timestamp (pack w.frame o timestamp)
    p = pack-Packed w.frame o timestamp l.w_buffer fits

-- An object that does not fit is refused and changes nothing.
pub write_memory-oversized :
    (w : SharedMemory) (s : Shared) (o : DataObject) (timestamp : ℕ) (interrupted : Bool)
    → 512 < length (encode o)
    → write w s o timestamp interrupted ≡ (done false, w, s)
unfolding write
write_memory-oversized w s o timestamp interrupted h =
    let same : pack w.frame o timestamp ≡ (none, w.frame) = pack-refuses w.frame o timestamp h in
    elim (Bool-cases (is_open w)) [
      | inl e ↦
          rw (e, ap (λ (r : Option ℕ × Frame). r.0) same, ap (λ (r : Option ℕ × Frame). r.1) same)
      | inr e ↦ rw e
    ]

-- A `read` while messages are there returns the oldest one and frees its slot.
pub read_memory-Linked :
    (w r : SharedMemory) (s : Shared) (q : List Message) (m : Message)
    → Linked w r s (m ∷ q)
    → let (res, r', s') = read r s false in (res ≡ delivered m) × Linked w r' s' q
unfolding read fetch
read_memory-Linked w r s q m l =
    rw (l.r_open, ne→== s.readable 0 (omega (arith, l.readable)))
      (
        take_apart-Carries (memcpy r.frame.buffer 0 slot) m (rw copied l.held.0),
        record {
          w_open = l.w_open;
          r_open = l.r_open;
          room = l.room;
          w_buffer = l.w_buffer;
          r_buffer = length-memcpy r.frame.buffer 0 slot ∙ l.r_buffer;
          r_offset = omega arith;
          w_offset = omega (arith, l.w_offset, l.r_offset);
          readable = omega (arith, l.readable);
          writable = omega (arith, l.writable);
          held = l.held.1;
        },
      )
  where
    slot : List ℕ
    slot = slot_at s.memory r.offset

    copied : memcpy r.frame.buffer 0 slot ≡ slot
    copied = memcpy_all r.frame.buffer slot (
        length-window s.memory (slot_start r.offset) 528 (omega (arith, l.room, l.r_offset))
        ∙ sym l.r_buffer)

-- While none is there it fails with NO_DATA_AVAILABLE and changes nothing.
pub read_memory-empty :
    (w r : SharedMemory) (s : Shared)
    → Linked w r s []
    → read r s false ≡ (failed no_data_available, r, s)
unfolding read
read_memory-empty w r s l = rw (l.r_open, eq→== s.readable 0 l.readable)

-- SharedMemory: if no system call fails, `has_data` and `await_data` of an open reader say
-- whether there is a message to read (`await_data` within its time), and neither changes the
-- memory or a semaphore.
pub await_memory-Linked :
    (w r : SharedMemory) (s : Shared) (q : List Message)
    → Linked w r s q
    → (has_data r s false ≡ ltb 0 (length q)) × (await_data r s false ≡ (ltb 0 (length q), s))
unfolding has_data await_data
await_memory-Linked w r s [] l =
    rw (l.r_open, eq→== s.readable 0 l.readable, l.readable) (refl, refl)
await_memory-Linked w r s (m ∷ q) l =
    rw
      (
        l.r_open,
        ne→== s.readable 0 (omega (arith, l.readable)),
        lt→ltb 0 s.readable (omega (arith, l.readable)),
        again,
        lt→ltb 0 (suc (length q)) (omega arith),
      )
      (refl, refl)
  where
    again : record s { readable = s.readable - 1 + 1 } ≡ s
    again = λ i. record s { readable = same i }
      where
        same : s.readable - 1 + 1 ≡ s.readable
        same = omega (arith, l.readable)
