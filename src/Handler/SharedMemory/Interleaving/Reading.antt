-- ===== src/Handler/SharedMemory/Interleaving/Reading.antt =====
-- handler/shared_memory.cpp: the steps of `read` that copy the slot keep the invariant.
use ipc_performance.Prelude.{ℕ, ◌+◌, ◌≤◌, ◌≡◌, refl, ◌∙◌, sym, List, arith, length}
use ipc_performance.Prelude.Bytes.{
  memcpy, window, length-memcpy, window-memcpy, window-memcpy_before,
}
use ipc_performance.Prelude.Windows.{window-join, length-window}
use ipc_performance.Handler.Message.{Message}
use ipc_performance.Handler.Slots.{slot_start}
use ipc_performance.Handler.SharedMemory.{SharedMemory, Shared}
use ipc_performance.Handler.SharedMemory.Steps.{Writer, fetching, config}
use ipc_performance.Handler.SharedMemory.Interleaving.Invariant.{Inv}

-- A part of the slot is copied.
pub fetch-Inv :
    (w r : SharedMemory) (s : Shared) (p : Writer) (k j : ℕ) (q : List Message)
    → k + j ≤ 528
    → Inv (config w r s p (fetching k)) q
    → Inv
        (config w
          (record r {
            frame = record r.frame {
              buffer = memcpy r.frame.buffer k (window s.memory (slot_start r.offset + k) j);
            };
          })
          s
          p
          (fetching (k + j)))
        q
fetch-Inv w r s p k j q fits i = record {
  room = i.room;
  w_buffer = i.w_buffer;
  r_buffer = length-memcpy r.frame.buffer k part ∙ i.r_buffer;
  r_offset = i.r_offset;
  w_offset = i.w_offset;
  readable = i.readable;
  writable = i.writable;
  held = i.held;
  writing = i.writing;
  reading = record {
    bound = fits;
    done =
        sym (window-join buffer1 0 k k j (k + j) (omega arith) refl)
        ∙ rw
            (
              window-memcpy_before r.frame.buffer k part 0 k (omega arith),
              window-memcpy r.frame.buffer k part j (sym length-part)
                  (omega (arith, length-part, i.r_buffer)),
              i.reading.done,
            )
            (window-join s.memory (slot_start r.offset) k (slot_start r.offset + k) j (k + j) refl
              refl);
  };
}
  where
    part : List ℕ
    part = window s.memory (slot_start r.offset + k) j

    buffer1 : List ℕ
    buffer1 = memcpy r.frame.buffer k part

    length-part : length part ≡ j
    length-part =
        length-window s.memory (slot_start r.offset + k) j (omega (arith, i.room, i.r_offset))
