-- ===== src/Handler/SharedMemory/Interleaving/Invariant.antt =====
-- handler/shared_memory.cpp: what holds of both processes and their memory between any two steps.
use ipc_performance.Prelude.{ℕ, ◌+◌, ◌%◌, ◌≤◌, ◌<◌, ◌≡◌, List, length, take}
use ipc_performance.Prelude.Bytes.{window}
use ipc_performance.Communication.{DataObject}
use ipc_performance.Communication.Wire.{encode}
use ipc_performance.Handler.Message.{Message, Fits, bytes}
use ipc_performance.Handler.Slots.{total_size, slot_start, Holds}
use ipc_performance.Handler.SharedMemory.{SharedMemory}
use ipc_performance.Handler.SharedMemory.Steps.{
  Writer, w_rest, packed, copying, Reader, r_rest, awaiting, fetching, Config, current,
}

-- The packet of a call of `write` stands in the buffer.
pub record Ready (w : SharedMemory) (o : DataObject) (timestamp n : ℕ) : Type 0 where
  pub fits : Fits (current w o timestamp)
  pub size : n ≡ length (encode o)
  pub image : take (16 + n) w.frame.buffer ≡ bytes (current w o timestamp)

-- And `k` bytes of it in its slot.
pub record Copied (w : SharedMemory) (memory : List ℕ) (n k : ℕ) : Type 0 where
  pub bound : k ≤ 16 + n
  pub done : window memory (slot_start w.offset) k ≡ take k w.frame.buffer

abbrev pub Writing : SharedMemory → List ℕ → Writer → Type 0
Writing w memory w_rest = Unit {0}
Writing w memory (packed o timestamp n) = Ready w o timestamp n
Writing w memory (copying o timestamp n k) = Ready w o timestamp n × Copied w memory n k

-- `k` bytes of a slot stand in the buffer of `read`.
pub record Fetched (r : SharedMemory) (memory : List ℕ) (k : ℕ) : Type 0 where
  pub bound : k ≤ 528
  pub done : take k r.frame.buffer ≡ window memory (slot_start r.offset) k

abbrev pub Reading : SharedMemory → List ℕ → Reader → Type 0
Reading r memory r_rest = Unit {0}
Reading r memory awaiting = Unit {0}
Reading r memory (fetching k) = Fetched r memory k

-- The slot that a process has taken from a semaphore and not passed on.
abbrev pub busy : Writer → ℕ
busy (copying o timestamp n k) = 1
busy p = 0

abbrev pub taken : Reader → ℕ
taken r_rest = 0
taken q = 1

-- The messages `q` are there, oldest first; the one that is being read counts as there, the one that is
-- being written does not.
pub record Inv (c : Config) (q : List Message) : Type 0 where
  pub room : length c.shared.memory ≡ total_size
  pub w_buffer : length c.w.frame.buffer ≡ 528
  pub r_buffer : length c.r.frame.buffer ≡ 528
  pub r_offset : c.r.offset < 64
  pub w_offset : c.w.offset ≡ (c.r.offset + length q) % 64
  pub readable : c.shared.readable + taken c.reader ≡ length q
  pub writable : c.shared.writable + busy c.writer + length q ≡ 64
  pub held : Holds c.shared.memory c.r.offset q
  pub writing : Writing c.w c.shared.memory c.writer
  pub reading : Reading c.r c.shared.memory c.reader
