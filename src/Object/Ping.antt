-- ===== src/Object/Ping.antt =====
-- object/ping.cpp: the empty message.
use ipc_performance.Prelude.{ℕ, Option, some, List}

pub data Ping : Type 0 where
  ping : Ping

-- Nothing is written.
unfoldable pub serialize : Ping → List ℕ → ℕ → ℕ → ℕ × List ℕ
serialize p buffer base size = (0, buffer)

unfoldable pub deserialize : List ℕ → ℕ → Option Ping
deserialize buffer size = some ping
