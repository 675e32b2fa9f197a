-- ===== src/Handler/Os.antt =====
-- The calls of the operating system that `open`, `close` and `accept` of the handlers make, as a list
-- in the order in which they are made. What the system answers is an argument of the handler's
-- function. A call that fails and changes nothing is left out, and so are those that only set
-- attributes (bind, listen, setsockopt, ftruncate): their answer decides which calls follow.
use Prim.Native.String.{String}
use Prim.Native.Char.{code}
use ipc_performance.Prelude.{
  ℕ, ◌≡◌, Bool, true, false, ◌||◌, ◌==◌, if◌then◌else◌, Option, none, some, List, [], ◌∷◌, ◌++◌,
  arith, refl,
}

-- The bytes of a text of the program.
abbrev pub codes : String → List ℕ
codes String.[] = []
codes (String.◌∷◌ c s) = code c ∷ codes s

pub data Call : Type 0 where
  opens : ℕ → Call  -- open, shm_open, socket, mq_open, accept4: a descriptor
  closes : ℕ → Call  -- close, mq_close
  maps : Call
  unmaps : Bool → Call  -- whether it is a mapping, or the null pointer
  sem_opens : List ℕ → ℕ → ℕ → Call  -- its name, its first value, the semaphore
  sem_closes : Option ℕ → Call  -- `none` is the null pointer, which is SEM_FAILED too
  sem_unlinks : List ℕ → Call
  unlinks : List ℕ → Call  -- unlink, remove, shm_unlink, mq_unlink
  makes_fifo : List ℕ → Call

-- `fd != -1`
abbrev pub has_fd : Option ℕ → Bool
has_fd none = false
has_fd (some fd) = true

-- `poll` of src/utility.cpp: -1, 0 or 1.
pub data Poll : Type 0 where
  poll_error : Poll
  timed_out : Poll
  ready : Poll

-- `res > 0`
abbrev pub is_ready : Poll → Bool
is_ready ready = true
is_ready p = false

-- What a call that reads answers: bytes, -1 with EAGAIN, or -1 with another error.
pub data Received : Type 0 where
  received : List ℕ → Received
  again : Received
  broken : Received

-- The list without the first entry of this number.
unfoldable pub remove : ℕ → List ℕ → List ℕ
remove n [] = []
remove n (m ∷ ms) = if m == n then ms else m ∷ remove n ms

-- The descriptors that are held after the calls.
unfoldable pub fds_after : List ℕ → List Call → List ℕ
unfolding remove
fds_after held [] = held
fds_after held (opens n ∷ cs) = fds_after (n ∷ held) cs
fds_after held (closes n ∷ cs) = fds_after (remove n held) cs
fds_after held (c ∷ cs) = fds_after held cs

-- The semaphores that are held after the calls, or `none` if one is closed that is not held.
unfoldable pub drop_sem : ℕ → List ℕ → Option (List ℕ)
drop_sem n [] = none
drop_sem n (m ∷ ms) =
    let rest : Option (List ℕ) = elim (drop_sem n ms) [ none ↦ none | some r ↦ some (m ∷ r) ] in
    if m == n then some ms else rest

unfoldable pub sems_after : List ℕ → List Call → Option (List ℕ)
unfolding drop_sem
sems_after held [] = some held
sems_after held (sem_opens name value s ∷ cs) = sems_after (s ∷ held) cs
sems_after held (sem_closes (some s) ∷ cs) = elim (drop_sem s held) [
  | none ↦ none
  | some rest ↦ sems_after rest cs
]
sems_after held (c ∷ cs) = sems_after held cs

-- Whether a name is taken away from the file system or its like.
unfoldable pub unlinks_any : List Call → Bool
unlinks_any [] = false
unlinks_any (unlinks name ∷ cs) = true
unlinks_any (sem_unlinks name ∷ cs) = true
unlinks_any (c ∷ cs) = unlinks_any cs

-- `name.substr(name.rfind('/') + 1)`: what stands behind the last slash, or all of the name.
unfoldable pub has_slash : List ℕ → Bool
has_slash [] = false
has_slash (c ∷ cs) = c == b'/' || has_slash cs

unfoldable pub base_name : List ℕ → List ℕ
unfolding has_slash
base_name [] = []
base_name (c ∷ cs) = if has_slash cs then base_name cs else if c == b'/' then cs else c ∷ cs

-- `prefix + "r"` and `prefix + "w"`
abbrev pub sem_name : List ℕ → String → List ℕ
sem_name name suffix = base_name name ++ (codes "_sem" ++ codes suffix)

-- The name that SharedMemory derives the names of its semaphores from has no slash, whatever the
-- name of the memory or file.
pub base_name_flat : (name : List ℕ) → has_slash (base_name name) ≡ false
unfolding base_name
base_name_flat [] = refl
base_name_flat (c ∷ cs) = ground (arith, base_name_flat cs)

-- The descriptors that a member names.
abbrev pub held : Option ℕ → List ℕ
held none = []
held (some fd) = fd ∷ []

pub remove_self : (n : ℕ) (ms : List ℕ) → remove n (n ∷ ms) ≡ ms
unfolding remove
remove_self n ms = ground arith
