-- ===== src/Handler/Sequence.antt =====
-- Calls of a handler one after the other, and what the process holds behind them.
use ipc_performance.Prelude.{ℕ, ◌≡◌, refl, List, [], ◌∷◌, ◌++◌}
use ipc_performance.Handler.Os.{
  Call, opens, closes, maps, unmaps, sem_opens, sem_closes, sem_unlinks, unlinks, makes_fifo,
  remove, fds_after,
}

pub fds_after-append :
    (held : List ℕ) (xs ys : List Call)
    → fds_after held (xs ++ ys) ≡ fds_after (fds_after held xs) ys
unfolding fds_after
fds_after-append held [] ys = refl
fds_after-append held (opens n ∷ xs) ys = fds_after-append (n ∷ held) xs ys
fds_after-append held (closes n ∷ xs) ys = fds_after-append (remove n held) xs ys
fds_after-append held (maps ∷ xs) ys = fds_after-append held xs ys
fds_after-append held (unmaps b ∷ xs) ys = fds_after-append held xs ys
fds_after-append held (sem_opens a b c ∷ xs) ys = fds_after-append held xs ys
fds_after-append held (sem_closes a ∷ xs) ys = fds_after-append held xs ys
fds_after-append held (sem_unlinks a ∷ xs) ys = fds_after-append held xs ys
fds_after-append held (unlinks a ∷ xs) ys = fds_after-append held xs ys
fds_after-append held (makes_fifo a ∷ xs) ys = fds_after-append held xs ys

module _ {H Op C : Type 0} (step : H → Op → H × List C) where
  unfoldable pub sequence : H → List Op → H × List C
  sequence h [] = (h, [])
  sequence h (op ∷ ops) =
      let (h1, calls) = step h op in let (h2, more) = sequence h1 ops in (h2, calls ++ more)

-- `after` is what is held behind calls of the type `C`, `named` what the handler names, and `law` says that
-- each operation keeps them the same, where `Good` holds.
module _ {H Op C : Type 0} (step : H → Op → H × List C) (after : List ℕ → List C → List ℕ)
    (append_law : (held : List ℕ) (xs ys : List C)
      → after held (xs ++ ys) ≡ after (after held xs) ys)
    (none_law : (held : List ℕ) → after held [] ≡ held) (named : H → List ℕ) (Good : H → Type 0)
    (law : (h : H) (op : Op)
      → Good h
      → (after (named h) (step h op).1 ≡ named (step h op).0) × Good (step h op).0) where
  pub sequence-exact :
      (h : H) (ops : List Op)
      → Good h
      → (after (named h) (sequence step h ops).1 ≡ named (sequence step h ops).0)
        × Good (sequence step h ops).0
  unfolding sequence
  sequence-exact h [] g = (none_law (named h), g)
  sequence-exact h (op ∷ ops) g =
      let one = law h op g in
      let more = sequence-exact (step h op).0 ops one.1 in
      (
        rw (append_law (named h) (step h op).1 (sequence step (step h op).0 ops).1, one.0) more.0,
        more.1,
      )
