-- ===== src/Program/Main/Closing.antt =====
-- src/main.cpp: what `main` has done with the handler when it comes to an exit code.
use ipc_performance.Prelude.{
  ℕ, ◌≡◌, refl, ◌∙◌, Bool, true, false, if◌then◌else◌, Option, none, some, List, [], ◌∷◌, to_u32,
}
use ipc_performance.Handler.Os.{codes}
use ipc_performance.Text.{same_text, stoull}
use ipc_performance.Benchmark.{Status, returned, broke, running}
use ipc_performance.Benchmark.Statistics.{Statistics}
use ipc_performance.Program.{Handler, create_handler}
use ipc_performance.Program.Trace.{DataPoint, Parsed, parsed, throws, outside, parse_trace}
use ipc_performance.Program.Main.{
  Exit, exits, breaks, runs_on, Step, opens, runs, closes, Report, silent, Answers, benchmark,
  with_statistics, with_number, run_latency, run_throughput, run_execution_time, run_real_world,
  with_points, run_normal, start_latency, start_throughput, start_execution, start_real_world,
  start_kind, path_for, main,
}

-- A handler that was opened is closed.
unfoldable pub balanced : List Step → Bool
balanced [] = true
balanced (opens false ∷ []) = true
balanced (opens true ∷ runs fine ∷ closes ∷ []) = true
balanced steps = false

-- The loop has succeeded.
unfoldable pub succeeded : List Step → Bool
succeeded (opens true ∷ runs true ∷ closes ∷ []) = true
succeeded steps = false

-- What an exit code says.
abbrev Says : Exit × Report × List Step → Type 0
Says (exits code, report, steps) =
    (balanced steps ≡ true) × (code ≡ (if succeeded steps then 0 else 1))
Says (exit, report, steps) = Unit {0}

-- What follows a benchmark that has succeeded: the exit code 0, or undefined behaviour.
abbrev Follows : Exit × Report → Type 0
Follows (exits code, report) = code ≡ 0
Follows (exit, report) = Unit {0}

benchmark-Says :
    (opened : Bool) (status : Status) (r : Exit × Report)
    → Follows r
    → Says (benchmark opened status r)
unfolding balanced succeeded
benchmark-Says false status r f = (refl, refl)
benchmark-Says true (returned true) (exits code, report) f = (refl, f)
benchmark-Says true (returned true) (breaks, report) f = tt
benchmark-Says true (returned true) (runs_on, report) f = tt
benchmark-Says true (returned false) r f = (refl, refl)
benchmark-Says true broke r f = tt
benchmark-Says true running r f = tt

with_statistics-Follows :
    (s : Option Statistics) (f : Statistics → Report) → Follows (with_statistics s f)
with_statistics-Follows none f = tt
with_statistics-Follows (some s) f = refl

bad_arguments-Says : Says (exits 1, silent, [])
unfolding balanced succeeded
bad_arguments-Says = (refl, refl)

run_latency-Says : (a : Answers) (n d : ℕ) (mode : Bool) → Says (run_latency a n d mode)
unfolding run_latency
run_latency-Says a n d true = benchmark-Says a.opened _ _ (with_statistics-Follows _ _)
run_latency-Says a n d false = benchmark-Says a.opened _ (exits 0, silent) refl

run_throughput-Says : (a : Answers) (n s : ℕ) (mode : Bool) → Says (run_throughput a n s mode)
unfolding run_throughput
run_throughput-Says a n s true = benchmark-Says a.opened _ _ refl
run_throughput-Says a n s false = benchmark-Says a.opened _ (exits 0, silent) refl

run_execution_time-Says :
    (a : Answers) (n s d : ℕ) (mode : Bool) → Says (run_execution_time a n s d mode)
unfolding run_execution_time
run_execution_time-Says a n s d true = benchmark-Says a.opened _ _ (with_statistics-Follows _ _)
run_execution_time-Says a n s d false = benchmark-Says a.opened _ _ (with_statistics-Follows _ _)

with_points-Says :
    (a : Answers) (points : Parsed (List DataPoint)) (t : ℕ) (mode : Bool)
    → Says (with_points a points t mode)
with_points-Says a (parsed points) t mode = benchmark-Says a.opened _ _ refl
with_points-Says a throws t mode = tt
with_points-Says a outside t mode = tt

run_real_world-Says :
    (a : Answers) (text : List ℕ) (t : ℕ) (mode : Bool) → Says (run_real_world a text t mode)
unfolding run_real_world
run_real_world-Says a text t mode = with_points-Says a (parse_trace text) t mode

run_normal-Says : (a : Answers) (mode : Bool) → Says (run_normal a mode)
unfolding run_normal
run_normal-Says a mode = benchmark-Says a.opened _ (exits 0, silent) refl

number-Says :
    (text : List ℕ) (f : ℕ → Exit × Report × List Step)
    → ((n : ℕ) → Says (f n))
    → Says (with_number text f)
number-Says text f h =
    elim (stoull 10 text)
      as (λ n. Says (elim n [ none ↦ (breaks, silent, []) | some n ↦ f (to_u32 n) ])) [
        | none ↦ tt
        | some n ↦ h (to_u32 n)
      ]

start_latency-Says :
    (a : Answers) (mode : Bool) (ps : List (List ℕ)) → Says (start_latency a mode ps)
unfolding start_latency
start_latency-Says a mode [] = bad_arguments-Says
start_latency-Says a mode (p ∷ []) = bad_arguments-Says
start_latency-Says a mode (p ∷ q ∷ more) =
    number-Says p _ (λ n. number-Says q _ (λ d. run_latency-Says a n d mode))

start_throughput-Says :
    (a : Answers) (mode : Bool) (ps : List (List ℕ)) → Says (start_throughput a mode ps)
unfolding start_throughput
start_throughput-Says a mode [] = bad_arguments-Says
start_throughput-Says a mode (p ∷ []) = bad_arguments-Says
start_throughput-Says a mode (p ∷ q ∷ more) =
    number-Says p _ (λ n. number-Says q _ (λ s. run_throughput-Says a n s mode))

start_execution-Says :
    (a : Answers) (mode : Bool) (ps : List (List ℕ)) → Says (start_execution a mode ps)
unfolding start_execution
start_execution-Says a mode [] = bad_arguments-Says
start_execution-Says a mode (p ∷ []) = bad_arguments-Says
start_execution-Says a mode (p ∷ q ∷ []) = bad_arguments-Says
start_execution-Says a mode (p ∷ q ∷ r ∷ more) =
    number-Says p _
      (λ n. number-Says q _ (λ s. number-Says r _ (λ d. run_execution_time-Says a n s d mode)))

start_real_world-Says :
    (a : Answers) (files : List ℕ → List ℕ) (mode : Bool) (ps : List (List ℕ))
    → Says (start_real_world a files mode ps)
unfolding start_real_world
start_real_world-Says a files mode [] = bad_arguments-Says
start_real_world-Says a files mode (p ∷ []) = bad_arguments-Says
start_real_world-Says a files mode (p ∷ q ∷ more) =
    number-Says q _ (λ t. run_real_world-Says a (files p) t mode)

if-Says : (b : Bool) (r s : Exit × Report × List Step) → Says r → Says s → Says (if b then r else s)
if-Says true r s h k = h
if-Says false r s h k = k

start_kind-Says :
    (a : Answers) (files : List ℕ → List ℕ) (kind : List ℕ) (mode : Bool) (ps : List (List ℕ))
    → Says (start_kind a files kind mode ps)
unfolding start_kind
start_kind-Says a files kind mode ps =
    if-Says (same_text kind (codes "normal")) _ _ (run_normal-Says a mode) (
      if-Says (same_text kind (codes "latency")) _ _ (start_latency-Says a mode ps) (
        if-Says (same_text kind (codes "throughput")) _ _ (start_throughput-Says a mode ps) (
          if-Says (same_text kind (codes "execution")) _ _ (start_execution-Says a mode ps) (
            if-Says (same_text kind (codes "realworld")) _ _ (start_real_world-Says a files mode ps)
              bad_arguments-Says))))

handler-Says :
    (h : Option Handler) (f : Handler → Exit × Report × List Step)
    → ((handler : Handler) → Says (f handler))
    → Says (elim h [ none ↦ (exits 1, silent, []) | some handler ↦ f handler ])
handler-Says none f h = bad_arguments-Says
handler-Says (some handler) f h = h handler

all-Says :
    (a : Handler → Answers) (files : List ℕ → List ℕ) (arguments : List (List ℕ))
    → Says (main a files arguments)
unfolding main
all-Says a files [] = bad_arguments-Says
all-Says a files (kind ∷ []) = bad_arguments-Says
all-Says a files (kind ∷ type ∷ []) = bad_arguments-Says
all-Says a files (kind ∷ type ∷ mode ∷ ps) =
    let reader = same_text mode (codes "reader") in
    handler-Says (create_handler type (path_for type) reader)
      (λ handler. start_kind (a handler) files kind reader ps)
      (λ handler. start_kind-Says (a handler) files kind reader ps)

code_of :
    (r : Exit × Report × List Step) (code : ℕ)
    → Says r
    → r.0 ≡ exits code
    → (balanced r.2 ≡ true) × (code ≡ (if succeeded r.2 then 0 else 1))
code_of (exits n, report, steps) code s e = let same : code ≡ n = cc in (s.0, same ∙ s.1)
code_of (breaks, report, steps) code s e = absurd (cc)
code_of (runs_on, report, steps) code s e = absurd (cc)

-- The program as a whole: for all arguments and files, and whatever the handler answers, if
-- `main` comes to an exit code, then the handler was never opened, or its `open` failed, or it
-- was opened, used and closed; and the code is 0 if and only if the handler was opened, used by a
-- loop that succeeded, and closed, and 1 otherwise.
pub main-succeeded :
    (a : Handler → Answers) (files : List ℕ → List ℕ) (arguments : List (List ℕ)) (code : ℕ)
    → (main a files arguments).0 ≡ exits code
    → let (exit, report, steps) = main a files arguments in
      (balanced steps ≡ true) × (code ≡ (if succeeded steps then 0 else 1))
main-succeeded a files arguments code =
    code_of (main a files arguments) code (all-Says a files arguments)
