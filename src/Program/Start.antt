-- ===== src/Program/Start.antt =====
-- src/main.cpp with shared_memory.cpp: a writer and a reader that were made and opened hold no message.
use ipc_performance.Prelude.{
  ℕ, zero, suc, ◌≡◌, refl, ap, ◌∙◌, sym, Bool, true, false, List, [], ◌∷◌, ◌++◌, arith, length,
  Option, none, some, if◌then◌else◌, inl, inr, Option-cases, ◌==◌, eq→==, ne→==,
}
use ipc_performance.Communication.Frame.{Frame}
use mathlib.Core.Option
use ipc_performance.Text.{same_text, same_text-refl}
use ipc_performance.Handler.Os.{
  codes, Call, opens, maps, sem_opens, sem_unlinks, unlinks, sem_name, base_name,
}
use ipc_performance.Benchmark.Statistics.{◌>>=◌}
use ipc_performance.Handler.Link.{Op, run, spec_run, Within}
use ipc_performance.Handler.Slots.{total_size}
use ipc_performance.Handler.SharedMemory.{SharedMemory, Replies, Shared, open_handler}
use ipc_performance.Handler.SharedMemory.Lifecycle.{open_memory-fds, open_memory-kept}
use ipc_performance.Handler.SharedMemory.Transfer.{Linked}
use ipc_performance.Handler.SharedMemory.Queue.{State, link, run_memory-spec_run}
use ipc_performance.Program.{cleared, new_frame, new_memory}

length-cleared : (n : ℕ) → length (cleared n) ≡ n
unfolding cleared
length-cleared zero = refl
length-cleared (suc n) = ap suc (length-cleared n)

length-new_frame : length new_frame.buffer ≡ 528
unfolding new_frame
length-new_frame = length-cleared 528

last_id-new_frame : new_frame.last_id ≡ 0
unfolding new_frame
last_id-new_frame = refl

-- The memory as both sides find it: the semaphores have their first values.
abbrev pub opened : List ℕ → Shared
opened memory = record { memory = memory; readable = 0; writable = 64 }

open_memory-Linked :
    (w r : SharedMemory) (rs rr : Replies) (memory : List ℕ)
    → w.frame ≡ new_frame
    → r.frame ≡ new_frame
    → w.offset ≡ 0
    → r.offset ≡ 0
    → (open_handler w rs).0 ≡ true
    → (open_handler r rr).0 ≡ true
    → length memory ≡ total_size
    → Linked (open_handler w rs).1 (open_handler r rr).1 (opened memory) []
open_memory-Linked w r rs rr memory fw fr ow or a b l =
    let kw = open_memory-kept w rs in
    let kr = open_memory-kept r rr in
    let room : (f : Frame) → f ≡ new_frame → length f.buffer ≡ 528 =
      λ f e. ap (λ (g : Frame). length g.buffer) e ∙ length-new_frame in
    record {
      w_open = sym (open_memory-fds w rs).0 ∙ a;
      r_open = sym (open_memory-fds r rr).0 ∙ b;
      room = l;
      w_buffer = room _ (kw.0 ∙ fw);
      r_buffer = room _ (kr.0 ∙ fr);
      r_offset = omega (arith, kr.1);
      w_offset = omega (arith, kw.1, kr.1);
      readable = refl;
      writable = refl;
      held = tt;
    }

-- The name under which a pointer to a semaphore was opened.
unfoldable pub name_of : ℕ → List Call → Option (List ℕ)
name_of p [] = none
name_of p (sem_opens name first s ∷ calls) =
    let rest = name_of p calls in if s == p then some name else rest
name_of p (call ∷ calls) = name_of p calls

abbrev kept_value : ℕ → Option ℕ → ℕ
kept_value first none = first
kept_value first (some v) = v

-- The value that the semaphore of a name has behind the calls, if there is one: `sem_unlink` takes the name
-- away, and `sem_open` makes a semaphore with the first value only where there is none.
unfoldable pub value_after : List ℕ → Option ℕ → List Call → Option ℕ
unfolding same_text
value_after name v [] = v
value_after name v (sem_unlinks n ∷ calls) =
    value_after name (if same_text n name then none else v) calls
value_after name v (sem_opens n first s ∷ calls) =
    value_after name (if same_text n name then some (kept_value first v) else v) calls
value_after name v (call ∷ calls) = value_after name v calls

-- The value of the semaphore that both processes have opened, the server with the pointer `p` and the client
-- with `q`; `old` are the values before. There is none if they have opened different names.
unfoldable pub shared_value :
    (List ℕ → Option ℕ) → List Call → List Call → Option ℕ → Option ℕ → Option ℕ
unfolding name_of value_after same_text
shared_value old server client (some p) (some q) = do
  n ← name_of p server
  m ← name_of q client
  if same_text n m then value_after n (old n) (server ++ client) else none
shared_value old server client p q = none

-- The pair of handlers that the command line makes of one name, both opened, the reader, which is the server,
-- first; the values of the semaphores are those behind the calls of both.
unfoldable pub started :
    List ℕ → Bool → Replies → Replies → (List ℕ → Option ℕ) → List ℕ → Option State
unfolding shared_value
started name mapped to_w to_r old memory =
    let (_, r, server) = open_handler (new_memory name true mapped) to_r in
    let (_, w, client) = open_handler (new_memory name false mapped) to_w in
    (do
      readable ← shared_value old server client r.reader w.reader
      writable ← shared_value old server client r.writer w.writer
      some (record {
        w = w;
        r = r;
        shared = record { memory = memory; readable = readable; writable = writable };
      }))

-- What `open` of a new handler does where it returns true.
record Opened (h : SharedMemory) (t : Replies) (before names : List Call) : Type 0 where
  fd : ℕ
  rs : ℕ
  ws : ℕ
  first : t.reader_sem ≡ some rs
  second : t.writer_sem ≡ some ws
  reader : (open_handler h t).1.reader ≡ some rs
  writer : (open_handler h t).1.writer ≡ some ws
  calls :
      (open_handler h t).2
      ≡ before
        ++ opens fd ∷ maps ∷ names
        ++ sem_opens (sem_name h.name "r") 0 rs ∷ sem_opens (sem_name h.name "w") 64 ws ∷ []

open-Opened :
    (h : SharedMemory) (t : Replies)
    → h.fd ≡ none
    → (open_handler h t).0 ≡ true
    → Opened h t (if h.server then unlinks h.name ∷ [] else []) (
        if h.server
        then sem_unlinks (sem_name h.name "r") ∷ sem_unlinks (sem_name h.name "w") ∷ []
        else [])
unfolding open_handler
open-Opened h t closed fine = elim (Option-cases t.opened) [
  | inl e ↦ absurd (ground arith)
  | inr (fd, e) ↦ elim (Option-cases t.reader_sem) [
    | inl f ↦ absurd (ground arith)
    | inr (rs, f) ↦ elim (Option-cases t.writer_sem) [
      | inl g ↦ absurd (ground arith)
      | inr (ws, g) ↦ record {
        fd = fd;
        rs = rs;
        ws = ws;
        first = f;
        second = g;
        reader = ground arith;
        writer = ground arith;
        calls = ground arith;
      }
    ]
  ]
]

same_text-append : (xs ys zs : List ℕ) → same_text (xs ++ ys) (xs ++ zs) ≡ same_text ys zs
unfolding same_text
same_text-append [] ys zs = refl
same_text-append (x ∷ xs) ys zs = rw (eq→== x x refl) (same_text-append xs ys zs)

r_w : (name : List ℕ) → same_text (sem_name name "r") (sem_name name "w") ≡ false
unfolding same_text
r_w name = same_text-append (base_name name) (codes "_semr") (codes "_semw")

w_r : (name : List ℕ) → same_text (sem_name name "w") (sem_name name "r") ≡ false
unfolding same_text
w_r name = same_text-append (base_name name) (codes "_semw") (codes "_semr")

module _ (name : List ℕ) where
  abbrev server_calls : ℕ → ℕ → ℕ → List Call
  server_calls fd rs ws =
      unlinks name
      ∷ opens fd
      ∷ maps
      ∷ sem_unlinks (sem_name name "r")
      ∷ sem_unlinks (sem_name name "w")
      ∷ sem_opens (sem_name name "r") 0 rs
      ∷ sem_opens (sem_name name "w") 64 ws
      ∷ []

  abbrev client_calls : ℕ → ℕ → ℕ → List Call
  client_calls fd rs ws =
      opens fd
      ∷ maps
      ∷ sem_opens (sem_name name "r") 0 rs
      ∷ sem_opens (sem_name name "w") 64 ws
      ∷ []

  readable_value :
      (old : List ℕ → Option ℕ) (fd rs ws gd ps qs : ℕ)
      → shared_value old (server_calls fd rs ws) (client_calls gd ps qs) (some rs) (some ps)
        ≡ some 0
  unfolding shared_value name_of value_after
  readable_value old fd rs ws gd ps qs =
      rw (eq→== rs rs refl, eq→== ps ps refl, same_text-refl (sem_name name "r"), w_r name)

  writable_value :
      (old : List ℕ → Option ℕ) (fd rs ws gd ps qs : ℕ)
      → (rs == ws) ≡ false
      → (ps == qs) ≡ false
      → shared_value old (server_calls fd rs ws) (client_calls gd ps qs) (some ws) (some qs)
        ≡ some 64
  unfolding shared_value name_of value_after
  writable_value old fd rs ws gd ps qs d e =
      rw (d, e, eq→== ws ws refl, eq→== qs qs refl, same_text-refl (sem_name name "w"), r_w name)

pointers_differ :
    (t : Replies) (p q : ℕ)
    → ¬ (t.reader_sem ≡ t.writer_sem)
    → t.reader_sem ≡ some p
    → t.writer_sem ≡ some q
    → (p == q) ≡ false
pointers_differ t p q d e f = ne→== p q (λ g. d (e ∙ ap some g ∙ sym f))

started-opened :
    (name : List ℕ) (mapped : Bool) (to_w to_r : Replies) (old : List ℕ → Option ℕ)
    (memory : List ℕ)
    → ¬ (to_w.reader_sem ≡ to_w.writer_sem)
    → ¬ (to_r.reader_sem ≡ to_r.writer_sem)
    → (open_handler (new_memory name false mapped) to_w).0 ≡ true
    → (open_handler (new_memory name true mapped) to_r).0 ≡ true
    → started name mapped to_w to_r old memory
      ≡ some (record {
        w = (open_handler (new_memory name false mapped) to_w).1;
        r = (open_handler (new_memory name true mapped) to_r).1;
        shared = opened memory;
      })
unfolding started
started-opened name mapped to_w to_r old memory dw dr a b =
    let w = open-Opened (new_memory name false mapped) to_w refl a in
    let r = open-Opened (new_memory name true mapped) to_r refl b in
    rw
      (
        r.reader,
        w.reader,
        r.writer,
        w.writer,
        r.calls,
        w.calls,
        readable_value name old r.fd r.rs r.ws w.fd w.rs w.ws,
        writable_value name old r.fd r.rs r.ws w.fd w.rs w.ws
            (pointers_differ to_r r.rs r.ws dr r.first r.second)
            (pointers_differ to_w w.rs w.ws dw w.first w.second),
      )
      refl

-- SharedMemory from the command line on: if the reader, which is the server, and then the writer
-- that the program makes of one name are opened and both calls return true, each process gets
-- different pointers for its two semaphores, and the memory has its full size, then, whatever
-- semaphores of those names there were before, both processes have opened the same two, and with
-- the values that these have, while no more than 64 messages are under way, every sequence of
-- whole, uninterrupted calls of `write` and `read` is answered as by an empty queue whose first
-- message gets the id 1.
pub run_started-spec_run :
    (name : List ℕ) (mapped : Bool) (to_w to_r : Replies) (old : List ℕ → Option ℕ)
    (memory : List ℕ) (ops : List Op)
    → ¬ (to_w.reader_sem ≡ to_w.writer_sem)
    → ¬ (to_r.reader_sem ≡ to_r.writer_sem)
    → (open_handler (new_memory name false mapped) to_w).0 ≡ true
    → (open_handler (new_memory name true mapped) to_r).0 ≡ true
    → length memory ≡ total_size
    → Within 64 0 ops
    → Option.map (λ s. run link s ops) (started name mapped to_w to_r old memory)
      ≡ some (spec_run 0 [] ops)
run_started-spec_run name mapped to_w to_r old memory ops dw dr a b l inside =
    let w = new_memory name false mapped in
    let r = new_memory name true mapped in
    let s : State = record {
      w = (open_handler w to_w).1;
      r = (open_handler r to_r).1;
      shared = opened memory;
    } in
    ap (Option.map (λ s. run link s ops))
      (started-opened name mapped to_w to_r old memory dw dr a b)
    ∙ ap some (
        run_memory-spec_run s [] ops
          (open_memory-Linked w r to_w to_r memory refl refl refl refl a b l) inside
        ∙ ap (λ (f : Frame). spec_run f.last_id [] ops) ((open_memory-kept w to_w).0)
        ∙ ap (λ n. spec_run n [] ops) last_id-new_frame)
