-- ===== src/Handler/SharedMemory/Interleaving/Moves.antt =====
-- handler/shared_memory.cpp: each step of either process keeps the invariant.
use ipc_performance.Prelude.{
  ◌+◌, ◌≡◌, refl, ap, ◌∙◌, sym, List, [], ◌∷◌, ◌++◌, arith, map, append-nil, take_all,
}
use ipc_performance.Handler.Message.{Message, delivered}
use ipc_performance.Handler.Slots.{next_slot, slot_at, take_apart, take_apart-Carries}
use ipc_performance.Handler.SharedMemory.{SharedMemory, Shared}
use ipc_performance.Handler.SharedMemory.Steps.{
  Writer, r_rest, fetching, Config, config, Label, silent, got, Step, begin, refuse, interrupt,
  wait, copy, post, await, give_back, find_none, take_one, fetch, free, current, sent_of, got_of,
}
use ipc_performance.Handler.SharedMemory.Interleaving.Invariant.{Inv}
use ipc_performance.Handler.SharedMemory.Interleaving.Writing.{
  begin-Inv, refuse-Inv, copy-Inv, post-Inv,
}
use ipc_performance.Handler.SharedMemory.Interleaving.Reading.{fetch-Inv}

-- The invariant behind a step, with the messages that it has taken away.
pub record After (q : List Message) (l : Label) (d : Config) : Type 0 where
  pub taken : List Message
  pub rest : List Message
  pub inv : Inv d rest
  pub conserved : q ++ sent_of l ≡ taken ++ rest
  pub read : got_of l ≡ map delivered taken

-- A step that returns nothing.
same_queue : {d : Config} (q : List Message) → Inv d q → After q silent d
same_queue q i = record { taken = []; rest = q; inv = i; conserved = append-nil q; read = refl }

-- The slot is passed on, and the buffer taken apart.
free-After :
    (w r : SharedMemory) (s : Shared) (p : Writer) (q : List Message)
    → Inv (config w r s p (fetching 528)) q
    → After q (got (take_apart r.frame.buffer)) (
        config w
          (record r { offset = next_slot r.offset })
          (record s { writable = s.writable + 1 })
          p
          r_rest)
free-After w r s p [] i = absurd (omega (arith, i.readable))
free-After w r s p (m ∷ q) i = record {
  taken = m ∷ [];
  rest = q;
  inv = record {
    room = i.room;
    w_buffer = i.w_buffer;
    r_buffer = i.r_buffer;
    r_offset = omega arith;
    w_offset = omega (arith, i.w_offset, i.r_offset);
    readable = omega (arith, i.readable);
    writable = omega (arith, i.writable);
    held = i.held.1;
    writing = i.writing;
    reading = tt;
  };
  conserved = ap (λ ms. m ∷ ms) (append-nil q);
  read = ap (λ x. x ∷ []) (take_apart-Carries r.frame.buffer m (rw whole i.held.0));
}
  where
    whole : r.frame.buffer ≡ slot_at s.memory r.offset
    whole = sym (take_all 528 r.frame.buffer (omega (arith, i.r_buffer))) ∙ i.reading.done

pub step-After : {c d : Config} {l : Label} (q : List Message) → Inv c q → Step c l d → After q l d
step-After q i (begin w r s p o timestamp n opened v t e) =
    same_queue q (begin-Inv w r s p o timestamp n q v t e i)
step-After q i (refuse w r s p o timestamp opened e) =
    same_queue q (refuse-Inv w r s p o timestamp q e i)
step-After q i (interrupt w r s p o timestamp n) = same_queue q (record {
  room = i.room;
  w_buffer = i.w_buffer;
  r_buffer = i.r_buffer;
  r_offset = i.r_offset;
  w_offset = i.w_offset;
  readable = i.readable;
  writable = i.writable;
  held = i.held;
  writing = tt;
  reading = i.reading;
})
step-After q i (wait w r s p o timestamp n h) = same_queue q (record {
  room = i.room;
  w_buffer = i.w_buffer;
  r_buffer = i.r_buffer;
  r_offset = i.r_offset;
  w_offset = i.w_offset;
  readable = i.readable;
  writable = omega (arith, i.writable);
  held = i.held;
  writing = (i.writing, record { bound = omega arith; done = refl });
  reading = i.reading;
})
step-After q i (copy w r s p o timestamp n k j h) =
    same_queue q (copy-Inv w r s p o timestamp n k j q h i)
step-After q i (post w r s p o timestamp n) = record {
  taken = [];
  rest = q ++ current w o timestamp ∷ [];
  inv = post-Inv w r s p o timestamp n q i;
  conserved = refl;
  read = refl;
}
step-After q i (await w r s p opened h) = same_queue q (record {
  room = i.room;
  w_buffer = i.w_buffer;
  r_buffer = i.r_buffer;
  r_offset = i.r_offset;
  w_offset = i.w_offset;
  readable = omega (arith, i.readable);
  writable = i.writable;
  held = i.held;
  writing = i.writing;
  reading = tt;
})
step-After q i (give_back w r s p) = same_queue q (record {
  room = i.room;
  w_buffer = i.w_buffer;
  r_buffer = i.r_buffer;
  r_offset = i.r_offset;
  w_offset = i.w_offset;
  readable = omega (arith, i.readable);
  writable = i.writable;
  held = i.held;
  writing = i.writing;
  reading = tt;
})
step-After q i (find_none w r s p opened e) = same_queue q i
step-After q i (take_one w r s p opened h) = same_queue q (record {
  room = i.room;
  w_buffer = i.w_buffer;
  r_buffer = i.r_buffer;
  r_offset = i.r_offset;
  w_offset = i.w_offset;
  readable = omega (arith, i.readable);
  writable = i.writable;
  held = i.held;
  writing = i.writing;
  reading = record { bound = omega arith; done = refl };
})
step-After q i (fetch w r s p k j h) = same_queue q (fetch-Inv w r s p k j q h i)
step-After q i (free w r s p) = free-After w r s p q i
