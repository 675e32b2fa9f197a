-- ===== src/Handler/SharedFile/Content.antt =====
-- handler/shared_file.cpp: slots of a file that grows.
use ipc_performance.Prelude.{
  ℕ, zero, suc, ◌+◌, ◌-◌, ◌%◌, ◌≤◌, ◌<◌, ◌≡◌, ◌≢◌, refl, ap, ◌∙◌, sym, List, [], ◌∷◌, ◌++◌, arith,
  take, drop, length, take-take, take-append_left, drop-append_left, length-take, length-drop,
  dec_lt, drop-drop,
}
use ipc_performance.Prelude.Bytes.{window, memcpy, window-memcpy}
use ipc_performance.Communication.Frame.Wire.{length-packet}
use ipc_performance.Handler.Message.{Message, Fits, Carries, bytes, bytes-le}
use ipc_performance.Handler.Slots.{slot_start, next_slot, slot_at, Holds, Holds-append}
use ipc_performance.Handler.SharedFile.{padded, file_write}

length-padded : (n : ℕ) (content : List ℕ) → length (padded n content) ≡ n
unfolding padded
length-padded zero content = refl
length-padded (suc n) [] = ap suc (length-padded n [])
length-padded (suc n) (b ∷ content) = ap suc (length-padded n content)

-- In front of the offset the file stays as it was.
window-padded :
    (o : ℕ) (content rest : List ℕ) (i n : ℕ)
    → i + n ≤ o
    → i + n ≤ length content
    → window (padded o content ++ rest) i n ≡ window content i n
unfolding padded
window-padded o content rest zero zero h l = refl
window-padded zero content rest zero (suc n) h l = absurd (omega arith)
window-padded (suc o) [] rest zero (suc n) h l = absurd (omega arith)
window-padded (suc o) (b ∷ content) rest zero (suc n) h l =
    ap (λ bs. b ∷ bs) (window-padded o content rest zero n (omega arith) (omega arith))
window-padded zero content rest (suc i) n h l = absurd (omega arith)
window-padded (suc o) [] rest (suc i) n h l = absurd (omega arith)
window-padded (suc o) (b ∷ content) rest (suc i) n h l =
    window-padded o content rest i n (omega arith) (omega arith)

module _ (content : List ℕ) (o : ℕ) (bs : List ℕ) where
  abbrev written : List ℕ
  written = file_write content o bs

  drop-written : drop o written ≡ bs ++ drop (o + length bs) content
  unfolding file_write
  drop-written =
      drop-append_left o (padded o content) (bs ++ drop (o + length bs) content)
        (length-padded o content)

  -- Behind the bytes too.
  drop-written_behind : (s d : ℕ) → s ≡ o + length bs + d → drop s written ≡ drop s content
  drop-written_behind s d e = rw (
    e,
    ← drop-drop d (o + length bs) written,
    ← drop-drop d (o + length bs) content,
    ← drop-drop (length bs) o written,
    drop-written,
    drop-append_left (length bs) bs (drop (o + length bs) content) refl,
  )

-- A slot that carries a message has all of its bytes.
length-Carries : (slot : List ℕ) (m : Message) → Carries slot m → length (bytes m) ≤ length slot
length-Carries slot m c = omega (arith, ap length c.found, length-take (length (bytes m)) slot)

-- A write into one slot leaves the message of another.
Carries-file_write_ne :
    (content bs : List ℕ) (j k : ℕ) (m : Message)
    → j ≢ k
    → length bs ≤ 528
    → Carries (slot_at content j) m
    → Carries (slot_at (file_write content (slot_start k) bs) j) m
unfolding file_write
Carries-file_write_ne content bs j k m ne small c = elim (dec_lt j k) [
  | yes below ↦ record {
    fits = c.fits;
    found =
        take-take n 528 _ (bytes-le c.fits)
        ∙ window-padded (slot_start k) content (bs ++ drop (slot_start k + length bs) content)
            (slot_start j) n (omega (arith, bytes-le c.fits)) there
        ∙ sym (take-take n 528 _ (bytes-le c.fits))
        ∙ c.found;
  }
  | no above ↦ record {
    fits = c.fits;
    found =
        ap (λ x. take n (take 528 x))
          (drop-written_behind content (slot_start k) bs (slot_start j)
            (slot_start j - (slot_start k + length bs)) (omega arith))
        ∙ c.found;
  }
]
  where
    n : ℕ
    n = length (bytes m)

    there : slot_start j + n ≤ length content
    there = omega (
      arith,
      length-Carries (slot_at content j) m c,
      length-take 528 (drop (slot_start j) content),
      length-drop (slot_start j) content,
      positive,
    )
      where
        positive : 0 < n
        positive = omega (arith, length-packet m.id m.timestamp m.object)

Holds-file_write :
    (content bs : List ℕ) (h k : ℕ) (ms : List Message)
    → h < 64
    → k ≡ (h + length ms) % 64
    → length ms < 64
    → length bs ≤ 528
    → Holds content h ms
    → Holds (file_write content (slot_start k) bs) h ms
Holds-file_write content bs h k [] hh e l small held = tt
Holds-file_write content bs h k (m ∷ ms) hh e l small held = (
  Carries-file_write_ne content bs h k m (omega arith) small held.0,
  Holds-file_write content bs (next_slot h) k ms (omega arith) (omega arith) (omega arith) small
      held.1,
)

-- A message that is written to the slot behind the others is the last of them.
pub Holds-file_put :
    (content : List ℕ) (h k : ℕ) (ms : List Message) (m : Message)
    → h < 64
    → k ≡ (h + length ms) % 64
    → length ms < 64
    → Fits m
    → Holds content h ms
    → Holds (file_write content (slot_start k) (bytes m)) h (ms ++ m ∷ [])
Holds-file_put content h k ms m hh e l f held =
    Holds-append (file_write content (slot_start k) (bytes m)) h k ms m hh e
      (Holds-file_write content (bytes m) h k ms hh e l (bytes-le f) held)
      (record {
        fits = f;
        found =
            take-take (length (bytes m)) 528 _ (bytes-le f)
            ∙ ap (take (length (bytes m))) (drop-written content (slot_start k) (bytes m))
            ∙ take-append_left (length (bytes m)) (bytes m) _ refl;
      })

-- What a file has of a slot, copied over a buffer, carries the message of the slot.
pub Carries-file_read :
    (buffer content : List ℕ) (k : ℕ) (m : Message)
    → length buffer ≡ 528
    → Carries (slot_at content k) m
    → Carries (memcpy buffer 0 (slot_at content k)) m
Carries-file_read buffer content k m l c = record {
  fits = c.fits;
  found =
      sym (
        take-take (length (bytes m)) (length slot) (memcpy buffer 0 slot) (length-Carries slot m c))
      ∙ ap (take (length (bytes m))) (
          window-memcpy buffer 0 slot (length slot) refl
            (omega (arith, length-take 528 (drop (slot_start k) content))))
      ∙ c.found;
}
  where
    slot : List ℕ
    slot = slot_at content k
