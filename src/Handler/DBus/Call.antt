-- ===== src/Handler/DBus/Call.antt =====
-- handler/dbus.cpp: the method call that `write` makes of an object, and what `read` makes of it.
use mathlib.Core.Path.{subst}
use ipc_performance.Prelude.{
  ℕ, ◌≤◌, ◌≡◌, refl, ap, Bool, true, false, ltb, some, List, [], ◌∷◌, ◌++◌, arith, drop, length,
  length-append, ne→==, le→ltb, minus_one, to_u16, to_u32,
}
use ipc_performance.Prelude.Bytes.{window-memcpy, length-memcpy}
use ipc_performance.Text.{to_text, stoull}
use ipc_performance.Text.Numbers.{stoull-to_text}
use ipc_performance.Object.DataType
use ipc_performance.Object.DataType.{DataType, type_code, type_of}
use ipc_performance.Communication.{DataObject, get_type, deserialize_data_object, ok, with_header}
use ipc_performance.Communication.Wire.{encode, serialize_object-fits, deserialize_object-encode}
use ipc_performance.Communication.Frame.Wire.{next_id, header_for, get_type-IsValid}
use ipc_performance.Handler.Message.{Message, Fits, delivered}
use ipc_performance.Handler.Link.{numbered}
use ipc_performance.Handler.DBus.{
  DBus, Built, Seen, BusCall, sends, Answers, path_prefix, object_path, build, is_open, write,
  read_call, read_args, read_timestamp, read_body, drops_message,
}

-- The messages that calls hand to the bus.
unfoldable pub sent : List BusCall → List Built
sent [] = []
sent (sends b ∷ calls) = b ∷ sent calls
sent (call ∷ calls) = sent calls

-- The method call that stands for a message.
abbrev pub call_of : List ℕ → Message → Built
call_of name m = build name m.object m.id m.timestamp (encode m.object)

-- No call of libdbus runs out of memory.
abbrev pub no_failure : Answers
no_failure = record {
  made = true;
  id_appended = true;
  time_appended = true;
  array_opened = true;
  array_appended = true;
  array_closed = true;
  accepted = true;
}

drop-append : (xs ys : List ℕ) → drop (length xs) (xs ++ ys) ≡ ys
drop-append [] ys = refl
drop-append (x ∷ xs) ys = drop-append xs ys

append_nil : (xs : List ℕ) → xs ++ [] ≡ xs
append_nil [] = refl
append_nil (x ∷ xs) = ap (◌∷◌ x) (append_nil xs)

typed_small : (o : DataObject) → type_of (to_u16 (type_code (get_type o))) ≡ get_type o
typed_small o =
    let v : DataType.IsValid (get_type o) = get_type-IsValid o in
    let small : to_u16 (type_code (get_type o)) ≡ type_code (get_type o) =
      omega (arith, v.in_range) in
    rw small v.canonical

-- The type in the path is read back.
path_type :
    (o : DataObject)
    → stoull 10 (drop (length path_prefix) (object_path o)) ≡ some (type_code (get_type o))
path_type o =
    let v : DataType.IsValid (get_type o) = get_type-IsValid o in
    let text : List ℕ = to_text 10 (type_code (get_type o)) in
    let read_back : stoull 10 (text ++ []) ≡ some (type_code (get_type o)) =
      stoull-to_text (type_code (get_type o)) [] (omega (arith, v.in_range)) tt in
    rw (drop-append path_prefix text)
      (subst (λ t. stoull 10 t ≡ some (type_code (get_type o))) (append_nil text) read_back)

long : (o : DataObject) → ltb (length (object_path o)) (length path_prefix) ≡ false
long o =
    le→ltb (length (object_path o)) (length path_prefix)
      (omega (arith, length-append path_prefix (to_text 10 (type_code (get_type o)))))

pub read_call-call_of :
    (name : List ℕ) (m : Message) (seen : Seen)
    → Fits m
    → seen.path ≡ object_path m.object
    → seen.args ≡ (call_of name m).args
    → read_call seen ≡ (delivered m, drops_message ∷ [])
unfolding read_call read_args read_timestamp read_body header_for with_header
read_call-call_of name m seen f p a =
    let n : ℕ = length (encode m.object) in
    let small : to_u16 n ≡ n = omega (arith, f.size_fits) in
    let still_small : to_u32 n ≡ n = omega (arith, f.size_fits) in
    let back : deserialize_data_object (get_type m.object) (encode m.object) n ≡ ok m.object =
      subst (λ bs. deserialize_data_object (get_type m.object) bs n ≡ ok m.object)
        (append_nil (encode m.object))
        (deserialize_object-encode m.object [] n f.object_valid (omega (arith, f.size_fits))
          (omega arith)) in
    rw (p, a, path_type m.object, long m.object, typed_small m.object, small, still_small, back)

-- What `write` does with an object that fits.
pub record Written (h : DBus) (o : DataObject) (timestamp : ℕ) (r : Bool × DBus × List BusCall)
    : Type 0 where
  pub fine : r.0 ≡ true
  pub name : r.1.name ≡ h.name
  pub con : is_open r.1 ≡ is_open h
  pub counted : r.1.frame.last_id ≡ next_id h.frame.last_id
  pub room : length r.1.frame.buffer ≡ length h.frame.buffer
  pub calls : sent r.2 ≡ call_of h.name (numbered h.frame.last_id o timestamp) ∷ []

pub write-Written :
    (h : DBus) (o : DataObject) (timestamp : ℕ)
    → is_open h ≡ true
    → length h.frame.buffer ≡ 528
    → length (encode o) ≤ 512
    → Written h o timestamp (write h o timestamp no_failure)
unfolding write sent
write-Written h o timestamp op room fits =
    let n : ℕ = length (encode o) in
    rw
      (
        op,
        serialize_object-fits o h.frame.buffer 0 528 (omega arith) (omega (arith, fits)),
        ne→== n minus_one (omega (arith, fits)),
      )
      (record {
        fine = refl;
        name = refl;
        con = refl;
        counted = refl;
        room = length-memcpy h.frame.buffer 0 (encode o);
        calls =
            ap (λ bs. build h.name o (next_id h.frame.last_id) timestamp bs ∷ [])
              (window-memcpy h.frame.buffer 0 (encode o) n refl (omega (arith, fits, room)));
      })
