-- ===== src/Translate/Safety.antt =====
-- to_json_message on any bytes that hold the header, and to_serialized_message on any JSON.
use rws.Base.{
  ℕ, zero, suc, ◌+◌, ◌*◌, ◌^◌, ◌≤◌, ◌<◌, ◌≢◌, refl, not, none, some, Option, List, length, ◌==◌,
  ◌&&◌, arith,
}
use rws.Base.Result.{Result, ok, err, fault, unknown_type, ◌>>=◌}
use rws.Base.Text.{Text}
use rws.Cdr.Host.{one_byte, four_bytes, Host}
use rws.Cdr.Deser.{Cycdeser, Shape, cycdeser, extract, deserialize, deserialize_len}
use rws.Cdr.Deser.Safety.{
  Safe, IsSane, Safe->>=, Safe-ne-fault, Safe-if, IsAfter, Reads, later, deserialize-Reads,
  deserialize_len-Safe, extract-Reads, cycdeser-Safe,
}
use rws.Members.{TypeId, type_shape, Arity, is_fixed, Members, end, plain, nested}
use rws.Json.{Json}
use rws.Translate.{
  member_of, deserialize_items, deserialize_field, deserialize_messages, message_count,
  check_function, serialized_message_to_json, to_json_message,
}

still : {A : Type 0} (a : A) (d : Cycdeser) → IsSane d → Reads d (ok (a, d))
still a d s = record { sane = s; same_bytes = refl; onward = omega arith }

Reads->>= :
    {A B : Type 0} (d : Cycdeser) (m : Result (A × Cycdeser))
    (f : A × Cycdeser → Result (B × Cycdeser))
    → Reads d m
    → ((a : A) (e : Cycdeser) → IsSane e → Reads e (f (a, e)))
    → Reads d (m >>= f)
Reads->>= d m f r next = Safe->>= _ _ m f r λ p e q. later q (f p) (next p.0 p.1 q.sane)

Safe-of : {A : Type 0} (r : Result A) → r ≢ fault → Safe (λ _. Unit {0}) r
Safe-of (ok a) n = tt
Safe-of (err e) n = tt
Safe-of fault n = absurd (n refl)

module _ (json : Json) (h : Host)
    (item_lem : (i : ℕ) (x : json.Value) → json.item i x ≢ fault) where
  open json use {Value, set, null, empty_array, item, set_item, to_json}

  items-Safe :
      (sh : Shape) (t : TypeId) (n i : ℕ) (field : Value) (d : Cycdeser)
      → IsSane d
      → Reads d (deserialize_items json h sh t n i field d)
  unfolding deserialize_items
  items-Safe sh t zero i field d s = still field d s
  items-Safe sh t (suc n) i field d s =
      Reads->>= _ (extract h sh d) _ (extract-Reads h sh d s)
        λ v e s. items-Safe sh t n (suc i) (set_item i (to_json t v) field) e s

  field-Safe :
      (sh : Shape) (t : TypeId) (a : Arity) (d : Cycdeser)
      → IsSane d
      → Reads d (deserialize_field json h sh t a d)
  unfolding deserialize_field
  field-Safe sh t a d s =
      Safe-if _ (not a.is_array) _ _
        (λ single.
          Reads->>= _ (extract h sh d) _ (extract-Reads h sh d s) λ v e. still (to_json t v) e)
        λ several.
          Safe-if _ (is_fixed a) _ _ (λ fixed. items-Safe sh t a.array_size 0 empty_array d s)
            λ counted.
              Reads->>= _ (deserialize h four_bytes d) _ (deserialize-Reads h four_bytes d s)
                λ n e. items-Safe sh t n 0 empty_array e

  messages-Safe :
      (read : Value → Cycdeser → Result (Value × Cycdeser))
      → ((x : Value) (d : Cycdeser) → IsSane d → Reads d (read x d))
      → (name : Text) (n i : ℕ) (j : Value) (d : Cycdeser) → IsSane d
      → Reads d (deserialize_messages json h read name n i j d)
  unfolding deserialize_messages
  messages-Safe read r name zero i j d s = still j d s
  messages-Safe read r name (suc n) i j d s =
      let old : Value = member_of json h name j in
      Safe->>= (λ _. Unit {0}) _ (item i old) _ (Safe-of (item i old) (item_lem i old))
        λ x e q.
          Reads->>= _ (read x d) _ (r x d s)
            λ v. messages-Safe read r name n (suc i) (set name (set_item i v old) j)

  message_count-Safe : (a : Arity) (d : Cycdeser) → IsSane d → Reads d (message_count json h a d)
  message_count-Safe a d s =
      Safe-if _ (is_fixed a) _ _ (λ fixed. still a.array_size d s)
        λ counted. weaken (deserialize_len h one_byte d) (deserialize_len-Safe h one_byte d s)
    where
      weaken :
          (r : Result (ℕ × Cycdeser))
          → Safe (λ r. IsAfter d r.1 × (r.1.pos + r.0 * 1 ≤ length d.bytes)) r
          → Reads d r
      weaken (ok r) s = s.0
      weaken (err e) s = tt
      weaken fault s = s

  pub serialized_message_to_json-Safe :
      (ms : Members) (j : Value) (d : Cycdeser)
      → IsSane d
      → Reads d (serialized_message_to_json json h ms j d)
  unfolding serialized_message_to_json
  serialized_message_to_json-Safe end j d s = still j d s
  serialized_message_to_json-Safe (plain name t a rest) j d s =
      typed (serialized_message_to_json-Safe rest) (type_shape t)
    where
      typed :
          ((j : Value) (d : Cycdeser)
            → IsSane d
            → Reads d (serialized_message_to_json json h rest j d))
          → (o : Option Shape)
          → Reads d (elim o [
            | none ↦ err unknown_type
            | some sh ↦
                (deserialize_field json h sh t a d >>= λ r.
                serialized_message_to_json json h rest (set name r.0 j) r.1)
          ])
      typed others none = tt
      typed others (some sh) =
          Reads->>= _ (deserialize_field json h sh t a d) _ (field-Safe sh t a d s)
            λ v. others (set name v j)
  serialized_message_to_json-Safe (nested name namespace msg_name sub a rest) j d s =
      let inner : (j : Value) (d : Cycdeser)
          → IsSane d
          → Reads d (serialized_message_to_json json h sub j d) =
        serialized_message_to_json-Safe sub in
      Reads->>= _ _ _
        (Safe-if _ (not a.is_array) _ _
          (λ single.
            Reads->>= _ _ _ (inner (member_of json h name j) d s) λ v e. still (set name v j) e)
          λ several. Reads->>= _ _ _ (message_count-Safe a d s) λ n e s.
            Safe->>= (λ _. Unit {0}) _ (check_function json h a n) _
              (Safe-if _ (not (n == 0) && not a.get_function) _ _ (λ _. tt) (λ _. tt))
              λ _ _ _. messages-Safe _ inner name n 0 j e s)
        λ j. serialized_message_to_json-Safe rest j

  -- On every buffer of at least 4 and below 2 ^ 63 bytes, whatever they are, and for every message
  -- type, if the index operator of JSON does not fault: reading the message returns or throws, and
  -- never loads a byte outside the buffer.
  pub to_json_message-ne-fault :
      (ms : Members) (buffer : List ℕ)
      → 4 ≤ length buffer
      → length buffer < 2 ^ 63
      → to_json_message json h ms buffer ≢ fault
  unfolding to_json_message
  to_json_message-ne-fault ms buffer lo hi = Safe-ne-fault _ _ (
      Safe->>= _ (λ _. Unit {0}) (cycdeser h buffer) _ (cycdeser-Safe h buffer lo hi)
        λ d _ p.
          Safe->>= _ _ (serialized_message_to_json json h ms null d) _
            (serialized_message_to_json-Safe ms null d p.0) λ _ _ _. tt)
