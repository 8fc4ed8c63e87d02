-- ===== src/Translate.antt =====
-- src/translate.cpp: messages between JSON and CDR bytes. The library functions that find a type's
-- members by its name are left out: each function takes the members. An exception ends a call, and
-- the JSON or the buffer that it has filled so far is dropped.
pub mod Values
pub mod Writes
pub mod Reads
pub mod Fields
pub mod Sound
pub mod Parts
pub mod Arrays
pub mod ReadBack
pub mod RoundTrip
pub mod Safety
mod Tests
use rws.Base.{
  ℕ, zero, suc, ◌-◌, ◌%◌, ◌^◌, Bool, true, false, not, ◌&&◌, Option, none, some, List, [], ◌==◌,
  if◌then◌else◌,
}
use rws.Base.Result.{Result, ok, err, unknown_type, null_get_function, ◌>>=◌, ◌>>◌}
use rws.Base.Text.{Text, bytes, text_eq}
use rws.Cdr.Host.{one_byte, four_bytes, Host}
use rws.Cdr.Ser as Ser
use rws.Cdr.Ser.{Cycser, cycser, insert, scalar}
use rws.Cdr.Deser.{Cycdeser, Shape, cycdeser, extract, deserialize, deserialize_len}
use rws.Members.{
  TypeId, type_shape, default_value, Arity, is_fixed, Members, ServiceMembers, end, plain, nested,
}
use rws.Json.{Json}

abbrev pub placeholder : Text
placeholder = bytes "structure_needs_at_least_one_member"

module _ (json : Json) (h : Host) where
  open json use {
    Value, set, null, is_null, is_array, size, find_member, empty_array, item, set_item, to_json,
    get,
  }

  abbrev pub or_null : Option Value → Value
  or_null none = null
  or_null (some v) = v

  -- `j[name]` where it is read, on an object or null.
  abbrev pub member_of : Text → Value → Value
  member_of name j = or_null (find_member name j)

  -- The loops of deserialize_field: `n` more values at `i`.
  unfoldable pub deserialize_items :
      Shape → TypeId → ℕ → ℕ → Value → Cycdeser → Result (Value × Cycdeser)
  deserialize_items sh t zero i field d = ok (field, d)
  deserialize_items sh t (suc n) i field d = do
    (v, e) ← extract h sh d
    deserialize_items sh t n (suc i) (set_item i (to_json t v) field) e

  unfoldable pub deserialize_field : Shape → TypeId → Arity → Cycdeser → Result (Value × Cycdeser)
  deserialize_field sh t a d =
      if not a.is_array
      then (do (v, e) ← extract h sh d; ok (to_json t v, e))
      else if is_fixed a
      then deserialize_items sh t a.array_size 0 empty_array d
      else (do
        (seq_size, e) ← deserialize h four_bytes d
        deserialize_items sh t seq_size 0 empty_array e)

  -- The loop over an array of messages, in the field `name` of `j`; `read` is the call for one.
  unfoldable pub deserialize_messages :
      (Value → Cycdeser → Result (Value × Cycdeser))
      → Text
      → ℕ
      → ℕ
      → Value
      → Cycdeser
      → Result (Value × Cycdeser)
  deserialize_messages read name zero index j d = ok (j, d)
  deserialize_messages read name (suc n) index j d = do
    start ← item index (member_of name j)
    (v, e) ← read start d
    deserialize_messages read name n (suc index) (set name (set_item index v (member_of name j)) j)
        e

  abbrev pub message_count : Arity → Cycdeser → Result (ℕ × Cycdeser)
  message_count a d = if is_fixed a then ok (a.array_size, d) else deserialize_len h one_byte d

  abbrev pub check_function : Arity → ℕ → Result (Unit {0})
  check_function a array_size =
      if not (array_size == 0) && not a.get_function then err null_get_function else ok tt

  unfoldable pub serialized_message_to_json : Members → Value → Cycdeser → Result (Value × Cycdeser)
  serialized_message_to_json end j d = ok (j, d)
  serialized_message_to_json (plain name t a rest) j d = elim (type_shape t) [
    | none ↦ err unknown_type
    | some sh ↦ (do
      (field, e) ← deserialize_field sh t a d
      serialized_message_to_json rest (set name field j) e)
  ]
  serialized_message_to_json (nested name namespace msg_name sub a rest) j d =
      let read = serialized_message_to_json sub in
      (if not a.is_array then (do (v, e) ← read (member_of name j) d; ok (set name v j, e)) else (do
        (array_size, e) ← message_count a d
        check_function a array_size
        deserialize_messages read name array_size 0 j e))
      >>= λ r. serialized_message_to_json rest r.0 r.1

  -- `field.is_null() ? default_value : field.get<T>()`
  abbrev pub get_or_default : Shape → TypeId → Value → Result Ser.Value
  get_or_default sh t field = if is_null field then ok (default_value sh) else get t field

  -- `field.is_null() || field[i].is_null() ? default_value : field[i].get<T>()`
  abbrev pub item_or_default : Shape → TypeId → ℕ → Value → Result Ser.Value
  item_or_default sh t i field =
      if is_null field then ok (default_value sh) else (do x ← item i field; get_or_default sh t x)

  unfoldable pub serialize_items : Shape → TypeId → ℕ → ℕ → Value → Cycser → Result Cycser
  serialize_items sh t zero i field s = ok s
  serialize_items sh t (suc n) i field s = do
    v ← item_or_default sh t i field
    s' ← insert h v s
    serialize_items sh t n (suc i) field s'

  unfoldable pub serialize_field : Shape → TypeId → Arity → Value → Cycser → Result Cycser
  serialize_field sh t a field s =
      if not a.is_array
      then (do v ← get_or_default sh t field; insert h v s)
      else if is_fixed a
      then serialize_items sh t a.array_size 0 field s
      else (do
        let seq_size = size field % 2 ^ 32
        s' ← insert h (scalar four_bytes seq_size) s
        serialize_items sh t seq_size 0 field s')

  -- The loop over an array of messages; `write` is the call for one.
  unfoldable pub serialize_messages :
      (Value → Cycser → Result Cycser) → ℕ → ℕ → Value → Cycser → Result Cycser
  serialize_messages write zero index field s = ok s
  serialize_messages write (suc n) index field s = do
    x ← item index field
    s' ← write x s
    serialize_messages write n (suc index) field s'

  abbrev pub sequence_size : Value → ℕ
  sequence_size field = if is_array field then size field else 0

  unfoldable pub json_to_serialized_message : Members → Value → Cycser → Result Cycser
  json_to_serialized_message end j s = ok s
  json_to_serialized_message (plain name t a rest) j s =
      (if text_eq name placeholder then ok s else elim (type_shape t) [
        | none ↦ err unknown_type
        | some sh ↦ serialize_field sh t a (member_of name j) s
      ])
      >>= json_to_serialized_message rest j
  json_to_serialized_message (nested name namespace msg_name sub a rest) j s =
      let write = json_to_serialized_message sub in
      let field = member_of name j in
      (if text_eq name placeholder
        then ok s
        else if not a.is_array
        then write field s
        else if is_fixed a
        then serialize_messages write a.array_size 0 field s
        else (do
          let array_size = sequence_size field
          s' ← insert h (scalar four_bytes (array_size % 2 ^ 32)) s
          serialize_messages write array_size 0 field s'))
      >>= json_to_serialized_message rest j

  -- The functions of the header, behind the lookup of the members.
  unfoldable pub to_json_message : Members → List ℕ → Result Value
  to_json_message members buffer = do
    deser ← cycdeser h buffer
    (j, d) ← serialized_message_to_json members null deser
    ok j

  unfoldable pub to_serialized_message : Members → Value → Result (List ℕ)
  to_serialized_message members j = do
    ser ← json_to_serialized_message members j (cycser h [])
    ok ser.dst

  abbrev pub json_to_serialized_service_request : ServiceMembers → Value → Result (List ℕ)
  json_to_serialized_service_request srv_members j =
      to_serialized_message srv_members.request_members j

  abbrev pub serialized_service_response_to_json : ServiceMembers → List ℕ → Result Value
  serialized_service_response_to_json srv_members buffer =
      to_json_message srv_members.response_members buffer
