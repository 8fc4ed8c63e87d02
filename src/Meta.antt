-- ===== src/Meta.antt =====
-- src/translate.cpp: the text that defines a message type and the types that it uses.
pub mod Closed
pub mod Decimal
mod Tests
use rws.Base.{
  ℕ, zero, suc, ◌+◌, ◌/◌, ◌%◌, Bool, true, false, not, ◌&&◌, Option, none, some, List, [], ◌∷◌,
  ◌++◌, ◌==◌, ltb, if◌then◌else◌,
}
use rws.Base.Result.{Result, ok, err, unknown_type, ◌>>=◌}
use rws.Base.Text.{Text, bytes, text_eq}
use rws.Base.Keys.{find_key, insert_key}
use rws.Names.{get_type_from_message_members}
use rws.Members.{
  TypeId, ros_bool, ros_byte, ros_uint8, ros_char, ros_float32, ros_float64, ros_int8, ros_int16,
  ros_uint16, ros_int32, ros_uint32, ros_int64, ros_uint64, ros_string, ros_wstring, other, Arity,
  Members, end, plain, nested,
}
use rws.Translate.{placeholder}

-- std::to_string, by division.
unfoldable pub digits : ℕ → ℕ → Text → Text
digits zero n more = more
digits (suc fuel) n more =
    let rest = digits fuel (n / 10) ((48 + n % 10) ∷ more) in
    if ltb n 10 then (48 + n) ∷ more else rest

abbrev pub to_string : ℕ → Text
to_string n = digits (suc n) n []

abbrev pub brackets : Arity → Text
brackets a =
    if a.is_array
    then (if a.array_size == 0
        then bytes "[]"
        else bytes "[" ++ (to_string a.array_size ++ bytes "]"))
    else []

abbrev pub type_text : TypeId → Option Text
type_text ros_bool = some (bytes "bool")
type_text ros_byte = some (bytes "uint8")
type_text ros_char = some (bytes "uint8")
type_text ros_uint8 = some (bytes "uint8")
type_text ros_int8 = some (bytes "int8")
type_text ros_float32 = some (bytes "float32")
type_text ros_float64 = some (bytes "float64")
type_text ros_int16 = some (bytes "int16")
type_text ros_uint16 = some (bytes "uint16")
type_text ros_int32 = some (bytes "int32")
type_text ros_uint32 = some (bytes "uint32")
type_text ros_int64 = some (bytes "int64")
type_text ros_uint64 = some (bytes "uint64")
type_text ros_string = some (bytes "string")
type_text ros_wstring = some (bytes "wstring")
type_text (other n) = none

-- The name that a field is shown with.
abbrev pub shown : Bool → Text → Text → Text
shown rosbridge_compatible parent_name name =
    if rosbridge_compatible
      && (text_eq name (bytes "nanosec") && text_eq parent_name (bytes "stamp"))
    then bytes "nsec"
    else name

abbrev pub line : Text → Arity → Text → Text
line type a name = type ++ (brackets a ++ (bytes " " ++ (name ++ bytes "\n")))

abbrev pub Deps : Type 0
Deps = List (Text × Text)

abbrev pub nothing : Deps → Result (Text × Deps)
nothing deps = ok ([], deps)

-- A member that is a message; `inner` is the call for its members.
abbrev pub add_type : Text → Deps → Result (Text × Deps) → Result Deps
add_type msg_path deps inner = elim (find_key msg_path deps) [
  | some text ↦ ok deps
  | none ↦ (do (text, found) ← inner; ok (insert_key msg_path text found))
]

abbrev pub message_meta :
    Text → Text → Arity → Text → Deps → Result (Text × Deps) → Result (Text × Deps)
message_meta namespace msg_name a label deps inner = do
  msg_path ← get_type_from_message_members namespace msg_name
  found ← add_type msg_path deps inner
  ok (line msg_path a label, found)

unfoldable pub sections : Deps → Text
sections [] = []
sections ((path, text) ∷ deps) =
    bytes "============\n" ++ (bytes "MSG: " ++ (path ++ (bytes "\n" ++ (text ++ sections deps))))

module _ (rosbridge_compatible : Bool) where
  unfoldable pub members_to_meta : Members → Text → Deps → Result (Text × Deps)
  members_to_meta end parent_name deps = ok ([], deps)
  members_to_meta (plain name t a rest) parent_name deps = do
    l ← if text_eq name placeholder then ok [] else elim (type_text t) [
      | none ↦ err unknown_type
      | some type ↦ ok (line type a (shown rosbridge_compatible parent_name name))
    ]
    (s, deps') ← members_to_meta rest parent_name deps
    ok (l ++ s, deps')
  members_to_meta (nested name namespace msg_name sub a rest) parent_name deps = do
    let label = shown rosbridge_compatible parent_name name
    (l, found) ←
        if text_eq name placeholder
        then nothing deps
        else message_meta namespace msg_name a label deps (members_to_meta sub label deps)
    (s, deps') ← members_to_meta rest parent_name found
    ok (l ++ s, deps')

  unfoldable pub generate_message_meta : Members → Result Text
  generate_message_meta members = do
    (s, deps) ← members_to_meta members [] []
    ok (s ++ sections deps)
