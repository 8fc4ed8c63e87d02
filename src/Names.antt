-- ===== src/Names.antt =====
-- src/typesupport_helpers.cpp: names of types and nodes, as far as it takes them apart and puts them
-- together. `none` is std::string::npos; a replace at npos throws std::out_of_range.
mod Tests
pub mod Find
pub mod Style
pub mod Split
use rws.Base.{
  ℕ, suc, ◌+◌, ◌-◌, Bool, true, false, ◌&&◌, ◌||◌, Option, none, some, List, [], ◌∷◌, ◌++◌, ◌==◌,
  ltb, if◌then◌else◌, length, take, drop,
}
use rws.Base.Result.{Result, ok, err, fault, out_of_range, not_a_type_name, not_a_node_name}
use rws.Base.Text.{Text, bytes}

abbrev pub moved_on : Option ℕ → Option ℕ
moved_on none = none
moved_on (some i) = some (suc i)

unfoldable pub starts_with : Text → Text → Bool
starts_with [] s = true
starts_with (c ∷ p) [] = false
starts_with (c ∷ p) (b ∷ s) = c == b && starts_with p s

-- std::string::find of a pattern that is not empty, find_first_of and find_last_of.
unfoldable pub find_text : Text → Text → Option ℕ
find_text p [] = none
find_text p (b ∷ s) = if starts_with p (b ∷ s) then some 0 else moved_on (find_text p s)

unfoldable pub find_first_of : ℕ → Text → Option ℕ
find_first_of c [] = none
find_first_of c (b ∷ s) = if b == c then some 0 else moved_on (find_first_of c s)

abbrev or_here : ℕ → ℕ → Option ℕ → Option ℕ
or_here c b none = if b == c then some 0 else none
or_here c b (some i) = some (suc i)

unfoldable pub find_last_of : ℕ → Text → Option ℕ
find_last_of c [] = none
find_last_of c (b ∷ s) = or_here c b (find_last_of c s)

abbrev pub substr : ℕ → ℕ → Text → Text
substr pos n s = take n (drop pos s)

-- s.replace(i, n, r)
abbrev pub replace : ℕ → ℕ → Text → Text → Text
replace i n r s = take i s ++ (r ++ drop (i + n) s)

abbrev pub slash : ℕ
slash = 47

abbrev pub msg : Text
msg = bytes "/msg/"

-- The package, the middle part and the type.
unfoldable pub extract_type_identifier : Text → Result (Text × Text × Text)
extract_type_identifier s = elim (find_last_of slash s) [
  | none ↦ err not_a_type_name
  | some back ↦ elim (find_first_of slash s) [
    | none ↦ err not_a_type_name
    | some front ↦
        if back == 0 || back == length s - 1
        then err not_a_type_name
        else ok (
          take front s,
          if ltb 0 (back - front) then substr (front + 1) (back - front - 1) s else [],
          drop (back + 1) s,
        )
  ]
]

-- The symbol that get_service_typesupport_handle looks up.
unfoldable pub service_symbol : Text → Text → Result Text
service_symbol identifier s = elim (extract_type_identifier s) [
  | ok (package_name, middle, type) ↦ ok (
      identifier
      ++ (bytes "__get_service_type_support_handle__"
          ++ (package_name
              ++ (bytes "__"
                  ++ ((if length middle == 0 then bytes "srv" else middle)
                      ++ (bytes "__" ++ type))))))
  | err e ↦ err e
  | fault ↦ fault
]

-- The namespace of the members has "::" for a separator.
unfoldable pub get_type_from_message_members : Text → Text → Result Text
get_type_from_message_members namespace name = elim (find_text (bytes "::") namespace) [
  | none ↦ err out_of_range
  | some i ↦ ok (replace i 2 (slash ∷ []) namespace ++ slash ∷ name)
]

unfoldable pub split_ns_node_name : Text → Result (Text × Text)
split_ns_node_name s = elim (find_last_of slash s) [
  | none ↦ err not_a_node_name
  | some i ↦ ok (take i s, drop (i + 1) s)
]

unfoldable pub message_type_to_ros2_style : Text → Result Text
message_type_to_ros2_style s = elim (find_text msg s) [
  | some i ↦ ok s
  | none ↦ elim (find_text (slash ∷ []) s) [
    | none ↦ err out_of_range
    | some i ↦ ok (replace i 1 msg s)
  ]
]

unfoldable pub message_type_to_ros1_style : Text → Text
message_type_to_ros1_style s = elim (find_text msg s) [
  | none ↦ s
  | some i ↦ replace i 5 (slash ∷ []) s
]
