-- ===== src/Typesupport/Tests.antt =====
-- A loader of libraries that counts, and a message with a text and a message with a text.
use rws.Base.{ℕ, ◌+◌, ◌≡◌, refl, false, some, [], ◌∷◌, ◌++◌, All, arith}
use rws.Base.Keys.{find_key, insert_key}
use rws.Base.Result.{ok}
use rws.Base.Text.{bytes}
use rws.Names.{extract_type_identifier, find_last_of, find_first_of}
use rws.Typesupport.{
  Loader, get_typesupport_library_path, get_typesupport_library, Made, Layout, last, member,
  ros_string, ros_message, string, strings, wstring, wstrings, allocate_string_members,
  allocate_message,
}
use rws.Typesupport.Cached.{calls, get_typesupport_library-calls}
use rws.Typesupport.Inside.{FitsIn, Inside, allocate_message-Inside}

abbrev counting : Loader ℕ ℕ
counting = record {
  get_package_prefix = λ package_name w. some (bytes "/opt");
  path_for_library = λ folder name. folder ++ name;
  load = λ path w. (w + 1, ok w);
}

get_typesupport_library-calls_example :
    let later =
      calls counting
        ((bytes "q/msg/U", bytes "c") ∷ [])
        (get_typesupport_library counting (bytes "p/msg/T") (bytes "c") ([], 5)).0 in
    get_typesupport_library counting (bytes "p/msg/T") (bytes "c") later ≡ (later, ok 5)
unfolding get_typesupport_library get_typesupport_library_path extract_type_identifier find_last_of
    find_first_of find_key insert_key
get_typesupport_library-calls_example =
    get_typesupport_library-calls counting (bytes "p/msg/T") (bytes "c") ([], 5) 5
      ((bytes "q/msg/U", bytes "c") ∷ []) refl

abbrev sizes : Made → ℕ
sizes string = 32
sizes wstring = 32
sizes strings = 24
sizes wstrings = 24

abbrev inner : Layout
inner = member 8 (ros_string false) last

abbrev outer : Layout
outer = member 0 (ros_string false) (member 40 (ros_message inner false) last)

-- The text of the inner message should be at 48.
misplaced : (allocate_message 80 outer).objects ≡ (0, string) ∷ (8, string) ∷ []
unfolding allocate_message allocate_string_members
misplaced = refl

outer-FitsIn : FitsIn sizes 80 outer
unfolding FitsIn
outer-FitsIn = (omega arith, ((40, omega arith, (omega arith, tt)), tt))

allocate_message-Inside_example :
    All (Inside sizes (allocate_message 80 outer).size) (allocate_message 80 outer).objects
allocate_message-Inside_example = allocate_message-Inside sizes 80 outer outer-FitsIn
