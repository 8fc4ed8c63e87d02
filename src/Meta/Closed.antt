-- ===== src/Meta/Closed.antt =====
-- The definitions that generate_message_meta collects: what they say, and that none is missing.
use rws.Base.{◌≡◌, Bool, none, some, List, [], ◌∷◌, ◌++◌, if◌then◌else◌, All}
use rws.Base.Result.{Result, ok, err, fault}
use rws.Base.Text.{Text, text_eq}
use rws.Base.Keys.{find_key}
use rws.Names.{get_type_from_message_members}
use rws.Members.{Members, end, plain, nested}
use rws.Translate.{placeholder}
use rws.Meta.{type_text, shown, line, Deps}

abbrev pub or_empty : Result Text → Text
or_empty (ok p) = p
or_empty (err e) = []
or_empty fault = []

abbrev pub path_of : Text → Text → Text
path_of namespace msg_name = or_empty (get_type_from_message_members namespace msg_name)

-- The lines of a type, without the types that it uses.
unfoldable pub definition : Bool → Members → Text → Text
definition compatible end parent_name = []
definition compatible (plain name t a rest) parent_name =
    (if text_eq name placeholder then [] else elim (type_text t) [
      | none ↦ []
      | some type ↦ line type a (shown compatible parent_name name)
    ])
    ++ definition compatible rest parent_name
definition compatible (nested name namespace msg_name sub a rest) parent_name =
    (if text_eq name placeholder
      then []
      else line (path_of namespace msg_name) a (shown compatible parent_name name))
    ++ definition compatible rest parent_name

-- The types that the lines name.
unfoldable pub named : Members → List Text
named end = []
named (plain name t a rest) = named rest
named (nested name namespace msg_name sub a rest) =
    let others = named rest in
    if text_eq name placeholder then others else path_of namespace msg_name ∷ others

-- The types of all fields are known, and namespaces have a "::".
abbrev pub IsKnown : Members → Type 0
IsKnown end = Unit {0}
IsKnown (plain name t a rest) = ((type : Text) × (type_text t ≡ some type)) × IsKnown rest
IsKnown (nested name namespace msg_name sub a rest) =
    ((path : Text) × (get_type_from_message_members namespace msg_name ≡ ok path))
    × IsKnown sub
    × IsKnown rest

-- A type's name stands for the same members everywhere.
abbrev pub Agrees : (Text → Members) → Members → Type 0
Agrees table end = Unit {0}
Agrees table (plain name t a rest) = Agrees table rest
Agrees table (nested name namespace msg_name sub a rest) =
    (table (path_of namespace msg_name) ≡ sub) × Agrees table sub × Agrees table rest

abbrev pub Has : Deps → Text → Type 0
Has deps path = (text : Text) × (find_key path deps ≡ some text)

abbrev Grows : Deps → Deps → Type 0
Grows deps deps' = (path : Text) → Has deps path → Has deps' path

module _ (compatible : Bool) (table : Text → Members) where
  -- The lines of the type under the name of some field, and no type is missing that they name.
  abbrev pub Described : Deps → Text → Text → Type 0
  Described deps path text =
      (parent_name : Text) × (text ≡ definition compatible (table path) parent_name)
      × All (Has deps) (named (table path))

  abbrev pub IsClosed : Deps → Type 0
  IsClosed deps = (path text : Text) → find_key path deps ≡ some text → Described deps path text

  -- What a call adds to the types.
  abbrev pub Adds : Deps → List Text → Deps → Type 0
  Adds deps ps deps' = IsClosed deps' × Grows deps deps' × All (Has deps') ps
