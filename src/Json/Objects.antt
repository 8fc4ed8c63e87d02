-- ===== src/Json/Objects.antt =====
-- The members of JSON objects that are made with `j[key] = value`, as a table that says what every
-- key has.
use rws.Base.{
  true, Bool-cases, inl, inr, ◌||◌, ◌≡◌, ◌≢◌, refl, sym, ap, ◌∙◌, some, List, [], ◌∷◌,
  if◌then◌else◌, arith,
}
use rws.Base.Text.{Text, text_eq, text_eq_refl, text_eq→eq}
use rws.Base.Keys.{find_key}
use rws.Cdr.Host.{Host}
use rws.Json.{Json, JsonLaws}

module _ (json : Json) (h : Host) (laws : JsonLaws json h) where
  open json use {Value, set, null, is_null, is_object, find_member}

  pub find_member_set :
      (j k : Text) (v o : Value)
      → (is_null o || is_object o) ≡ true
      → find_member j (set k v o) ≡ (if text_eq k j then some v else find_member j o)
  find_member_set j k v o e = elim (Bool-cases (text_eq k j)) [
    | inl hit ↦ rw hit (
        ap (λ i. find_member i (set k v o)) (sym (text_eq→eq k j hit))
        ∙ laws.find_member-set k v o e)
    | inr miss ↦
        let apart : j ≢ k = λ same.
          let alike : text_eq k k ≡ text_eq k j = ap (text_eq k) (sym same) in
          cc (alike, miss, text_eq_refl k) in
        rw miss (laws.find_member-set_ne j k v o e apart)
  ]

  -- Every key has what the table has for it.
  abbrev Has : List (Text × Value) → Value → Type 0
  Has table o = (k : Text) → find_member k o ≡ find_key k table

  -- An object with these members and no other.
  abbrev pub Holds : List (Text × Value) → Value → Type 0
  Holds table o = (is_object o ≡ true) × Has table o

  set_has :
      (k : Text) (v : Value) (table : List (Text × Value)) (o : Value)
      → (is_null o || is_object o) ≡ true
      → Has table o
      → Holds ((k, v) ∷ table) (set k v o)
  unfolding find_key
  set_has k v table o e has = (
    laws.set-object k v o e,
    λ j. find_member_set j k v o e ∙ ap (λ x. if text_eq k j then some v else x) (has j),
  )

  pub set-Holds_first : (k : Text) (v : Value) → Holds ((k, v) ∷ []) (set k v null)
  unfolding find_key
  set-Holds_first k v = set_has k v [] null (rw laws.null_lem.0 refl) (λ j. laws.find_member-null j)

  pub object_either : (o : Value) → is_object o ≡ true → (is_null o || is_object o) ≡ true
  object_either o e = ground arith

  pub set-Holds :
      (k : Text) (v : Value) (table : List (Text × Value)) (o : Value)
      → Holds table o
      → Holds ((k, v) ∷ table) (set k v o)
  set-Holds k v table o (obj, has) = set_has k v table o (object_either o obj) has
