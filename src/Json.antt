-- ===== src/Json.antt =====
-- What the code uses of nlohmann::json, which is not part of the repository: the operations as a
-- record, and what its documentation says of them as a second one.
pub mod Tree
pub mod Objects
use rws.Base.{
  ℕ, suc, Bool, true, false, ◌||◌, ◌≡◌, ◌≢◌, ◌==◌, Option, none, some, if◌then◌else◌, length, ◌<◌,
  ◌≤◌, All,
}
use rws.Base.Result.{Result, ok, fault}
use rws.Base.Text.{Text}
use rws.Cdr.Host.{Fits, Host}
use rws.Cdr.Deser.{Shape}
use rws.Cdr.Deser.Reads.{shape_of}
use rws.Cdr.Ser as Ser
use rws.Members.{TypeId, type_shape}

pub record Json : Type 1 where
  pub Value : Type 0
  pub contains : Text → Value → Bool
  -- operator[] of a constant value with a key that is there.
  pub at : Text → Value → Value
  -- `j[key] = value`, on an object or null.
  pub set : Text → Value → Value → Value
  pub is_string : Value → Bool
  pub is_number : Value → Bool
  pub is_boolean : Value → Bool
  pub get_string : Value → Result Text
  pub get_number : Value → ℕ
  pub get_bool : Value → Bool
  pub of_text : Text → Value
  pub of_bool : Bool → Value
  pub null : Value
  pub is_null : Value → Bool
  pub is_object : Value → Bool
  pub is_array : Value → Bool
  pub size : Value → ℕ
  -- find(key); none is end().
  pub find_member : Text → Value → Option Value
  pub empty_array : Value
  -- operator[] with an index: null behind the end of an array and on null, an exception elsewhere.
  pub item : ℕ → Value → Result Value
  -- `j[i] = value`, on an array or null.
  pub set_item : ℕ → Value → Value → Value
  -- The conversions between a value of the C++ type of a TypeId and JSON.
  pub to_json : TypeId → Ser.Value → Value
  pub get : TypeId → Value → Result Ser.Value

abbrev pub InRange : Host → Ser.Value → Type 0
InRange h (Ser.boolean b) = Unit {0}
InRange h (Ser.scalar w x) = Fits w x
InRange h (Ser.text x) = Unit {0}
InRange h (Ser.wide_text x) = All (Fits h.wchar) x

-- The value is of the C++ type.
abbrev pub HasShape : Host → Shape → Ser.Value → Type 0
HasShape h sh v = (sh ≡ shape_of v) × InRange h v

abbrev pub HasType : Host → TypeId → Ser.Value → Type 0
HasType h t v = (sh : Shape) × (type_shape t ≡ some sh) × HasShape h sh v

module _ (json : Json) (h : Host) where
  open json use {
    Value, set, null, is_null, is_object, is_array, size, find_member, empty_array, item, set_item,
    to_json, get,
  }

  -- The documented behaviour that the code relies on, on a host.
  pub record JsonLaws : Type 0 where
    pub null_lem : (is_null null ≡ true) × (size null ≡ 0) × (is_array null ≡ false)
    pub find_member-null : (k : Text) → find_member k null ≡ none
    -- Objects, and null, which becomes one.
    pub set-object :
        (k : Text) (v o : Value) → (is_null o || is_object o) ≡ true → is_object (set k v o) ≡ true
    pub find_member-set :
        (k : Text) (v o : Value)
        → (is_null o || is_object o) ≡ true
        → find_member k (set k v o) ≡ some v
    pub find_member-set_ne :
        (j k : Text) (v o : Value)
        → (is_null o || is_object o) ≡ true
        → j ≢ k
        → find_member j (set k v o) ≡ find_member j o
    -- Arrays, and null, which becomes one.
    pub array_lem : (is_array empty_array ≡ true) × (size empty_array ≡ 0)
    pub is_null-array : (a : Value) → is_array a ≡ true → is_null a ≡ false
    pub item-null : (i : ℕ) → item i null ≡ ok null
    pub item_behind : (i : ℕ) (a : Value) → is_array a ≡ true → size a ≤ i → item i a ≡ ok null
    pub set_item-array :
        (n : ℕ) (v a : Value)
        → (is_null a || is_array a) ≡ true
        → size a ≡ n
        → (is_array (set_item n v a) ≡ true)
          × (size (set_item n v a) ≡ suc n)
          × (item n (set_item n v a) ≡ ok v)
    pub item-set_item :
        (i n : ℕ) (v a : Value)
        → (is_null a || is_array a) ≡ true
        → size a ≡ n
        → i < n
        → item i (set_item n v a) ≡ item i a
    -- The conversions.
    pub get-HasType : (t : TypeId) (j : Value) (v : Ser.Value) → get t j ≡ ok v → HasType h t v
    pub get-to_json :
        (t : TypeId) (v : Ser.Value)
        → HasType h t v
        → (is_null (to_json t v) ≡ false) × (get t (to_json t v) ≡ ok v)
