-- ===== src/Translate/Values.antt =====
-- The `<<` that a JSON value gives for a type, as a list of values, without the serializer.
use rws.Base.{
  ℕ, zero, suc, ◌%◌, ◌^◌, not, none, some, List, [], ◌∷◌, ◌++◌, if◌then◌else◌, ◌≡◌, refl, Option,
}
use rws.Base.Result.{Result, ok, err, fault, unknown_type, ◌>>=◌}
use rws.Base.Text.{Text, text_eq}
use rws.Cdr.Host.{four_bytes, Host}
use rws.Cdr.Ser as Ser
use rws.Cdr.Ser.{scalar}
use rws.Cdr.Deser.{Shape}
use rws.Members.{TypeId, type_shape, default_value, Arity, is_fixed, Members, end, plain, nested}
use rws.Json.{Json}
use rws.Translate.{placeholder}

abbrev pub Values : Type 0
Values = Result (List Ser.Value)

-- One behind the other.
abbrev pub both : Values → Values → Values
both m n = do xs ← m; ys ← n; ok (xs ++ ys)

abbrev pub one : Result Ser.Value → Values
one m = do v ← m; ok (v ∷ [])

-- Inversion of parts that succeed.
pub both-eq-ok :
    (m n : Values) {zs : List Ser.Value}
    → both m n ≡ ok zs
    → (xs : List Ser.Value) × (ys : List Ser.Value) × (m ≡ ok xs) × (n ≡ ok ys) × (xs ++ ys ≡ zs)
both-eq-ok (ok xs) (ok ys) e = (xs, ys, refl, refl, cc)
both-eq-ok (ok xs) (err x) e = cc
both-eq-ok (ok xs) fault e = cc
both-eq-ok (err x) n e = cc
both-eq-ok fault n e = cc

pub one-eq-ok :
    (m : Result Ser.Value) {zs : List Ser.Value}
    → one m ≡ ok zs
    → (v : Ser.Value) × (m ≡ ok v) × (v ∷ [] ≡ zs)
one-eq-ok (ok v) e = (v, refl, cc)
one-eq-ok (err x) e = cc
one-eq-ok fault e = cc

-- The values of `n` items from index `i` on.
unfoldable pub each : (ℕ → Values) → ℕ → ℕ → Values
each f zero i = ok []
each f (suc n) i = both (f i) (each f n (suc i))

module _ (json : Json) (h : Host) where
  open json use {Value, null, is_null, is_array, size, find_member, item, get}

  -- What a key has: null if it is missing.
  abbrev entry : Option Value → Value
  entry none = null
  entry (some v) = v

  abbrev pub entry_at : Text → Value → Value
  entry_at name j = entry (find_member name j)

  -- One value of a known type: null stands for the default.
  abbrev pub value_of : Shape → TypeId → Value → Result Ser.Value
  value_of sh t x = if is_null x then ok (default_value sh) else get t x

  -- The value at an index: null has the default everywhere.
  abbrev pub value_at : Shape → TypeId → ℕ → Value → Result Ser.Value
  value_at sh t i x =
      if is_null x then ok (default_value sh) else (do y ← item i x; value_of sh t y)

  -- The messages of a sequence: none in anything but an array.
  abbrev pub message_total : Value → ℕ
  message_total x = if is_array x then size x else 0

  unfoldable pub field_values : Shape → TypeId → Arity → Value → Values
  field_values sh t a field =
      if not a.is_array
      then one (value_of sh t field)
      else if is_fixed a
      then each (λ i. one (value_at sh t i field)) a.array_size 0
      else both (ok (scalar four_bytes (size field % 2 ^ 32) ∷ []))
          (each (λ i. one (value_at sh t i field)) (size field % 2 ^ 32) 0)

  unfoldable pub message_values : Members → Value → Values
  message_values end j = ok []
  message_values (plain name t a rest) j =
      both
        (if text_eq name placeholder then ok [] else elim (type_shape t) [
          | none ↦ err unknown_type
          | some sh ↦ field_values sh t a (entry_at name j)
        ])
        (message_values rest j)
  message_values (nested name namespace msg_name sub a rest) j =
      let field = entry_at name j in
      let items = λ (i : ℕ). item i field >>= message_values sub in
      both
        (if text_eq name placeholder
          then ok []
          else if not a.is_array
          then message_values sub field
          else if is_fixed a
          then each items a.array_size 0
          else both (ok (scalar four_bytes (message_total field % 2 ^ 32) ∷ []))
              (each items (message_total field) 0))
        (message_values rest j)
