-- ===== src/Translate/Tests.antt =====
-- A message with a text, a sequence of numbers and a sequence of points.
use rws.Base.{ℕ, ◌+◌, ◌^◌, ◌≡◌, ◌≢◌, ◌<◌, refl, true, false, List, [], ◌∷◌, length, arith}
use rws.Base.Result.{ok, fault, ◌>>=◌}
use rws.Base.Text.{bytes, text_eq, text_eq_false→ne}
use rws.Cdr.Host.{two_bytes, four_bytes, Host, to_memory, low_bytes}
use rws.Cdr.Ser as Ser
use rws.Cdr.Ser.Layout.{layout, layout_all}
use rws.Cdr.Ser.{Cycser, cycser}
use rws.Cdr.RoundTrip.{encode}
use rws.Members.{ros_string, ros_uint16, ros_int32, Arity, Members, end, plain, nested}
use rws.Json.Tree.{
  Tree, nothing, number, text, array, object, last, item, done, field, tree, nth, lookup, count,
}
use rws.Json.Tree.Laws.{tree-JsonLaws}
use rws.Translate.{to_json_message, to_serialized_message}
use rws.Translate.Values.{each, field_values, message_values}
use rws.Translate.Reads.{Fit}
use rws.Translate.Sound.{IsSound}
use rws.Translate.RoundTrip.{to_serialized_message-encode, to_json_message-to_serialized_message}
use rws.Translate.Safety.{to_json_message-ne-fault}

abbrev little : Host
little = record { little_endian = true; wchar = four_bytes }

abbrev big : Host
big = record { little_endian = false; wchar = four_bytes }

abbrev single : Arity
single = record { is_array = false; array_size = 0; is_upper_bound = false; get_function = true }

abbrev sequence : Arity
sequence = record { is_array = true; array_size = 0; is_upper_bound = false; get_function = true }

abbrev pair : Arity
pair = record { is_array = true; array_size = 2; is_upper_bound = false; get_function = true }

abbrev shape_points : Members
shape_points =
    nested (bytes "points") (bytes "n") (bytes "Point") (plain (bytes "x") ros_int32 single end)
      sequence end

abbrev shape_size : Members
shape_size = plain (bytes "size") ros_uint16 pair shape_points

abbrev shape_members : Members
shape_members = plain (bytes "name") ros_string single shape_size

-- The second number and the second x are missing.
abbrev shape : Tree
shape = object (
    field (bytes "points")
      (array (item (object (field (bytes "x") (number 7) done)) (item (object done) last)))
      (field (bytes "size") (array (item (number 513) last))
        (field (bytes "name") (text (bytes "ab")) done)))

abbrev shape_values : List Ser.Value
shape_values =
    Ser.text (bytes "ab")
    ∷ Ser.scalar two_bytes 513
    ∷ Ser.scalar two_bytes 0
    ∷ Ser.scalar four_bytes 2
    ∷ Ser.scalar four_bytes 7
    ∷ Ser.scalar four_bytes 0
    ∷ []

shape_gives : message_values (tree little) little shape_members shape ≡ ok shape_values
unfolding message_values field_values each nth lookup count text_eq
shape_gives = refl

shape_members-IsSound : IsSound shape_members
unfolding text_eq
shape_members-IsSound =
    let point : IsSound (plain (bytes "x") ros_int32 single end) = (refl, tt, (_, refl), tt) in
    let points : IsSound shape_points = (refl, tt, refl, refl, point, tt) in
    let size : IsSound shape_size =
      (refl, (text_eq_false→ne (bytes "size") (bytes "points") refl, tt), (_, refl), points) in
    (
      refl,
      (
        text_eq_false→ne (bytes "name") (bytes "size") refl,
        (text_eq_false→ne (bytes "name") (bytes "points") refl, tt),
      ),
      (_, refl),
      size,
    )

shape_values-Fit : Fit big little refl shape_values
shape_values-Fit = record {
  carried =
      (omega arith, (omega arith, (omega arith, (omega arith, (omega arith, (omega arith, tt))))));
  survive = (tt, (tt, (tt, (tt, (tt, (tt, tt))))));
  few = omega arith;
}

shape_small : length (layout_all little shape_values 0) + 4 < 2 ^ 63
unfolding layout_all layout low_bytes to_memory
shape_small =
    let size : length (layout_all little shape_values 0) ≡ 24 = refl in omega (arith, size)

to_json_message-to_serialized_message_example :
    (j : Tree) × ((to_serialized_message (tree little) little shape_members shape
        >>= to_json_message (tree little) big shape_members)
      ≡ ok j)
    × (to_serialized_message (tree little) little shape_members j
        ≡ to_serialized_message (tree little) little shape_members shape)
to_json_message-to_serialized_message_example =
    to_json_message-to_serialized_message (tree little) big little refl (tree-JsonLaws little)
      shape_members shape shape_values shape_members-IsSound shape_gives shape_values-Fit
      shape_small

to_serialized_message-encode_example :
    to_serialized_message (tree big) big shape_members shape
    ≡ (message_values (tree big) big shape_members shape >>= encode big)
to_serialized_message-encode_example =
    to_serialized_message-encode (tree big) big shape_members shape

item_lem : (i : ℕ) (x : Tree) → (tree big).item i x ≢ fault
item_lem i (array xs) = λ e. cc
item_lem i nothing = λ e. cc
item_lem i x = λ e. cc

to_json_message-ne-fault_example :
    to_json_message (tree big) big shape_members (0 ∷ 1 ∷ 0 ∷ 0 ∷ 255 ∷ 255 ∷ 255 ∷ 255 ∷ [])
    ≢ fault
to_json_message-ne-fault_example =
    to_json_message-ne-fault (tree big) big item_lem shape_members
      (0 ∷ 1 ∷ 0 ∷ 0 ∷ 255 ∷ 255 ∷ 255 ∷ 255 ∷ []) (omega arith) (omega arith)
