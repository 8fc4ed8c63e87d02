-- ===== src/Handler/Subscription/Tests.antt =====
-- A message that one host publishes and a client of another gets.
use rws.Base.{
  ℕ, suc, ◌+◌, ◌*◌, ◌^◌, ◌/◌, ◌≡◌, ◌<◌, ◌↔◌, refl, ap, ◌∙◌, true, false, none, some, List, [], ◌∷◌,
  ◌==◌, ltb, ==_iff, length, arith,
}
use rws.Base.Result.{ok, ◌>>=◌}
use rws.Base.Text.{Text, bytes, text_eq}
use rws.Cdr.Host.{four_bytes, Host, to_memory, low_bytes}
use rws.Cdr.Ser as Ser
use rws.Cdr.Ser.Layout.{layout, layout_all}
use rws.Cdr.RoundTrip.{encode}
use rws.Params.{TopicParams, subscriber_params}
use rws.Ros.{Ros}
use rws.Members.{ros_int32, Members, end, plain}
use rws.Json.Tree.{Tree, number, text, object, field, done, tree, lookup}
use rws.Json.Tree.Laws.{tree-JsonLaws}
use rws.Translate.{to_serialized_message}
use rws.Translate.Values.{field_values, message_values}
use rws.Translate.RoundTrip.{to_serialized_message-encode}
use rws.Handler.Subscription.{nsecs_of, Sending, subscription_callback}
use rws.Handler.Subscription.Stamp.{nsecs_of_lem}
use rws.Handler.Subscription.Delivery.{
  Format, IsPlain, IsPublished, subscription_callback-to_serialized_message,
}

abbrev little : Host
little = record { little_endian = true; wchar = four_bytes }

abbrev big : Host
big = record { little_endian = false; wchar = four_bytes }

abbrev clock : Ros
clock = record {
  Duration = ℕ;
  Time = ℕ;
  nanoseconds = λ d. d;
  zero_duration = 0;
  same_duration = ◌==◌;
  after = ◌+◌;
  earlier = ltb;
  epoch = 0;
  World = ℕ;
  now = λ w. (w, suc w);
  Subscription = Text;
  Publisher = Text;
  create_generic_subscription = λ topic type qos params w. (w, ok topic);
  create_generic_publisher = λ topic type qos w. (w, ok topic);
  publisher_durabilities = λ topic w. [];
  same_duration_iff = ==_iff;
}

abbrev number_members : Members
number_members =
    plain (bytes "x") ros_int32
      (record { is_array = false; array_size = 0; is_upper_bound = false; get_function = true }) end

abbrev seven : Tree
seven = object (field (bytes "x") (number 7) done)

abbrev seven_buffer : List ℕ
seven_buffer = 0 ∷ 1 ∷ 0 ∷ 0 ∷ 7 ∷ 0 ∷ 0 ∷ 0 ∷ []

abbrev sending : Sending clock (tree little) (List ℕ)
sending = record {
  time_seconds = λ t. t / 1000000000;
  time_nanoseconds = λ t. t;
  buffer = λ m. m;
  members_of_type = λ type. ok number_members;
  of_number = number;
  binary = text;
  dump = λ v. ok (bytes "{}");
  to_cbor = λ v. ok [];
  to_bson = λ v. ok [];
  to_msgpack = λ v. ok [];
  to_ubjson = λ v. ok [];
  to_bjdata = λ v. ok [];
  callback = some (λ msg w. w + length msg);
  binary_callback = none;
}

abbrev params : TopicParams ℕ
params = subscriber_params (bytes "/x") (bytes "p/msg/X") 10 (bytes "none") 0

none-IsPlain : IsPlain (bytes "none")
unfolding text_eq
none-IsPlain = record {
  not_cbor_raw = refl;
  not_cbor = refl;
  not_bson = refl;
  not_msgpack = refl;
  not_ubjson = refl;
  not_bjdata = refl;
}

seven_gives :
    message_values (tree little) little number_members seven ≡ ok (Ser.scalar four_bytes 7 ∷ [])
unfolding message_values field_values lookup text_eq
seven_gives = refl

seven_written : to_serialized_message (tree little) little number_members seven ≡ ok seven_buffer
unfolding encode layout layout_all low_bytes to_memory Ser.insert_all Ser.insert Ser.serialize
    Ser.append_at Ser.store Ser.cycser Ser.resize
seven_written =
    to_serialized_message-encode (tree little) little number_members seven
    ∙ ap (λ m. m >>= encode little) seven_gives
    ∙ refl

seven_size : length (layout_all little (Ser.scalar four_bytes 7 ∷ []) 0) ≡ 4
unfolding layout layout_all low_bytes to_memory
seven_size = refl

subscription_callback-to_serialized_message_example :
    (j : Tree) × (m : Tree) × IsPublished clock
      (tree little)
      (List ℕ)
      sending
      big
      little
      refl
      (tree-JsonLaws little)
      params
      j
      m
    × (subscription_callback clock (tree little) (List ℕ) sending big params seven_buffer 5
        ≡ (9, ok tt))
    × (to_serialized_message (tree little) little number_members j ≡ ok seven_buffer)
unfolding subscriber_params text_eq
subscription_callback-to_serialized_message_example =
    subscription_callback-to_serialized_message clock (tree little) (List ℕ) sending big little refl
      (tree-JsonLaws little) params Format.text number_members seven (Ser.scalar four_bytes 7 ∷ [])
      seven_buffer 5 none-IsPlain refl (refl, tt, (_, refl), tt) seven_gives
      (record { carried = (omega arith, tt); survive = (tt, tt); few = omega arith })
      (omega (arith, seven_size)) seven_written

nsecs_of_lem_example :
    let six : ℕ = 6 in
    let five : ℕ = 5 in
    (6 * 1000000000 + nsecs_of 6 5999999990 ≡ 5999999990 + 2 ^ 32)
    × ((nsecs_of 6 5999999990 < 1000000000) ↔ (six ≡ five))
nsecs_of_lem_example = nsecs_of_lem 6 5999999990 (omega arith) (omega arith)
