-- ===== src/Handler/Rosapi/Tests.antt =====
-- A node with two topics and two services.
use rws.Base.{ℕ, ◌+◌, ◌==◌, ◌≡◌, refl, Option, none, some, List, [], ◌∷◌, ltb, ==_iff, true}
use rws.Base.Result.{Result, ok, err, out_of_range}
use rws.Base.Text.{Text, bytes, text_eq}
use rws.Cdr.Host.{four_bytes, Host}
use rws.Names.{split_ns_node_name, find_last_of}
use rws.Ros.{Ros}
use rws.Members.{end}
use rws.Json.Tree.{
  Tree, Items, text, array, object, last, item, field, done, tree, lookup, put, count,
}
use rws.Handler.Rosapi.{
  Endpoint, Graph, push_values, list_topics, of_node, node_topics, is_one_of, with_type,
  call_rosapi,
}

abbrev host : Host
host = record { little_endian = true; wchar = four_bytes }

abbrev plain_ros : Ros
plain_ros = record {
  Duration = ℕ;
  Time = ℕ;
  nanoseconds = λ d. d;
  zero_duration = 0;
  same_duration = ◌==◌;
  after = ◌+◌;
  earlier = ltb;
  epoch = 0;
  World = ℕ;
  now = λ w. (w, w);
  Subscription = Text;
  Publisher = Text;
  create_generic_subscription = λ topic type qos params w. (w, ok topic);
  create_generic_publisher = λ topic type qos w. (w, ok topic);
  publisher_durabilities = λ topic w. [];
  same_duration_iff = ==_iff;
}

abbrev talker : Endpoint
talker = record { node_name = bytes "talker"; node_namespace = bytes "/" }

abbrev graph : Graph plain_ros (tree host) Text
graph = record {
  topic_names_and_types = λ w. (bytes "/a", bytes "A" ∷ []) ∷ (bytes "/b", bytes "B" ∷ []) ∷ [];
  service_names_and_types =
      λ w. (bytes "/s", bytes "S" ∷ []) ∷ (bytes "/t", bytes "S" ∷ bytes "T" ∷ []) ∷ [];
  node_names = λ w. [];
  subscriptions_info_by_topic = λ topic w. [];
  publishers_info_by_topic = λ topic w. talker ∷ [];
  services_by_node = λ name ns w. err out_of_range;
  members_of_type = λ type. ok end;
}

abbrev texts : List Text → Tree
texts ts = array (go ts)
  where
    go : List Text → Items
    go [] = last
    go (t ∷ ts) = item (text t) (go ts)

abbrev asking : Text → Text → Tree
asking key value = object (field (bytes "args") (object (field key (text value) done)) done)

abbrev values_of : Option (Result Tree) → Option Tree
values_of (some (ok (object fs))) = lookup (bytes "values") fs
values_of _ = none

abbrev member : Text → Option Tree → Option Tree
member key (some (object fs)) = lookup key fs
member key _ = none

with_services_for_type :
    member (bytes "services") (
      values_of (
        call_rosapi plain_ros
          (tree host)
          Text
          graph
          true
          0
          (bytes "/rosapi/services_for_type")
          (asking (bytes "type") (bytes "T"))
          (object done)))
    ≡ some (texts (bytes "/t" ∷ []))
unfolding call_rosapi text_eq lookup put count push_values with_type is_one_of
with_services_for_type = refl

with_topics :
    member (bytes "types") (
      values_of (
        call_rosapi plain_ros
          (tree host)
          Text
          graph
          true
          0
          (bytes "/rosapi/topics")
          (object done)
          (object done)))
    ≡ some (texts (bytes "A" ∷ bytes "B" ∷ []))
unfolding call_rosapi text_eq lookup put count list_topics
with_topics = refl

with_details :
    member (bytes "publishing") (
      values_of (
        call_rosapi plain_ros
          (tree host)
          Text
          graph
          true
          0
          (bytes "/rosapi/node_details")
          (asking (bytes "node") (bytes "/talker"))
          (object done)))
    ≡ some (texts (bytes "/a" ∷ bytes "/b" ∷ []))
unfolding call_rosapi text_eq lookup put count push_values node_topics of_node split_ns_node_name
    find_last_of
with_details = refl
