-- ===== src/Handler/Tests.antt =====
-- A client that subscribes to one topic of a small node.
use rws.Base.{
  none, false, Bool, some, ℕ, ◌≡◌, refl, true, [], ◌∷◌, ◌==◌, ◌+◌, if◌then◌else◌, ltb, ==_iff,
  arith,
}
use rws.Base.Result.{ok}
use rws.Base.Text.{Text, bytes, text_eq}
use rws.Params.{TopicParams, subscriber_params, publisher_params}
use rws.Ros.{Ros}
use rws.Connector.{
  Connector, SubscriberHandle, subscribe_to_topic, obtain_subscription, get_subscriber_by_params,
  last_durability, advertise_topic, obtain_publisher, get_publisher_by_params,
}
use rws.Connector.Handles.{IsValid}
use rws.Cdr.Host.{four_bytes, Host}
use rws.Json.{Json}
use rws.Json.Tree.{Tree, text, object, done, field, lookup, tree}
use rws.Base.Keys.{find_key}
use rws.Handler.{
  Node, ClientHandler, subscription_params, client_subscribe_to_topic, unsubscribe_from_topic,
}
use rws.Names.{message_type_to_ros2_style, find_text, starts_with}
use rws.Members.{end}
use rws.Handler.Publishers.{
  Publishing, advertised_params, client_advertise_topic, unadvertise_topic,
}
use rws.Handler.Publishers.Advertised.{IsReady}
use rws.Handler.Publishers.Session.{Offers, unadvertise_topic-client_advertise_topic}
use rws.Handler.Session.{Asks, unsubscribe_from_topic-client_subscribe_to_topic}

abbrev pub host : Host
host = record { little_endian = true; wchar = four_bytes }

abbrev pub trees : Json
trees = tree host

abbrev pub still : Ros
still = record {
  Duration = ℕ;
  Time = ℕ;
  nanoseconds = λ d. d;
  zero_duration = 0;
  same_duration = ◌==◌;
  after = ◌+◌;
  earlier = ltb;
  epoch = 0;
  World = ℕ;
  now = λ w. (w, w);
  Subscription = Text;
  Publisher = Text;
  create_generic_subscription = λ topic type qos params w. (w + 1, ok topic);
  create_generic_publisher = λ topic type qos w. (w + 1, ok topic);
  publisher_durabilities = λ topic w. [];
  same_duration_iff = ==_iff;
}

abbrev pub node : Node still trees Text
node = record {
  topic_names_and_types = λ w. (bytes "/c", bytes "T" ∷ []) ∷ [];
  duration = λ ns. ns;
  subscription_callback = λ params m w. (w, ok tt);
}

abbrev pub request : Tree
request = object (field (bytes "topic") (text (bytes "/c")) done)

abbrev pub asked_params : TopicParams ℕ
asked_params = subscriber_params (bytes "/c") (bytes "T") 10 (bytes "none") 0

abbrev pub nobody : Connector still Text
nobody = record { subscribers = []; publishers = []; next_handler_id = 0 }

abbrev pub client : ClientHandler still trees Text
client = record {
  client_id = 1;
  subscriptions = [];
  publishers = [];
  publisher_type = [];
  publisher_cb = [];
}

abbrev pub heard : SubscriberHandle still Text
heard = record {
  subscription = bytes "/c";
  params = asked_params;
  callback = λ params m w. (w, ok tt);
  client_id = 1;
  handle_id = 0;
  last_sent = 0;
}

abbrev pub one : Connector still Text
one = record { subscribers = heard ∷ []; publishers = []; next_handler_id = 1 }

request-Asks : Asks still trees Text node request client 5 (bytes "/c") (bytes "T") asked_params
unfolding find_key lookup text_eq subscription_params
request-Asks = record {
  names = refl;
  reads = refl;
  others = [];
  known = refl;
  asked = refl;
  first_time = refl;
}

nobody-IsValid : IsValid still Text nobody
nobody-IsValid = record { subscribers_fresh = tt; publishers_fresh = tt }

one-IsValid : IsValid still Text one
one-IsValid = record { subscribers_fresh = (omega arith, tt, tt); publishers_fresh = tt }

unsubscribe_from_topic-client_subscribe_to_topic_example :
    let (h₁, c₁, w₁, r) =
      client_subscribe_to_topic still trees Text node request (object done) client nobody 5 in
    let (h₂, c₂, w₂, q) = unsubscribe_from_topic still trees Text request (object done) h₁ c₁ w₁ in
    (h₂.subscriptions ≡ []) × (c₂.subscribers ≡ []) × (c₂.publishers ≡ [])
unfolding subscribe_to_topic obtain_subscription get_subscriber_by_params last_durability
    subscriber_params
unsubscribe_from_topic-client_subscribe_to_topic_example =
    unsubscribe_from_topic-client_subscribe_to_topic still trees Text node request (object done)
      (object done) client nobody one 5 6 (bytes "/c") (bytes "T") asked_params 0 nobody-IsValid
      request-Asks refl

abbrev pub offer : Tree
offer =
    object
      (field (bytes "topic") (text (bytes "/c")) (field (bytes "type") (text (bytes "p/T")) done))

abbrev pub offered_params : TopicParams ℕ
offered_params = advertised_params still trees Text (bytes "/c") (bytes "p/msg/T") offer

offer-Offers : Offers still trees Text offer client (bytes "/c") (bytes "p/msg/T")
unfolding find_key lookup text_eq message_type_to_ros2_style find_text starts_with
offer-Offers = record {
  has_type = refl;
  has_topic = refl;
  names = refl;
  given = bytes "p/T";
  gives = refl;
  styled = refl;
  first_time = refl;
}

unadvertise_topic-client_advertise_topic_example :
    let (h₁, c₁, w₁, r) =
      client_advertise_topic still trees Text offer (object done) client nobody 5 in
    let (h₂, c₂, w₂, q) = unadvertise_topic still trees Text offer (object done) h₁ c₁ w₁ in
    (h₂.publishers ≡ []) × (c₂.publishers ≡ []) × (c₂.subscribers ≡ [])
unfolding advertise_topic obtain_publisher get_publisher_by_params advertised_params
    publisher_params
unadvertise_topic-client_advertise_topic_example =
    unadvertise_topic-client_advertise_topic still trees Text offer (object done) (object done)
      client nobody (advertise_topic still Text 1 offered_params nobody 5).0 5 6 (bytes "/c")
      (bytes "p/msg/T") 0 (bytes "/c") nobody-IsValid offer-Offers refl

abbrev pub publishing : Publishing still trees Text
publishing = record {
  members_of_type = λ type. ok end;
  serialized = λ buffer. buffer;
  publish = λ p m w. (w + 1, ok tt);
}

abbrev pub speaker : ClientHandler still trees Text
speaker = record client {
  publishers = (bytes "/c", 0) ∷ [];
  publisher_type = (bytes "/c", bytes "p/msg/T") ∷ [];
  publisher_cb = (bytes "/c", some (bytes "/c")) ∷ [];
}

speaker-IsReady : IsReady still trees Text speaker
unfolding find_key
speaker-IsReady topic id e = known (text_eq (bytes "/c") topic) e
  where
    known :
        (b : Bool)
        → (if b then some 0 else none) ≡ some id
        → ((type : Text) × ((if b then some (bytes "p/msg/T") else none) ≡ some type))
          × ((p : Text) × ((if b then some (some (bytes "/c")) else none) ≡ some (some p)))
    known true e = ((_, refl), (_, refl))
    known false e = cc
