-- ===== src/Handler/Owners/Operations.antt =====
-- The subscriber handles through each operation on topics.
use rws.Base.{
  ℕ, ◌+◌, ◌^◌, ◌<◌, ◌≡◌, Bool, true, false, not, Option, none, some, if◌then◌else◌, List, [], refl,
}
use rws.Base.Result.{Result, ok, err, fault}
use rws.Base.Text.{Text, bytes}
use rws.Base.Keys.{find_key}
use rws.Cdr.Host.{Host}
use rws.Params.{TopicParams}
use rws.Ros.{Ros}
use rws.Connector.{Connector, new_publisher, push_publisher, next_id, advertise_topic, unadvertise}
use rws.Connector.Handles.{IsValid, step, step-IsValid, advertises, unadvertises}
use rws.Json.{Json}
use rws.Handler.{
  Node, ClientHandler, Reached, attempt, if_found, has_text, text_at, first_type,
  subscription_params, subscribe_known, client_subscribe_to_topic, unsubscribe_from_topic,
}
use rws.Handler.Publishers.{
  Publishing, touched, at_key, call_publisher, advertised_params, advertised, advertise_type,
  client_advertise_topic, unadvertise_topic, message_bytes, published, publish_known,
  publish_to_topic,
}
use rws.Handler.Owners.{Claims, ClaimsAll, subscribed-Claims, unsubscribed-Claims}

module _ (ros : Ros) (json : Json) (Message : Type 0) (Other : ℕ → Type 0) where
  open ros use {World, Publisher}
  open json use {Value, contains, at, get_string, set}

  abbrev Claimed : Reached ros json Message → Type 0
  Claimed = ClaimsAll ros json Message Other

  if-Claims :
      (b : Bool) (x y : Reached ros json Message)
      → Claimed x
      → Claimed y
      → Claimed (if b then x else y)
  if-Claims true x y p q = p
  if-Claims false x y p q = q

  attempt-Claims :
      {A : Type 0} (h : ClientHandler ros json Message) (c : Connector ros Message) (w : World)
      (r : Result A) (next : A → Reached ros json Message)
      → Claims ros json Message Other h c
      → ((a : A) → Claimed (next a))
      → Claimed (attempt ros json Message h c w r next)
  attempt-Claims h c w (ok a) next k f = f a
  attempt-Claims h c w (err e) next k f = k
  attempt-Claims h c w fault next k f = k

  if_found-Claims :
      {V : Type 0} (o : Option V) (next : V → Reached ros json Message)
      (missing : Reached ros json Message)
      → ((v : V) → o ≡ some v → Claimed (next v))
      → (o ≡ none → Claimed missing)
      → Claimed (if_found ros json Message o next missing)
  if_found-Claims none next missing f g = g refl
  if_found-Claims (some v) next missing f g = f v refl

  pushed-Claims :
      (h : ClientHandler ros json Message) (topic type : Text) (response : Value)
      (params : TopicParams ros.Duration) (c : Connector ros Message) (r : World × Result Publisher)
      → Claims ros json Message Other h c
      → let reached =
          push_publisher ros Message
            (new_publisher ros Message h.client_id params c.next_handler_id)
            (record c { next_handler_id = next_id ros Message c.next_handler_id })
            r in
        IsValid ros Message reached.0
        → Claimed (
            advertised ros json Message
              (record h { publisher_cb = touched topic none h.publisher_cb })
              topic
              type
              response
              reached)
  pushed-Claims h topic type response params c (w, ok p) k v = record { valid = v; owned = k.owned }
  pushed-Claims h topic type response params c (w, err e) k v = record {
    valid = v;
    owned = k.owned;
  }
  pushed-Claims h topic type response params c (w, fault) k v = record {
    valid = v;
    owned = k.owned;
  }

  published-Claims :
      (h : ClientHandler ros json Message) (c : Connector ros Message) (response : Value)
      (r : World × Result (Unit {0}))
      → Claims ros json Message Other h c
      → Claimed (published ros json Message h c response r)
  published-Claims h c response (w, ok done) k = k
  published-Claims h c response (w, err x) k = k
  published-Claims h c response (w, fault) k = k

  module _ (msg before : Value) (h : ClientHandler ros json Message) (c : Connector ros Message)
      (w : World) (room : c.next_handler_id + 1 < 2 ^ 64)
      (k : Claims ros json Message Other h c) where
    pub client_subscribe_to_topic-Claims :
        (node : Node ros json Message)
        → Claimed (client_subscribe_to_topic ros json Message node msg before h c w)
    unfolding client_subscribe_to_topic subscribe_known
    client_subscribe_to_topic-Claims node =
        if-Claims (has_text ros json Message (bytes "topic") msg) _ _
          (attempt-Claims h c w (get_string (at (bytes "topic") msg)) _ k λ topic.
            if_found-Claims (find_key topic (node.topic_names_and_types w)) _ _
              (λ types _. attempt-Claims h c w (first_type ros json Message types) _ k λ sub_type.
                attempt-Claims h c w (subscription_params ros json Message node topic sub_type msg)
                  _ k
                  λ params.
                    if_found-Claims (find_key topic h.subscriptions) _ _ (λ i _. k)
                      λ new.
                        subscribed-Claims ros json Message Other h topic sub_type _ params
                          node.subscription_callback c w room new k)
              (λ _. k))
          k

    pub unsubscribe_from_topic-Claims :
        Claimed (unsubscribe_from_topic ros json Message msg before h c w)
    unfolding unsubscribe_from_topic
    unsubscribe_from_topic-Claims =
        attempt-Claims h c w (text_at ros json Message (bytes "topic") msg) _ k λ topic.
          if_found-Claims (find_key topic h.subscriptions) _ _
            (λ id e. unsubscribed-Claims ros json Message Other h topic id c w room e k) (λ _. k)

    pub client_advertise_topic-Claims :
        Claimed (client_advertise_topic ros json Message msg before h c w)
    unfolding client_advertise_topic advertise_type advertise_topic step
    client_advertise_topic-Claims =
        if-Claims (not (has_text ros json Message (bytes "type") msg)) _ _ k (
          if-Claims (not (has_text ros json Message (bytes "topic") msg)) _ _ k (
            attempt-Claims h c w _ _ k λ r.
              if_found-Claims (find_key r.0 h.publishers) _ _ (λ i _. k)
                λ _.
                  pushed-Claims h r.0 r.1 _ (advertised_params ros json Message r.0 r.1 msg) c _ k (
                    step-IsValid ros Message
                      (advertises h.client_id (advertised_params ros json Message r.0 r.1 msg)) c w
                      room k.valid)))

    pub unadvertise_topic-Claims : Claimed (unadvertise_topic ros json Message msg before h c w)
    unfolding unadvertise_topic unadvertise step
    unadvertise_topic-Claims =
        attempt-Claims h c w (text_at ros json Message (bytes "topic") msg) _ k λ topic.
          if_found-Claims (find_key topic h.publishers) _ _
            (λ id _. record {
              valid = step-IsValid ros Message (unadvertises id) c w room k.valid;
              owned = k.owned;
            })
            (λ _. k)

    publish_known-Claims :
        (publishing : Publishing ros json Message) (host : Host) (topic : Text) (response : Value)
        → Claimed (publish_known ros json Message publishing host topic msg response h c w)
    unfolding publish_known
    publish_known-Claims publishing host topic response =
        let typed : ClientHandler ros json Message = record h {
          publisher_type = touched topic [] h.publisher_type;
        } in
        let called : ClientHandler ros json Message = record typed {
          publisher_cb = touched topic none h.publisher_cb;
        } in
        let sent : List ℕ → World × Result (Unit {0}) = λ buffer.
          call_publisher ros json Message publishing (at_key topic none h.publisher_cb)
            (publishing.serialized buffer) w in
        attempt-Claims typed c w (message_bytes ros json Message publishing host topic msg h)
          (λ buffer. published ros json Message called c response (sent buffer))
          (record { valid = k.valid; owned = k.owned })
          λ buffer.
            published-Claims called c response (sent buffer)
              (record { valid = k.valid; owned = k.owned })

    pub publish_to_topic-Claims :
        (publishing : Publishing ros json Message) (host : Host)
        → Claimed (publish_to_topic ros json Message publishing host msg before h c w)
    unfolding publish_to_topic
    publish_to_topic-Claims publishing host = if-Claims (not (contains (bytes "topic") msg)) _ _ k (
        attempt-Claims h c w (get_string (at (bytes "topic") msg)) _ k λ topic.
          if_found-Claims (find_key topic h.publishers) _ _
            (λ id _. publish_known-Claims publishing host topic _) (λ _. k))
