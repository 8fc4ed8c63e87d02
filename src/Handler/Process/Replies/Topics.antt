-- ===== src/Handler/Process/Replies/Topics.antt =====
-- The replies to the operations on topics.
use rws.Base.{Bool, true, false, not, ◌≡◌, refl, Option, none, some, ℕ, if◌then◌else◌}
use rws.Base.Result.{Result, ok, err, fault, OkAnd}
use rws.Base.Text.{Text, bytes, text_eq}
use rws.Cdr.Host.{Host}
use rws.Ros.{Ros}
use rws.Base.Keys.{find_key}
use rws.Connector.{Connector}
use rws.Json.{Json, JsonLaws}
use rws.Handler.{
  Node, ClientHandler, Reached, attempt, if_found, has_text, text_at, subscribed,
  subscription_params, subscribe_known, client_subscribe_to_topic, unsubscribe_from_topic,
}
use rws.Handler.Publishers.{
  Publishing, refused, message_bytes, advertised, advertise_type, client_advertise_topic,
  unadvertise_topic, published, publish_known, publish_to_topic,
}
use rws.Handler.Process.Replies.{IsReply, set-IsReply}

module _ (ros : Ros) (json : Json) (Message : Type 0) (host : Host) (laws : JsonLaws json host)
    (id : json.Value) where
  open ros use {World, Publisher}
  open json use {Value, get_string, at, contains, of_text, of_bool, set}

  -- A reply, if there is one, keeps the id.
  unfoldable pub Answers : Result Value → Type 0
  Answers r = OkAnd (IsReply json host laws id) r

  if-Answers :
      (b : Bool) (x y : Reached ros json Message)
      → Answers x.3
      → Answers y.3
      → Answers (if b then x else y).3
  if-Answers true x y p q = p
  if-Answers false x y p q = q

  attempt-Answers :
      {A : Type 0} (h : ClientHandler ros json Message) (c : Connector ros Message) (w : World)
      (r : Result A) (next : A → Reached ros json Message)
      → ((a : A) → Answers (next a).3)
      → Answers (attempt ros json Message h c w r next).3
  unfolding Answers
  attempt-Answers h c w (ok a) next p = p a
  attempt-Answers h c w (err e) next p = tt
  attempt-Answers h c w fault next p = tt

  if_found-Answers :
      {V : Type 0} (o : Option V) (next : V → Reached ros json Message)
      (missing : Reached ros json Message)
      → ((v : V) → Answers (next v).3)
      → Answers missing.3
      → Answers (if_found ros json Message o next missing).3
  if_found-Answers none next missing p q = q
  if_found-Answers (some v) next missing p q = p v

  subscribed-Answers :
      (h : ClientHandler ros json Message) (topic sub_type : Text) (response : Value)
      (r : Connector ros Message × World × Result ℕ)
      → IsReply json host laws id response
      → Answers (subscribed ros json Message h topic sub_type response r).3
  unfolding text_eq Answers
  subscribed-Answers h topic sub_type response (c, w, ok i) p =
      set-IsReply json host laws id (bytes "result") _ _ refl
        (set-IsReply json host laws id (bytes "type") _ _ refl p)
  subscribed-Answers h topic sub_type response (c, w, err e) p = tt
  subscribed-Answers h topic sub_type response (c, w, fault) p = tt

  advertised-Answers :
      (h : ClientHandler ros json Message) (topic type : Text) (response : Value)
      (r : Connector ros Message × World × Result (ℕ × Publisher))
      → IsReply json host laws id response
      → Answers (advertised ros json Message h topic type response r).3
  unfolding text_eq Answers
  advertised-Answers h topic type response (c, w, ok (i, pub_)) p =
      set-IsReply json host laws id (bytes "result") _ _ refl p
  advertised-Answers h topic type response (c, w, err e) p = tt
  advertised-Answers h topic type response (c, w, fault) p = tt

  published-Answers :
      (h : ClientHandler ros json Message) (c : Connector ros Message) (response : Value)
      (r : World × Result (Unit {0}))
      → IsReply json host laws id response
      → Answers (published ros json Message h c response r).3
  unfolding text_eq Answers
  published-Answers h c response (w, ok done) p =
      set-IsReply json host laws id (bytes "result") _ _ refl p
  published-Answers h c response (w, err e) p = tt
  published-Answers h c response (w, fault) p = tt

  module _ (msg before : Value) (h : ClientHandler ros json Message) (c : Connector ros Message)
      (w : World) (p : IsReply json host laws id before) where
    with_key :
        (k : Text) {v response : Value}
        → text_eq (bytes "id") k ≡ false
        → IsReply json host laws id response
        → IsReply json host laws id (set k v response)
    with_key k {v} {response} = set-IsReply json host laws id k v response

    ok-Answers : {response : Value} → IsReply json host laws id response → Answers (ok response)
    unfolding Answers
    ok-Answers p = p

    pub client_subscribe_to_topic-Answers :
        (node : Node ros json Message)
        → Answers (client_subscribe_to_topic ros json Message node msg before h c w).3
    unfolding text_eq client_subscribe_to_topic subscribe_known
    client_subscribe_to_topic-Answers node =
        let op = with_key (bytes "op") {v = of_text (bytes "subscribe_response")} refl p in
        if-Answers (has_text ros json Message (bytes "topic") msg) _ _
          (attempt-Answers h c w _ _ λ topic.
            if_found-Answers (find_key topic (node.topic_names_and_types w)) _ _
              (λ types. attempt-Answers h c w _ _ λ sub_type.
                attempt-Answers h c w (subscription_params ros json Message node topic sub_type msg)
                  _
                  λ params.
                    if_found-Answers (find_key topic h.subscriptions) _ _ (λ i. ok-Answers op)
                      (subscribed-Answers h topic sub_type _ _ op))
              (ok-Answers (with_key (bytes "result") refl (with_key (bytes "error") refl op))))
          (ok-Answers (with_key (bytes "error") refl (with_key (bytes "result") refl op)))

    pub unsubscribe_from_topic-Answers :
        Answers (unsubscribe_from_topic ros json Message msg before h c w).3
    unfolding text_eq unsubscribe_from_topic
    unsubscribe_from_topic-Answers =
        let op = with_key (bytes "op") {v = of_text (bytes "unsubscribe_response")} refl p in
        attempt-Answers h c w (text_at ros json Message (bytes "topic") msg) _ λ topic.
          if_found-Answers (find_key topic h.subscriptions) _ _
            (λ i. ok-Answers (with_key (bytes "result") refl op)) (ok-Answers op)

    refused-Answers :
        (reason : Text) {response : Value}
        → IsReply json host laws id response
        → Answers (ok (refused ros json Message reason response))
    unfolding text_eq
    refused-Answers reason q =
        ok-Answers (with_key (bytes "error") refl (with_key (bytes "result") refl q))

    pub client_advertise_topic-Answers :
        Answers (client_advertise_topic ros json Message msg before h c w).3
    unfolding text_eq client_advertise_topic advertise_type
    client_advertise_topic-Answers =
        let op = with_key (bytes "op") {v = of_text (bytes "advertise_response")} refl p in
        if-Answers (not (has_text ros json Message (bytes "type") msg)) _ _
          (refused-Answers (bytes "No type specified") op)
          (if-Answers (not (has_text ros json Message (bytes "topic") msg)) _ _
            (refused-Answers (bytes "No topic specified") op)
            (attempt-Answers h c w _ _ λ r.
              if_found-Answers (find_key r.0 h.publishers) _ _ (λ i. ok-Answers op)
                (advertised-Answers _ r.0 r.1 _ _ op)))

    pub unadvertise_topic-Answers : Answers (unadvertise_topic ros json Message msg before h c w).3
    unfolding text_eq unadvertise_topic
    unadvertise_topic-Answers =
        let op = with_key (bytes "op") {v = of_text (bytes "unadvertise_response")} refl p in
        attempt-Answers h c w (text_at ros json Message (bytes "topic") msg) _ λ topic.
          if_found-Answers (find_key topic h.publishers) _ _
            (λ i. ok-Answers (with_key (bytes "result") refl op)) (ok-Answers op)

    pub publish_to_topic-Answers :
        (publishing : Publishing ros json Message) (on : Host)
        → Answers (publish_to_topic ros json Message publishing on msg before h c w).3
    unfolding text_eq publish_to_topic publish_known
    publish_to_topic-Answers publishing on =
        let op = with_key (bytes "op") {v = of_text (bytes "publish_response")} refl p in
        if-Answers (not (contains (bytes "topic") msg)) _ _
          (ok-Answers (with_key (bytes "error") refl (with_key (bytes "false") refl op)))
          (attempt-Answers h c w (get_string (at (bytes "topic") msg)) _ λ topic.
            if_found-Answers (find_key topic h.publishers) _ _
              (λ i.
                attempt-Answers _ c w (message_bytes ros json Message publishing on topic msg h) _
                  λ buffer. published-Answers _ c _ _ op)
              (refused-Answers (bytes "Topic was not advertised") op))
