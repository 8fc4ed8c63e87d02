-- ===== src/Handler.antt =====
-- The topic operations of src/client_handler.cpp. A closure of the connector is the handle id that
-- it takes away. operator[] of a constant JSON value without the key is undefined, a `fault`.
mod Tests
pub mod Publishers
pub mod Subscription
pub mod Rosapi
pub mod Session
pub mod Destructor
pub mod Owners
pub mod External
pub mod Process
use rws.Base.{
  ℕ, ◌%◌, ◌^◌, ◌*◌, Bool, true, false, not, ◌&&◌, ◌||◌, Option, none, some, List, [], ◌∷◌, ◌++◌,
  if◌then◌else◌,
}
use rws.Base.Result.{Result, ok, err, fault, ◌>>=◌}
use rws.Base.Text.{Text, bytes, text_eq}
use rws.Base.Keys.{find_key, erase_key}
use rws.Params.{TopicParams, subscriber_params}
use rws.Ros.{Ros}
use rws.Json.{Json}
use rws.Connector.{Connector, Callback, subscribe_to_topic, unsubscribe, unadvertise}

module _ (ros : Ros) (json : Json) (Message : Type 0) where
  open ros use {Duration, World, Publisher}
  open json use {
    Value, contains, at, set, is_string, is_number, get_string, get_number, of_text, of_bool,
  }

  -- What the code asks of the node, and the bound subscription_callback; `duration` is
  -- Duration(0, nanoseconds), whose nanoseconds are a uint32_t.
  pub record Node : Type 0 where
    pub topic_names_and_types : World → List (Text × List Text)
    pub duration : ℕ → Duration
    pub subscription_callback : Callback ros Message

  pub record ClientHandler : Type 0 where
    pub client_id : ℕ
    pub subscriptions : List (Text × ℕ)
    pub publishers : List (Text × ℕ)
    pub publisher_type : List (Text × Text)
    pub publisher_cb : List (Text × Option Publisher)

  pub client_handler : ℕ → ClientHandler
  client_handler id = record {
    client_id = id;
    subscriptions = [];
    publishers = [];
    publisher_type = [];
    publisher_cb = [];
  }

  abbrev pub Reached : Type 0
  Reached = ClientHandler × Connector ros Message × World × Result Value

  -- `std::string x = msg[key]`
  abbrev pub text_at : Text → Value → Result Text
  text_at key msg = if contains key msg then get_string (at key msg) else fault

  abbrev pub has_text : Text → Value → Bool
  has_text key msg = contains key msg && is_string (at key msg)

  abbrev pub has_number : Text → Value → Bool
  has_number key msg = contains key msg && is_number (at key msg)

  -- The depth, the compression and the throttle rate that a message asks for, or the defaults.
  unfoldable pub subscription_params : Node → Text → Text → Value → Result (TopicParams Duration)
  subscription_params node topic sub_type msg = do
    let history_depth =
        if has_number (bytes "history_depth") msg
        then get_number (at (bytes "history_depth") msg)
        else if has_number (bytes "queue_size") msg
        then get_number (at (bytes "queue_size") msg)
        else 10
    let throttle_rate_ms =
        if has_number (bytes "throttle_rate") msg
        then get_number (at (bytes "throttle_rate") msg)
        else 0
    compression ←
        if has_text (bytes "compression") msg
        then get_string (at (bytes "compression") msg)
        else ok (bytes "none")
    ok (
        subscriber_params topic sub_type history_depth compression
          (node.duration (throttle_rate_ms * 1000000 % 2 ^ 32)))

  -- `topics[topic][0]`
  abbrev pub first_type : List Text → Result Text
  first_type [] = fault
  first_type (t ∷ ts) = ok t

  -- What is left to do once the connector has answered.
  abbrev pub subscribed :
      ClientHandler → Text → Text → Value → Connector ros Message × World × Result ℕ → Reached
  subscribed h topic sub_type response (c, w, ok id) = (
    record h { subscriptions = (topic, id) ∷ h.subscriptions },
    c,
    w,
    ok (set (bytes "result") (of_bool true) (set (bytes "type") (of_text sub_type) response)),
  )
  subscribed h topic sub_type response (c, w, err e) = (h, c, w, err e)
  subscribed h topic sub_type response (c, w, fault) = (h, c, w, fault)

  abbrev pub keeping : ClientHandler → Connector ros Message → World → Result Value → Reached
  keeping h c w r = (h, c, w, r)

  -- An exception leaves the state of the call.
  abbrev pub attempt :
      {A : Type 0}
      → ClientHandler
      → Connector ros Message
      → World
      → Result A
      → (A → Reached)
      → Reached
  attempt h c w (ok a) next = next a
  attempt h c w (err e) next = keeping h c w (err e)
  attempt h c w fault next = keeping h c w fault

  abbrev pub if_found : {V : Type 0} → Option V → (V → Reached) → Reached → Reached
  if_found none next missing = missing
  if_found (some v) next missing = next v

  -- The topic is known, and has these types.
  unfoldable pub subscribe_known :
      Node
      → Text
      → List Text
      → Value
      → Value
      → ClientHandler
      → Connector ros Message
      → World
      → Reached
  subscribe_known node topic types msg response h c w = attempt h c w (first_type types) λ sub_type.
      attempt h c w (subscription_params node topic sub_type msg) λ params.
        if_found (find_key topic h.subscriptions) (λ id. keeping h c w (ok response))
          (subscribed h topic sub_type response
            (subscribe_to_topic ros Message h.client_id params node.subscription_callback c w))

  -- ClientHandler::subscribe_to_topic; it returns true, and the response.
  unfoldable pub client_subscribe_to_topic :
      Node → Value → Value → ClientHandler → Connector ros Message → World → Reached
  client_subscribe_to_topic node msg before h c w =
      let response = set (bytes "op") (of_text (bytes "subscribe_response")) before in
      if has_text (bytes "topic") msg
      then attempt h c w (get_string (at (bytes "topic") msg)) (λ topic.
        if_found (find_key topic (node.topic_names_and_types w))
          (λ types. subscribe_known node topic types msg response h c w)
          (keeping h c w (
            ok (
              set (bytes "result") (of_bool false) (
                set (bytes "error") (of_text (bytes "Topic " ++ (topic ++ bytes " not found")))
                  response)))))
      else keeping h c w (
          ok (
            set (bytes "error") (of_text (bytes "No topic specified"))
              (set (bytes "result") (of_bool false) response)))

  unfoldable pub unsubscribe_from_topic :
      Value → Value → ClientHandler → Connector ros Message → World → Reached
  unsubscribe_from_topic msg before h c w =
      let response = set (bytes "op") (of_text (bytes "unsubscribe_response")) before in
      attempt h c w (text_at (bytes "topic") msg) λ topic.
        if_found (find_key topic h.subscriptions)
          (λ id.
            keeping (record h { subscriptions = erase_key topic h.subscriptions })
              (unsubscribe ros Message id c) w (ok (set (bytes "result") (of_bool true) response)))
          (keeping h c w (ok response))

  -- The loops of the destructor: every closure is called.
  unfoldable pub call_all :
      (ℕ → Connector ros Message → Connector ros Message)
      → List (Text × ℕ)
      → Connector ros Message
      → Connector ros Message
  call_all f [] c = c
  call_all f ((topic, id) ∷ m) c = call_all f m (f id c)

  unfoldable pub destroy_handler : ClientHandler → Connector ros Message → Connector ros Message
  destroy_handler h c =
      call_all (unadvertise ros Message) h.publishers
        (call_all (unsubscribe ros Message) h.subscriptions c)
