-- ===== src/Handler/Publishers.antt =====
-- The operations of src/client_handler.cpp that advertise a topic and publish to it. A function that
-- publishes is the publisher of the connector; `none` is an empty one, and calling it throws.
pub mod Advertised
pub mod Session
use rws.Base.{
  Bool, true, false, not, ◌&&◌, ◌||◌, Option, none, some, List, [], ◌∷◌, ℕ, if◌then◌else◌,
}
use rws.Base.Result.{Result, ok, err, fault, bad_function_call, ◌>>=◌}
use rws.Base.Text.{Text, bytes}
use rws.Base.Keys.{find_key, erase_key, insert_key}
use rws.Cdr.Host.{Host}
use rws.Names.{message_type_to_ros2_style}
use rws.Params.{TopicParams, publisher_params}
use rws.Ros.{Ros}
use rws.Connector.{Connector, advertise_topic, unadvertise}
use rws.Members.{Members}
use rws.Json.{Json}
use rws.Translate.{to_serialized_message}
use rws.Handler.{ClientHandler, Reached, keeping, attempt, if_found, text_at, has_text, has_number}

-- operator[] of a std::map, which puts a default where the key is missing.
abbrev pub touched : {V : Type 0} → Text → V → List (Text × V) → List (Text × V)
touched key default m = elim (find_key key m) [ none ↦ insert_key key default m | some v ↦ m ]

abbrev pub at_key : {V : Type 0} → Text → V → List (Text × V) → V
at_key key default m = elim (find_key key m) [ none ↦ default | some v ↦ v ]

module _ (ros : Ros) (json : Json) (Message : Type 0) where
  open ros use {Duration, World, Publisher, zero_duration}
  open json use {
    Value, contains, at, set, is_boolean, get_string, get_number, get_bool, of_text, of_bool,
  }

  -- What the code asks of the type support, of rclcpp::SerializedMessage and of the publisher class.
  pub record Publishing : Type 0 where
    pub members_of_type : Text → Result Members
    pub serialized : List ℕ → Message
    pub publish : Publisher → Message → World → World × Result (Unit {0})

  abbrev pub refused : Text → Value → Value
  refused reason response =
      set (bytes "error") (of_text reason) (set (bytes "result") (of_bool false) response)

  -- The depth and the latch that a message asks for, or the defaults.
  unfoldable pub advertised_params : Text → Text → Value → TopicParams Duration
  advertised_params topic type msg =
      let history_depth =
        if has_number ros json Message (bytes "history_depth") msg
        then get_number (at (bytes "history_depth") msg)
        else if has_number ros json Message (bytes "queue_size") msg
        then get_number (at (bytes "queue_size") msg)
        else 10 in
      let latch =
        if contains (bytes "latch") msg && is_boolean (at (bytes "latch") msg)
        then get_bool (at (bytes "latch") msg)
        else false in
      publisher_params zero_duration topic type history_depth latch

  -- What is left to do once the connector has answered, with `publisher_cb_[topic]` made before.
  abbrev pub advertised :
      ClientHandler ros json Message
      → Text
      → Text
      → Value
      → Connector ros Message × World × Result (ℕ × Publisher)
      → Reached ros json Message
  advertised h topic type response (c, w, ok (id, p)) = (
    record h {
      publishers = insert_key topic id h.publishers;
      publisher_type = insert_key topic type h.publisher_type;
      publisher_cb = insert_key topic (some p) h.publisher_cb;
    },
    c,
    w,
    ok (set (bytes "result") (of_bool true) response),
  )
  advertised h topic type response (c, w, err e) = (h, c, w, err e)
  advertised h topic type response (c, w, fault) = (h, c, w, fault)

  -- The topic and the type of the message are there.
  unfoldable pub advertise_type :
      Text
      → Text
      → Value
      → Value
      → ClientHandler ros json Message
      → Connector ros Message
      → World
      → Reached ros json Message
  advertise_type topic type msg response h c w =
      if_found ros json Message (find_key topic h.publishers)
        (λ id. keeping ros json Message h c w (ok response))
        (advertised (record h { publisher_cb = touched topic none h.publisher_cb }) topic type
          response (advertise_topic ros Message h.client_id (advertised_params topic type msg) c w))

  unfoldable pub client_advertise_topic :
      Value
      → Value
      → ClientHandler ros json Message
      → Connector ros Message
      → World
      → Reached ros json Message
  client_advertise_topic msg before h c w =
      let response = set (bytes "op") (of_text (bytes "advertise_response")) before in
      let read : Result (Text × Text) = do
        topic ← get_string (at (bytes "topic") msg)
        given ← get_string (at (bytes "type") msg)
        type ← message_type_to_ros2_style given
        ok (topic, type)
      in if not (has_text ros json Message (bytes "type") msg)
        then keeping ros json Message h c w (ok (refused (bytes "No type specified") response))
        else if not (has_text ros json Message (bytes "topic") msg)
        then keeping ros json Message h c w (ok (refused (bytes "No topic specified") response))
        else attempt ros json Message h c w read λ r. advertise_type r.0 r.1 msg response h c w

  unfoldable pub unadvertise_topic :
      Value
      → Value
      → ClientHandler ros json Message
      → Connector ros Message
      → World
      → Reached ros json Message
  unadvertise_topic msg before h c w =
      let response = set (bytes "op") (of_text (bytes "unadvertise_response")) before in
      attempt ros json Message h c w (text_at ros json Message (bytes "topic") msg) λ topic.
        if_found ros json Message (find_key topic h.publishers)
          (λ id.
            keeping ros json Message
              (record h {
                publishers = erase_key topic h.publishers;
                publisher_type = erase_key topic h.publisher_type;
                publisher_cb = erase_key topic h.publisher_cb;
              })
              (unadvertise ros Message id c) w (ok (set (bytes "result") (of_bool true) response)))
          (keeping ros json Message h c w (ok response))

  abbrev pub published :
      ClientHandler ros json Message
      → Connector ros Message
      → Value
      → World × Result (Unit {0})
      → Reached ros json Message
  published h c response (w, ok done) = (h, c, w, ok (set (bytes "result") (of_bool true) response))
  published h c response (w, err e) = (h, c, w, err e)
  published h c response (w, fault) = (h, c, w, fault)

  abbrev pub call_publisher :
      Publishing → Option Publisher → Message → World → World × Result (Unit {0})
  call_publisher publishing none message w = (w, err bad_function_call)
  call_publisher publishing (some p) message w = publishing.publish p message w

  -- The message in the type that the topic was advertised with.
  abbrev pub message_bytes :
      Publishing → Host → Text → Value → ClientHandler ros json Message → Result (List ℕ)
  message_bytes publishing host topic msg h = do
    j ← if contains (bytes "msg") msg then ok (at (bytes "msg") msg) else fault
    members ← publishing.members_of_type (at_key topic [] h.publisher_type)
    to_serialized_message json host members j

  -- The topic has been advertised; the operators [] of the maps come in this order.
  unfoldable pub publish_known :
      Publishing
      → Host
      → Text
      → Value
      → Value
      → ClientHandler ros json Message
      → Connector ros Message
      → World
      → Reached ros json Message
  publish_known publishing host topic msg response h c w =
      let typed = record h { publisher_type = touched topic [] h.publisher_type } in
      let called = record typed { publisher_cb = touched topic none h.publisher_cb } in
      attempt ros json Message typed c w (message_bytes publishing host topic msg h) λ buffer.
        published called c response (
          call_publisher publishing (at_key topic none h.publisher_cb)
            (publishing.serialized buffer) w)

  unfoldable pub publish_to_topic :
      Publishing
      → Host
      → Value
      → Value
      → ClientHandler ros json Message
      → Connector ros Message
      → World
      → Reached ros json Message
  publish_to_topic publishing host msg before h c w =
      let response = set (bytes "op") (of_text (bytes "publish_response")) before in
      if not (contains (bytes "topic") msg)
      then keeping ros json Message h c w (
          ok (
            set (bytes "error") (of_text (bytes "No topic specified"))
              (set (bytes "false") (of_bool true) response)))
      else attempt ros json Message h c w (get_string (at (bytes "topic") msg)) λ topic.
        if_found ros json Message (find_key topic h.publishers)
          (λ id. publish_known publishing host topic msg response h c w)
          (keeping ros json Message h c w
            (ok (refused (bytes "Topic was not advertised") response)))
