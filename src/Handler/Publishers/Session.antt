-- ===== src/Handler/Publishers/Session.antt =====
-- A topic from advertise to unadvertise.
use rws.Base.{◌≡◌, refl, ap, ◌∙◌, true, none, some, ℕ}
use rws.Base.Result.{ok}
use rws.Base.Text.{Text, bytes, text_eq_refl}
use rws.Base.Keys.{find_key, erase_key, insert_key, find_key-insert_key, erase_key-insert_key}
use rws.Names.{message_type_to_ros2_style}
use rws.Ros.{Ros}
use rws.Connector.{Connector, advertise_topic, unadvertise}
use rws.Connector.Handles.{IsValid}
use rws.Connector.Release.{unadvertise-advertise_topic}
use rws.Json.{Json}
use rws.Handler.{ClientHandler, text_at, has_text}
use rws.Handler.Session.{text_at_lem}
use rws.Handler.Publishers.{
  touched, advertised, advertise_type, advertised_params, client_advertise_topic, unadvertise_topic,
}

module _ (ros : Ros) (json : Json) (Message : Type 0) where
  open json use {Value, at, get_string, set, of_text}

  -- An advertise message on a topic that the client has not advertised.
  pub record Offers (msg : Value) (h : ClientHandler ros json Message) (topic type : Text)
      : Type 0 where
    pub has_type : has_text ros json Message (bytes "type") msg ≡ true
    pub has_topic : has_text ros json Message (bytes "topic") msg ≡ true
    pub names : get_string (at (bytes "topic") msg) ≡ ok topic
    pub given : Text
    pub gives : get_string (at (bytes "type") msg) ≡ ok given
    pub styled : message_type_to_ros2_style given ≡ ok type
    pub first_time : find_key topic h.publishers ≡ none

  advertises :
      (msg before : Value) (h : ClientHandler ros json Message) (c : Connector ros Message)
      (w : ros.World) (topic type : Text)
      → Offers msg h topic type
      → client_advertise_topic ros json Message msg before h c w
        ≡ advertised ros json Message
            (record h { publisher_cb = touched topic none h.publisher_cb })
            topic
            type
            (set (bytes "op") (of_text (bytes "advertise_response")) before)
            (advertise_topic ros Message h.client_id
              (advertised_params ros json Message topic type msg)
              c
              w)
  unfolding client_advertise_topic advertise_type
  advertises msg before h c w topic type a =
      rw (a.has_type, a.has_topic, a.names, a.gives, a.styled, client_advertise_topic)
        (rw (a.first_time, advertise_type) refl)

  unadvertises :
      (msg before : Value) (h : ClientHandler ros json Message) (c : Connector ros Message)
      (w : ros.World) (topic : Text) (id : ℕ)
      → text_at ros json Message (bytes "topic") msg ≡ ok topic
      → find_key topic h.publishers ≡ some id
      → ((unadvertise_topic ros json Message msg before h c w).0.publishers
          ≡ erase_key topic h.publishers)
        × ((unadvertise_topic ros json Message msg before h c w).1 ≡ unadvertise ros Message id c)
  unfolding unadvertise_topic
  unadvertises msg before h c w topic id e f = rw (e, f, unadvertise_topic) (refl, refl)

  -- An advertise message with texts for the topic and the type, whose type has a name in the style
  -- of ROS 2, on a topic that the client has not advertised, on a connector with distinct handle
  -- ids below the next one that returns a closure and a publisher, and then the same message as an
  -- unadvertise message: the publishers of the client, and the publishers and subscribers of the
  -- connector are those from before.
  pub unadvertise_topic-client_advertise_topic :
      (msg before later : Value) (h : ClientHandler ros json Message) (c c' : Connector ros Message)
      (w w' : ros.World) (topic type : Text) (id : ℕ) (publisher : ros.Publisher)
      → IsValid ros Message c
      → Offers msg h topic type
      → advertise_topic ros Message h.client_id
          (advertised_params ros json Message topic type msg)
          c
          w
        ≡ (c', w', ok (id, publisher))
      → let (h₁, c₁, w₁, r) = client_advertise_topic ros json Message msg before h c w in
        let (h₂, c₂, w₂, q) = unadvertise_topic ros json Message msg later h₁ c₁ w₁ in
        (h₂.publishers ≡ h.publishers)
        × (c₂.publishers ≡ c.publishers)
        × (c₂.subscribers ≡ c.subscribers)
  unadvertise_topic-client_advertise_topic msg before later h c c' w w' topic type id publisher v a
        e =
      let h₁ : ClientHandler ros json Message = record h {
        publishers = insert_key topic id h.publishers;
        publisher_type = insert_key topic type h.publisher_type;
        publisher_cb = insert_key topic (some publisher) (touched topic none h.publisher_cb);
      } in
      let there : find_key topic h₁.publishers ≡ some id =
        find_key-insert_key topic topic id h.publishers ∙ rw (text_eq_refl topic) refl in
      let ends =
        unadvertises msg later h₁ c' w' topic id
          (text_at_lem ros json Message (bytes "topic") msg a.has_topic ∙ a.names) there in
      let released =
        unadvertise-advertise_topic ros Message h.client_id
          (advertised_params ros json Message topic type msg) c c' w w' id publisher v e in
      rw (advertises msg before h c w topic type a) (
        rw e (
          ends.0 ∙ erase_key-insert_key topic id h.publishers a.first_time,
          ap (λ k. k.publishers) ends.1 ∙ released.0,
          ap (λ k. k.subscribers) ends.1 ∙ released.1,
        ))
