-- ===== src/Handler/Session.antt =====
-- A subscription of a client from subscribe to unsubscribe, and what the destructor releases.
use rws.Base.{ℕ, ◌≡◌, refl, ap, ◌∙◌, true, none, some, List, ◌∷◌, arith}
use rws.Base.Result.{ok}
use rws.Base.Text.{Text, bytes, text_eq_refl}
use rws.Params.{TopicParams}
use rws.Ros.{Ros}
use rws.Connector.{Connector, subscribe_to_topic, unsubscribe}
use rws.Connector.Handles.{IsValid}
use rws.Connector.Release.{unsubscribe-subscribe_to_topic}
use rws.Json.{Json}
use rws.Base.Keys.{find_key, find_key_first, erase_key, erase_key_gone}
use rws.Handler.{
  Node, ClientHandler, has_text, text_at, subscription_params, subscribe_known, subscribed,
  client_subscribe_to_topic, unsubscribe_from_topic,
}

erase_key_first :
    {V : Type 0} (k : Text) (v : V) (m : List (Text × V))
    → find_key k m ≡ none
    → erase_key k ((k, v) ∷ m) ≡ m
unfolding erase_key
erase_key_first k v m e = rw (text_eq_refl k) (erase_key_gone k m e)

module _ (ros : Ros) (json : Json) (Message : Type 0) where
  open ros use {Duration, World}
  open json use {Value, contains, at, get_string}

  -- A subscribe message on a topic that the node knows and the client has not subscribed.
  pub record Asks (node : Node ros json Message) (msg : Value) (h : ClientHandler ros json Message)
      (w : World) (topic sub_type : Text) (params : TopicParams Duration) : Type 0 where
    pub names : has_text ros json Message (bytes "topic") msg ≡ true
    pub reads : get_string (at (bytes "topic") msg) ≡ ok topic
    pub others : List Text
    pub known : find_key topic (node.topic_names_and_types w) ≡ some (sub_type ∷ others)
    pub asked : subscription_params ros json Message node topic sub_type msg ≡ ok params
    pub first_time : find_key topic h.subscriptions ≡ none

  subscribes :
      (node : Node ros json Message) (msg before : Value) (h : ClientHandler ros json Message)
      (c : Connector ros Message) (w : World) (topic sub_type : Text)
      (params : TopicParams Duration)
      → Asks node msg h w topic sub_type params
      → client_subscribe_to_topic ros json Message node msg before h c w
        ≡ subscribed ros json Message h topic sub_type
            (json.set (bytes "op") (json.of_text (bytes "subscribe_response")) before)
            (subscribe_to_topic ros Message h.client_id params node.subscription_callback c w)
  unfolding client_subscribe_to_topic subscribe_known
  subscribes node msg before h c w topic sub_type params a =
      rw (a.names, a.reads, a.known, client_subscribe_to_topic)
        (rw (a.asked, a.first_time, subscribe_known) refl)

  pub text_at_lem :
      (key : Text) (msg : Value)
      → has_text ros json Message key msg ≡ true
      → text_at ros json Message key msg ≡ get_string (at key msg)
  text_at_lem key msg e = ground arith

  unsubscribes :
      (msg before : Value) (h : ClientHandler ros json Message) (c : Connector ros Message)
      (w : World) (topic : Text) (id : ℕ)
      → text_at ros json Message (bytes "topic") msg ≡ ok topic
      → find_key topic h.subscriptions ≡ some id
      → ((unsubscribe_from_topic ros json Message msg before h c w).0.subscriptions
          ≡ erase_key topic h.subscriptions)
        × ((unsubscribe_from_topic ros json Message msg before h c w).1
            ≡ unsubscribe ros Message id c)
  unfolding unsubscribe_from_topic
  unsubscribes msg before h c w topic id e f = rw (e, f, unsubscribe_from_topic) (refl, refl)

  -- A subscribe message on a topic that the node knows and the client has not subscribed, on a
  -- connector with distinct handle ids below the next one that returns a closure, and then an
  -- unsubscribe message that names the topic in the same way: the subscriptions of the client, the
  -- subscribers and the publishers are those from before.
  pub unsubscribe_from_topic-client_subscribe_to_topic :
      (node : Node ros json Message) (msg before later : Value) (h : ClientHandler ros json Message)
      (c c' : Connector ros Message) (w w' : World) (topic sub_type : Text)
      (params : TopicParams Duration) (id : ℕ)
      → IsValid ros Message c
      → Asks node msg h w topic sub_type params
      → subscribe_to_topic ros Message h.client_id params node.subscription_callback c w
        ≡ (c', w', ok id)
      → let (h₁, c₁, w₁, r) = client_subscribe_to_topic ros json Message node msg before h c w in
        let (h₂, c₂, w₂, q) = unsubscribe_from_topic ros json Message msg later h₁ c₁ w₁ in
        (h₂.subscriptions ≡ h.subscriptions)
        × (c₂.subscribers ≡ c.subscribers)
        × (c₂.publishers ≡ c.publishers)
  unsubscribe_from_topic-client_subscribe_to_topic node msg before later h c c' w w' topic sub_type
        params id v a e =
      let h₁ : ClientHandler ros json Message = record h {
        subscriptions = (topic, id) ∷ h.subscriptions;
      } in
      let ends =
        unsubscribes msg later h₁ c' w' topic id (text_at_lem (bytes "topic") msg a.names ∙ a.reads)
          (find_key_first topic id h.subscriptions) in
      let released =
        unsubscribe-subscribe_to_topic ros Message h.client_id params node.subscription_callback c
          c' w w' id v e in
      rw (subscribes node msg before h c w topic sub_type params a) (
        rw e (
          ends.0 ∙ erase_key_first topic id h.subscriptions a.first_time,
          ap (λ k. k.subscribers) ends.1 ∙ released.0,
          ap (λ k. k.publishers) ends.1 ∙ released.1,
        ))
