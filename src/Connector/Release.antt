-- ===== src/Connector/Release.antt =====
-- The closures that subscribe_to_topic and advertise_topic return.
use rws.Base.{ℕ, ◌≡◌, ◌≢◌, refl, ap, ◌∙◌, List, [], ◌∷◌, ◌++◌, All, arith}
use mathlib.Core.Path.{subst}
use rws.Base.Result.{Result, ok, err, fault}
use rws.Params.{TopicParams}
use rws.Ros.{Ros}
use rws.Connector.{
  Callback, SubscriberHandle, PublisherHandle, Connector, next_id, subscribe_to_topic,
  erase_subscriber, unsubscribe, advertise_topic, erase_publisher, unadvertise, push_subscriber,
  new_subscriber, push_publisher, new_publisher,
}
use rws.Connector.Handles.{Fresh, IsValid, sub_ids, pub_ids}

module _ (ros : Ros) (Message : Type 0) where
  open ros use {Duration, World}

  ne_middle :
      (i : ℕ) (front : List (SubscriberHandle ros Message)) (h : SubscriberHandle ros Message)
      (back : List (SubscriberHandle ros Message))
      → All (λ j. i ≢ j) (sub_ids ros Message (front ++ h ∷ back))
      → i ≢ h.handle_id
  ne_middle i [] h back a = a.0
  ne_middle i (g ∷ front) h back a = ne_middle i front h back a.1

  erase_subscriber-split :
      (n : ℕ) (front : List (SubscriberHandle ros Message)) (h : SubscriberHandle ros Message)
      (back : List (SubscriberHandle ros Message))
      → Fresh n (sub_ids ros Message (front ++ h ∷ back))
      → erase_subscriber ros Message h.handle_id (front ++ h ∷ back) ≡ front ++ back
  unfolding erase_subscriber
  erase_subscriber-split n [] h back f = ground arith
  erase_subscriber-split n (g ∷ front) h back f =
      ground
        (arith, ne_middle g.handle_id front h back f.1, erase_subscriber-split n front h back f.2)

  -- The handle of a fresh id, taken away again.
  erase_subscriber-last :
      (n : ℕ) (subs : List (SubscriberHandle ros Message)) (h : SubscriberHandle ros Message)
      → h.handle_id ≡ n
      → Fresh n (sub_ids ros Message subs)
      → erase_subscriber ros Message n (subs ++ h ∷ []) ≡ subs
  unfolding erase_subscriber
  erase_subscriber-last n [] h e f = ground arith
  erase_subscriber-last n (s ∷ subs) h e f = ground (arith, erase_subscriber-last n subs h e f.2)

  erase_publisher-last :
      (n : ℕ) (ps : List (PublisherHandle ros Message)) (h : PublisherHandle ros Message)
      → h.handle_id ≡ n
      → Fresh n (pub_ids ros Message ps)
      → erase_publisher ros Message n (ps ++ h ∷ []) ≡ ps
  unfolding erase_publisher
  erase_publisher-last n [] h e f = ground arith
  erase_publisher-last n (p ∷ ps) h e f = ground (arith, erase_publisher-last n ps h e f.2)

  -- In a connector with distinct handle ids below the next one, the closure of a subscription takes
  -- its own handle away, wherever it stands, and leaves all other handles in their order, the
  -- publishers and the next id.
  pub unsubscribe_one :
      (c : Connector ros Message) (front : List (SubscriberHandle ros Message))
      (h : SubscriberHandle ros Message) (back : List (SubscriberHandle ros Message))
      → IsValid ros Message c
      → c.subscribers ≡ front ++ h ∷ back
      → unsubscribe ros Message h.handle_id c ≡ record c { subscribers = front ++ back }
  unfolding unsubscribe
  unsubscribe_one c front h back v e =
      ap (λ subs. record c { subscribers = subs })
        (ap (erase_subscriber ros Message h.handle_id) e
          ∙ erase_subscriber-split c.next_handler_id front h back (
              subst (λ subs. Fresh c.next_handler_id (sub_ids ros Message subs)) e
                v.subscribers_fresh))

  -- After a call of subscribe_to_topic that returns a closure, on a connector with distinct handle
  -- ids below the next one, running the closure gives the subscribers and publishers from before
  -- the call.
  pub unsubscribe-subscribe_to_topic :
      (client_id : ℕ) (params : TopicParams Duration) (handler : Callback ros Message)
      (c c' : Connector ros Message) (w w' : World) (id : ℕ)
      → IsValid ros Message c
      → subscribe_to_topic ros Message client_id params handler c w ≡ (c', w', ok id)
      → ((unsubscribe ros Message id c').subscribers ≡ c.subscribers)
        × ((unsubscribe ros Message id c').publishers ≡ c.publishers)
  unfolding unsubscribe subscribe_to_topic
  unsubscribe-subscribe_to_topic client_id params handler c c' w w' id v e = pushed _ e
    where
      pushed :
          (r : World × Result ros.Subscription)
          → push_subscriber ros Message
              (new_subscriber ros Message client_id params handler c.next_handler_id)
              (record c { next_handler_id = next_id ros Message c.next_handler_id })
              r
            ≡ (c', w', ok id)
          → (erase_subscriber ros Message id c'.subscribers ≡ c.subscribers)
            × (c'.publishers ≡ c.publishers)
      pushed (u, ok s) p =
          let h = new_subscriber ros Message client_id params handler c.next_handler_id s in
          ground (
            arith,
            p,
            erase_subscriber-last c.next_handler_id c.subscribers h refl v.subscribers_fresh,
          )
      pushed (u, err x) p = absurd (ground (arith, p))
      pushed (u, fault) p = absurd (ground (arith, p))

  -- After a call of advertise_topic that returns a closure, on a connector with distinct handle ids
  -- below the next one, running the closure gives the publishers and subscribers from before the
  -- call.
  pub unadvertise-advertise_topic :
      (client_id : ℕ) (params : TopicParams Duration) (c c' : Connector ros Message) (w w' : World)
      (id : ℕ) (publisher : ros.Publisher)
      → IsValid ros Message c
      → advertise_topic ros Message client_id params c w ≡ (c', w', ok (id, publisher))
      → ((unadvertise ros Message id c').publishers ≡ c.publishers)
        × ((unadvertise ros Message id c').subscribers ≡ c.subscribers)
  unfolding unadvertise advertise_topic
  unadvertise-advertise_topic client_id params c c' w w' id publisher v e = pushed _ e
    where
      pushed :
          (r : World × Result ros.Publisher)
          → push_publisher ros Message
              (new_publisher ros Message client_id params c.next_handler_id)
              (record c { next_handler_id = next_id ros Message c.next_handler_id })
              r
            ≡ (c', w', ok (id, publisher))
          → (erase_publisher ros Message id c'.publishers ≡ c.publishers)
            × (c'.subscribers ≡ c.subscribers)
      pushed (u, ok q) p =
          let h = new_publisher ros Message client_id params c.next_handler_id q in
          ground (
            arith,
            p,
            erase_publisher-last c.next_handler_id c.publishers h refl v.publishers_fresh,
          )
      pushed (u, err x) p = absurd (ground (arith, p))
      pushed (u, fault) p = absurd (ground (arith, p))
