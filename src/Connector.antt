-- ===== src/Connector.antt =====
-- include/rws/connector.hpp: the subscriptions and publishers that the clients share. The closures
-- that unsubscribe and unadvertise are the handle ids that they have captured. Calls are taken one
-- after the other; the mutexes are left out.
mod Tests
pub mod Handles
pub mod Release
pub mod Dispatch
pub mod Sharing
use rws.Base.{
  ℕ, ◌+◌, ◌%◌, ◌^◌, Bool, true, false, ◌&&◌, ◌||◌, Option, none, some, List, [], ◌∷◌, ◌++◌, ◌==◌,
  if◌then◌else◌,
}
use rws.Base.Result.{Result, ok, err, fault}
use rws.Params.{TopicParams, params_eq}
use rws.Ros.{Ros, Qos, Durability, volatile, transient_local}

abbrev pub is_transient : Durability → Bool
is_transient transient_local = true
is_transient volatile = false

module _ (ros : Ros) (Message : Type 0) where
  open ros use {
    Duration, Time, World, Subscription, Publisher, nanoseconds, same_duration, after, earlier,
    epoch, now, create_generic_subscription, create_generic_publisher, publisher_durabilities,
  }

  abbrev pub Callback : Type 0
  Callback = TopicParams Duration → Message → World → World × Result (Unit {0})

  pub record SubscriberHandle : Type 0 where
    pub subscription : Subscription
    pub params : TopicParams Duration
    pub callback : Callback
    pub client_id : ℕ
    pub handle_id : ℕ
    pub last_sent : Time

  pub record PublisherHandle : Type 0 where
    pub publisher : Publisher
    pub params : TopicParams Duration
    pub client_id : ℕ
    pub handle_id : ℕ

  pub record Connector : Type 0 where
    pub subscribers : List SubscriberHandle
    pub publishers : List PublisherHandle
    pub next_handler_id : ℕ

  unfoldable pub connector : Connector
  connector = record { subscribers = []; publishers = []; next_handler_id = 0 }

  -- The first handle with equal parameters; `none` is nullptr.
  unfoldable pub get_subscriber_by_params :
      List SubscriberHandle → TopicParams Duration → Option SubscriberHandle
  get_subscriber_by_params [] params = none
  get_subscriber_by_params (sub ∷ subs) params =
      if params_eq same_duration sub.params params
      then some sub
      else get_subscriber_by_params subs params

  unfoldable pub get_publisher_by_params :
      List PublisherHandle → TopicParams Duration → Option PublisherHandle
  get_publisher_by_params [] params = none
  get_publisher_by_params (p ∷ ps) params =
      if params_eq same_duration p.params params then some p else get_publisher_by_params ps params

  unfoldable pub is_subscribed_to_topic : Connector → TopicParams Duration → Bool
  is_subscribed_to_topic c params = elim (get_subscriber_by_params c.subscribers params) [
    | none ↦ false
    | some sub ↦ true
  ]

  unfoldable pub is_advertising_topic : Connector → TopicParams Duration → Bool
  is_advertising_topic c params = elim (get_publisher_by_params c.publishers params) [
    | none ↦ false
    | some p ↦ true
  ]

  -- The durability after the loop over the publishers' policies: that of the last one.
  unfoldable pub last_durability : Durability → List Durability → Durability
  last_durability d [] = d
  last_durability d (e ∷ es) = last_durability e es

  abbrev pub subscriber_qos : World → TopicParams Duration → Qos
  subscriber_qos w params = record {
    depth = params.history_depth;
    durability = last_durability volatile (publisher_durabilities params.topic w);
  }

  -- size_t and uint16_t wrap.
  abbrev pub next_id : ℕ → ℕ
  next_id n = (n + 1) % 2 ^ 64

  abbrev pub to_client_id : ℕ → ℕ
  to_client_id n = n % 2 ^ 16

  -- The subscription of a new handle: shared with a handle of equal parameters, unless the topic is
  -- transient local.
  unfoldable pub obtain_subscription :
      Option SubscriberHandle → TopicParams Duration → Qos → World → World × Result Subscription
  obtain_subscription matching params qos w =
      let created = create_generic_subscription params.topic params.type qos params w in
      elim matching [
        | none ↦ created
        | some sub ↦ if is_transient qos.durability then created else (w, ok sub.subscription)
      ]

  -- What is left to do once the node has answered: `taken` has given the id away already.
  abbrev pub push_subscriber :
      (Subscription → SubscriberHandle)
      → Connector
      → World × Result Subscription
      → Connector × World × Result ℕ
  push_subscriber handle taken (w, ok s) = (
    record taken { subscribers = taken.subscribers ++ handle s ∷ [] },
    w,
    ok (handle s).handle_id,
  )
  push_subscriber handle taken (w, err e) = (taken, w, err e)
  push_subscriber handle taken (w, fault) = (taken, w, fault)

  abbrev pub new_subscriber :
      ℕ → TopicParams Duration → Callback → ℕ → Subscription → SubscriberHandle
  new_subscriber client_id params handler id s = record {
    subscription = s;
    params = params;
    callback = handler;
    client_id = to_client_id client_id;
    handle_id = id;
    last_sent = epoch;
  }

  -- The result is the handle id that the returned closure unsubscribes.
  unfoldable pub subscribe_to_topic :
      ℕ → TopicParams Duration → Callback → Connector → World → Connector × World × Result ℕ
  subscribe_to_topic client_id params handler c w =
      push_subscriber (new_subscriber client_id params handler c.next_handler_id)
        (record c { next_handler_id = next_id c.next_handler_id })
        (obtain_subscription (get_subscriber_by_params c.subscribers params) params
          (subscriber_qos w params) w)

  unfoldable pub erase_subscriber : ℕ → List SubscriberHandle → List SubscriberHandle
  erase_subscriber id [] = []
  erase_subscriber id (sub ∷ subs) =
      if sub.handle_id == id then subs else sub ∷ erase_subscriber id subs

  -- The closure that subscribe_to_topic returns.
  unfoldable pub unsubscribe : ℕ → Connector → Connector
  unsubscribe id c = record c { subscribers = erase_subscriber id c.subscribers }

  abbrev pub publisher_qos : TopicParams Duration → Qos
  publisher_qos params = record {
    depth = params.history_depth;
    durability = if params.latch then transient_local else volatile;
  }

  unfoldable pub obtain_publisher :
      Option PublisherHandle → TopicParams Duration → World → World × Result Publisher
  obtain_publisher matching params w = elim matching [
    | none ↦ create_generic_publisher params.topic params.type (publisher_qos params) w
    | some p ↦ (w, ok p.publisher)
  ]

  abbrev pub push_publisher :
      (Publisher → PublisherHandle)
      → Connector
      → World × Result Publisher
      → Connector × World × Result (ℕ × Publisher)
  push_publisher handle taken (w, ok p) = (
    record taken { publishers = taken.publishers ++ handle p ∷ [] },
    w,
    ok ((handle p).handle_id, p),
  )
  push_publisher handle taken (w, err e) = (taken, w, err e)
  push_publisher handle taken (w, fault) = (taken, w, fault)

  abbrev pub new_publisher : ℕ → TopicParams Duration → ℕ → Publisher → PublisherHandle
  new_publisher client_id params id p = record {
    publisher = p;
    params = params;
    client_id = to_client_id client_id;
    handle_id = id;
  }

  -- The result is the handle id of the returned closure and the publisher that `cb_in` publishes to.
  unfoldable pub advertise_topic :
      ℕ → TopicParams Duration → Connector → World → Connector × World × Result (ℕ × Publisher)
  advertise_topic client_id params c w =
      push_publisher (new_publisher client_id params c.next_handler_id)
        (record c { next_handler_id = next_id c.next_handler_id })
        (obtain_publisher (get_publisher_by_params c.publishers params) params w)

  unfoldable pub erase_publisher : ℕ → List PublisherHandle → List PublisherHandle
  erase_publisher id [] = []
  erase_publisher id (p ∷ ps) = if p.handle_id == id then ps else p ∷ erase_publisher id ps

  -- The closure that advertise_topic returns.
  unfoldable pub unadvertise : ℕ → Connector → Connector
  unadvertise id c = record c { publishers = erase_publisher id c.publishers }

  -- `sub.params == params`, and the throttle lets a message through; the clock is read only if there
  -- is a throttle.
  unfoldable pub due : SubscriberHandle → TopicParams Duration → World → Bool × World
  due sub params w =
      if params_eq same_duration sub.params params
      then (if nanoseconds params.throttle_rate == 0
          then (true, w)
          else let (t, w') = now w in (earlier (after sub.last_sent params.throttle_rate) t, w'))
      else (false, w)

  abbrev pub kept :
      SubscriberHandle
      → List SubscriberHandle × World × Result (Unit {0})
      → List SubscriberHandle × World × Result (Unit {0})
  kept sub (subs, w, r) = (sub ∷ subs, w, r)

  -- The loop of topic_message_callback. An exception of a callback ends it; the handles before it
  -- have their new times.
  unfoldable pub dispatch :
      TopicParams Duration
      → Message
      → List SubscriberHandle
      → World
      → List SubscriberHandle × World × Result (Unit {0})
  dispatch params message [] w = ([], w, ok tt)
  dispatch params message (sub ∷ subs) w =
      let (is_due, w') = due sub params w in
      let skipped = kept sub (dispatch params message subs w') in
      let called = sub.callback params message w' in
      let (t, timed) = now called.0 in
      let sent = kept (record sub { last_sent = t }) (dispatch params message subs timed) in
      if is_due
      then elim called.1 [
        | ok _ ↦ sent
        | err e ↦ (sub ∷ subs, called.0, err e)
        | fault ↦ (sub ∷ subs, called.0, fault)
      ]
      else skipped

  unfoldable pub topic_message_callback :
      TopicParams Duration → Message → Connector → World → Connector × World × Result (Unit {0})
  topic_message_callback params message c w =
      let (subs, w', r) = dispatch params message c.subscribers w in
      (record c { subscribers = subs }, w', r)
