-- ===== src/Connector/Tests.antt =====
-- A small middleware, and calls of the connector on it.
use rws.Base.{◌↔◌, ℕ, ◌+◌, ◌≡◌, refl, true, false, [], ◌∷◌, ltb, ◌==◌, ==_iff, arith}
use rws.Base.Result.{ok}
use rws.Base.Text.{Text, bytes, text_eq}
use rws.Params.{TopicParams, params_eq, params_eq_iff}
use rws.Ros.{Ros}
use rws.Connector.{
  Callback, SubscriberHandle, PublisherHandle, Connector, unsubscribe, topic_message_callback,
}
use rws.Connector.Handles.{IsValid, step, step-IsValid, Call}
use rws.Connector.Release.{unsubscribe_one}
use rws.Connector.Dispatch.{matching, notify_all, topic_message_callback-notify_all}

-- Times and the world are numbers; every look at the clock moves it on.
abbrev clock : Ros
clock = record {
  Duration = ℕ;
  Time = ℕ;
  nanoseconds = λ d. d;
  zero_duration = 0;
  same_duration = ◌==◌;
  after = ◌+◌;
  earlier = ltb;
  epoch = 0;
  World = ℕ;
  now = λ w. (w, w + 1);
  Subscription = Text;
  Publisher = Text;
  create_generic_subscription = λ topic type qos params w. (w + 1, ok topic);
  create_generic_publisher = λ topic type qos w. (w + 1, ok topic);
  publisher_durabilities = λ topic w. [];
  same_duration_iff = ==_iff;
}

abbrev chatter : TopicParams ℕ
chatter = record {
  history_depth = 10;
  compression = bytes "none";
  topic = bytes "/c";
  type = bytes "T";
  latch = false;
  throttle_rate = 0;
}

abbrev note : Callback clock Text
note params m w = (w + 10, ok tt)

abbrev handle : ℕ → TopicParams ℕ → SubscriberHandle clock Text
handle id params = record {
  subscription = params.topic;
  params = params;
  callback = note;
  client_id = 1;
  handle_id = id;
  last_sent = 0;
}

abbrev three : Connector clock Text
three = record {
  subscribers =
      handle 0 chatter ∷ handle 1 (record chatter { latch = true }) ∷ handle 2 chatter ∷ [];
  publishers = [];
  next_handler_id = 3;
}

three-IsValid : IsValid clock Text three
three-IsValid = record {
  subscribers_fresh = (
    omega arith,
    (omega arith, (omega arith, tt)),
    (omega arith, (omega arith, tt), (omega arith, tt, tt)),
  );
  publishers_fresh = tt;
}

topic_message_callback-notify_all_example :
    ((topic_message_callback clock Text chatter (bytes "m") three 5).1
      ≡ notify_all clock Text chatter (bytes "m") (matching clock Text chatter three.subscribers) 5)
    × ((topic_message_callback clock Text chatter (bytes "m") three 5).2 ≡ ok tt)
unfolding matching params_eq text_eq
topic_message_callback-notify_all_example =
    topic_message_callback-notify_all clock Text chatter (bytes "m") three 5 refl
      (λ w. refl, (λ w. refl, tt))

step-IsValid_example : IsValid clock Text (step clock Text (Call.unsubscribes 1) three 5).0
step-IsValid_example =
    step-IsValid clock Text (Call.unsubscribes 1) three 5 (omega arith) three-IsValid

unsubscribe_one_example : unsubscribe clock Text 0 three ≡ record three {
  subscribers = handle 1 (record chatter { latch = true }) ∷ handle 2 chatter ∷ [];
}
unsubscribe_one_example =
    unsubscribe_one clock Text three [] (handle 0 chatter)
      (handle 1 (record chatter { latch = true }) ∷ handle 2 chatter ∷ []) three-IsValid refl

-- `three` with one handle more.
abbrev latched : TopicParams ℕ
latched = record chatter { history_depth = 1 }

abbrev four : Connector clock Text
four = record {
  subscribers =
      handle 0 chatter
      ∷ handle 1 (record chatter { latch = true })
      ∷ handle 2 chatter
      ∷ handle 3 latched
      ∷ [];
  publishers = [];
  next_handler_id = 4;
}

abbrev speaker : PublisherHandle clock Text
speaker = record { publisher = bytes "/c"; params = latched; client_id = 1; handle_id = 3 }

params_eq_iff_example : (params_eq ◌==◌ chatter latched ≡ true) ↔ (chatter ≡ latched)
params_eq_iff_example = params_eq_iff ◌==◌ ==_iff chatter latched
