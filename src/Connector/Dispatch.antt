-- ===== src/Connector/Dispatch.antt =====
-- Who gets a message: topic_message_callback against "every handle of these parameters, in order".
use rws.Base.{
  ◌≡◌, refl, Bool, true, false, List, [], ◌∷◌, if◌then◌else◌, All, Bool-cases, inl, inr, arith,
}
use rws.Base.Result.{ok}
use rws.Params.{TopicParams, params_eq}
use rws.Ros.{Ros}
use rws.Connector.{SubscriberHandle, Connector, due, dispatch, topic_message_callback}

module _ (ros : Ros) (Message : Type 0) where
  open ros use {Duration, World, now, nanoseconds, same_duration}

  unfoldable pub matching :
      TopicParams Duration
      → List (SubscriberHandle ros Message)
      → List (SubscriberHandle ros Message)
  matching params [] = []
  matching params (s ∷ subs) =
      if params_eq same_duration s.params params
      then s ∷ matching params subs
      else matching params subs

  -- Every callback in turn, and a look at the clock behind each.
  unfoldable pub notify_all :
      TopicParams Duration → Message → List (SubscriberHandle ros Message) → World → World
  notify_all params message [] w = w
  notify_all params message (s ∷ subs) w =
      notify_all params message subs (now (s.callback params message w).0).1

  -- The callback returns in every world.
  abbrev pub Returns : TopicParams Duration → Message → SubscriberHandle ros Message → Type 0
  Returns params message s = (w : World) → (s.callback params message w).1 ≡ ok tt

  -- Without a throttle a handle is due by its parameters alone.
  due_free :
      (params : TopicParams Duration) (s : SubscriberHandle ros Message) (w : World) (b : Bool)
      → params_eq same_duration s.params params ≡ b
      → nanoseconds params.throttle_rate ≡ 0
      → due ros Message s params w ≡ (b, w)
  unfolding due
  due_free params s w true e free = rw e (ground (arith, free))
  due_free params s w false e free = rw e

  dispatch-notify_all :
      (params : TopicParams Duration) (message : Message)
      (subs : List (SubscriberHandle ros Message)) (w : World)
      → nanoseconds params.throttle_rate ≡ 0
      → All (Returns params message) (matching params subs)
      → ((dispatch ros Message params message subs w).1
          ≡ notify_all params message (matching params subs) w)
        × ((dispatch ros Message params message subs w).2 ≡ ok tt)
  unfolding dispatch notify_all matching
  dispatch-notify_all params message [] w free r = (refl, refl)
  dispatch-notify_all params message (s ∷ subs) w free r =
      elim (Bool-cases (params_eq same_duration s.params params)) [
        | inl hit ↦
            let rest = rw hit at r in
            ground (
              arith,
              hit,
              due_free params s w true hit free,
              rest.0 w,
              dispatch-notify_all params message subs (now (s.callback params message w).0).1 free
                  rest.1,
            )
        | inr miss ↦ ground (
          arith,
          miss,
          due_free params s w false miss free,
          dispatch-notify_all params message subs w free (rw miss at r),
        )
      ]

  -- A message on a subscription without a throttle: if the callbacks of the handles with its
  -- parameters return, each of them is called once, in the order of subscription, no other is, and
  -- the call returns.
  pub topic_message_callback-notify_all :
      (params : TopicParams Duration) (message : Message) (c : Connector ros Message) (w : World)
      → nanoseconds params.throttle_rate ≡ 0
      → All (Returns params message) (matching params c.subscribers)
      → ((topic_message_callback ros Message params message c w).1
          ≡ notify_all params message (matching params c.subscribers) w)
        × ((topic_message_callback ros Message params message c w).2 ≡ ok tt)
  unfolding topic_message_callback
  topic_message_callback-notify_all params message c w free r =
      dispatch-notify_all params message c.subscribers w free r
