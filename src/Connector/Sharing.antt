-- ===== src/Connector/Sharing.antt =====
-- Handles with equal parameters share one subscription of the node.
use rws.Base.{◌≡◌, List, [], ◌∷◌, All}
use rws.Base.Result.{Result}
use rws.Params.{TopicParams}
use rws.Ros.{Ros}
use rws.Connector.{SubscriberHandle, Connector}

module _ (ros : Ros) (Message : Type 0) where
  open ros use {Duration, World}

  abbrev Shares : SubscriberHandle ros Message → SubscriberHandle ros Message → Type 0
  Shares s t = s.params ≡ t.params → s.subscription ≡ t.subscription

  -- Any two handles with equal parameters have the same subscription.
  abbrev pub IsShared : List (SubscriberHandle ros Message) → Type 0
  IsShared [] = Unit {0}
  IsShared (s ∷ subs) = All (Shares s) subs × IsShared subs

  -- What get_subscriber_by_params finds stands for every handle of these parameters.
  abbrev StandsFor : TopicParams Duration → ros.Subscription → SubscriberHandle ros Message → Type 0
  StandsFor params sub s = s.params ≡ params → s.subscription ≡ sub
