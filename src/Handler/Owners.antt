-- ===== src/Handler/Owners.antt =====
-- Whose the subscriber handles of the connector are, through the operations of one client.
pub mod Operations
pub mod Destroyed
use rws.Base.{
  ℕ, ◌+◌, ◌^◌, ◌<◌, ◌≡◌, ◌≢◌, refl, sym, ap, ◌∙◌, Bool, true, false, not, Option, none, some, List,
  [], ◌∷◌, ◌++◌, if◌then◌else◌, All, ◌⊎◌, inl, inr, arith, map,
}
use mathlib.Core.Path.{subst}
use rws.Base.Result.{Result, ok, err, fault}
use rws.Base.Text.{Text, bytes, text_eq, text_eq→eq}
use rws.Base.Keys.{find_key, find_key_first, erase_key, find_key_cons, find_key_kept}
use rws.Params.{TopicParams}
use rws.Ros.{Ros}
use rws.Connector.{
  Connector, Callback, SubscriberHandle, new_subscriber, push_subscriber, next_id,
  subscribe_to_topic, unsubscribe,
}
use rws.Connector.Handles.{
  IsValid, sub_ids, step, step-IsValid, subscribes, unsubscribes, map-snoc, remove, All-remove,
  remove_absent, sub_ids-erase,
}
use rws.Json.{Json}
use rws.Handler.{ClientHandler, Reached, keeping, attempt, if_found, subscribed}

pub All-map : {P Q : ℕ → Type 0} (is : List ℕ) → ((i : ℕ) → P i → Q i) → All P is → All Q is
All-map [] f a = tt
All-map (i ∷ is) f a = (f i a.0, All-map is f a.1)

pub All-both :
    {P Q R : ℕ → Type 0} (is : List ℕ)
    → ((i : ℕ) → P i → Q i → R i)
    → All P is
    → All Q is
    → All R is
All-both [] f a b = tt
All-both (i ∷ is) f a b = (f i a.0 b.0, All-both is f a.1 b.1)

All-snoc : (P : ℕ → Type 0) (is : List ℕ) (i : ℕ) → All P is → P i → All P (is ++ i ∷ [])
All-snoc P [] i a p = (p, tt)
All-snoc P (j ∷ is) i a p = (a.0, All-snoc P is i a.1 p)

module _ (ros : Ros) (json : Json) (Message : Type 0) where
  open ros use {World, Duration}

  -- The client holds the closure with this id.
  abbrev pub Holds : ClientHandler ros json Message → ℕ → Type 0
  Holds h i = (topic : Text) × (find_key topic h.subscriptions ≡ some i)

  abbrev pub Owner : (ℕ → Type 0) → ClientHandler ros json Message → ℕ → Type 0
  Owner Other h i = Other i ⊎ Holds h i

  -- Each subscriber handle is one of the others', of which `Other` tells, or the client's.
  pub record Claims (Other : ℕ → Type 0) (h : ClientHandler ros json Message)
      (c : Connector ros Message) : Type 0 where
    pub valid : IsValid ros Message c
    pub owned : All (Owner Other h) (sub_ids ros Message c.subscribers)

  module _ (Other : ℕ → Type 0) where
    abbrev pub ClaimsAll : Reached ros json Message → Type 0
    ClaimsAll r = Claims Other r.0 r.1

    Owner-cons :
        (h : ClientHandler ros json Message) (topic : Text) (id i : ℕ)
        → find_key topic h.subscriptions ≡ none
        → Owner Other h i
        → Owner Other (record h { subscriptions = (topic, id) ∷ h.subscriptions }) i
    Owner-cons h topic id i new (inl o) = inl o
    Owner-cons h topic id i new (inr (t, e)) =
        inr (t, find_key_cons topic t id i h.subscriptions new e)

    Owner-erase :
        (h : ClientHandler ros json Message) (topic : Text) (id i : ℕ)
        → find_key topic h.subscriptions ≡ some id
        → id ≢ i
        → Owner Other h i
        → Owner Other (record h { subscriptions = erase_key topic h.subscriptions }) i
    Owner-erase h topic id i e ne (inl o) = inl o
    Owner-erase h topic id i e ne (inr (t, f)) =
        inr (t, find_key_kept topic t id i h.subscriptions e f ne)

    pushed-Claims :
        (h : ClientHandler ros json Message) (topic sub_type : Text) (response : json.Value)
        (params : TopicParams Duration) (callback : Callback ros Message)
        (c : Connector ros Message) (r : World × Result ros.Subscription)
        → find_key topic h.subscriptions ≡ none
        → All (Owner Other h) (sub_ids ros Message c.subscribers)
        → let reached =
            push_subscriber ros Message
              (new_subscriber ros Message h.client_id params callback c.next_handler_id)
              (record c { next_handler_id = next_id ros Message c.next_handler_id })
              r in
          IsValid ros Message reached.0
          → ClaimsAll (subscribed ros json Message h topic sub_type response reached)
    pushed-Claims h topic sub_type response params callback c (w, ok s) new o v = record {
      valid = v;
      owned =
          rw
            (map-snoc ros Message (λ (k : SubscriberHandle ros Message). k.handle_id) c.subscribers
              (new_subscriber ros Message h.client_id params callback c.next_handler_id s))
            (All-snoc
              (Owner Other
                (record h { subscriptions = (topic, c.next_handler_id) ∷ h.subscriptions }))
              (sub_ids ros Message c.subscribers) c.next_handler_id
              (All-map (sub_ids ros Message c.subscribers)
                (λ i. Owner-cons h topic c.next_handler_id i new) o)
              (inr (topic, find_key_first topic c.next_handler_id h.subscriptions)));
    }
    pushed-Claims h topic sub_type response params callback c (w, err e) new o v = record {
      valid = v;
      owned = o;
    }
    pushed-Claims h topic sub_type response params callback c (w, fault) new o v = record {
      valid = v;
      owned = o;
    }

    pub subscribed-Claims :
        (h : ClientHandler ros json Message) (topic sub_type : Text) (response : json.Value)
        (params : TopicParams Duration) (callback : Callback ros Message)
        (c : Connector ros Message) (w : World)
        → c.next_handler_id + 1 < 2 ^ 64
        → find_key topic h.subscriptions ≡ none
        → Claims Other h c
        → ClaimsAll (
            subscribed ros json Message h topic sub_type response
              (subscribe_to_topic ros Message h.client_id params callback c w))
    unfolding subscribe_to_topic step
    subscribed-Claims h topic sub_type response params callback c w room new k =
        pushed-Claims h topic sub_type response params callback c _ new k.owned
          (step-IsValid ros Message (subscribes h.client_id params callback) c w room k.valid)

    pub unsubscribed-Claims :
        (h : ClientHandler ros json Message) (topic : Text) (id : ℕ) (c : Connector ros Message)
        (w : World)
        → c.next_handler_id + 1 < 2 ^ 64
        → find_key topic h.subscriptions ≡ some id
        → Claims Other h c
        → Claims Other
            (record h { subscriptions = erase_key topic h.subscriptions })
            (unsubscribe ros Message id c)
    unfolding unsubscribe step
    unsubscribed-Claims h topic id c w room e k = record {
      valid = step-IsValid ros Message (unsubscribes id) c w room k.valid;
      owned = rw (sub_ids-erase ros Message id c.subscribers) (
          All-both (remove id (sub_ids ros Message c.subscribers))
            (λ i ne. Owner-erase h topic id i e ne)
            (remove_absent c.next_handler_id id _ k.valid.subscribers_fresh)
            (All-remove (Owner Other h) id _ k.owned));
    }
