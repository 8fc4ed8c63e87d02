-- ===== src/Connector/Handles.antt =====
-- Handle ids: every closure that the connector has returned takes away its own handle, and no other.
use rws.Base.{
  ℕ, suc, ◌+◌, ◌^◌, ◌≤◌, ◌<◌, ◌≡◌, ◌≢◌, refl, ap, List, [], ◌∷◌, ◌++◌, ◌==◌, if◌then◌else◌, map,
  All, Bool-cases, ==_iff, sym, inl, inr, arith,
}
use mathlib.Core.Path.{subst}
use rws.Base.Result.{Result, ok, err, fault}
use rws.Params.{TopicParams}
use rws.Ros.{Ros}
use rws.Connector.{
  Callback, SubscriberHandle, PublisherHandle, Connector, next_id, subscribe_to_topic,
  erase_subscriber, unsubscribe, advertise_topic, erase_publisher, unadvertise, push_subscriber,
  new_subscriber, push_publisher, new_publisher, due, dispatch, topic_message_callback,
}

-- The ids are below the next one, and none stands twice.
abbrev pub Fresh : ℕ → List ℕ → Type 0
Fresh n [] = Unit {0}
Fresh n (i ∷ is) = (i < n) × All (λ j. i ≢ j) is × Fresh n is

Fresh-up : (m n : ℕ) (is : List ℕ) → m ≤ n → Fresh m is → Fresh n is
Fresh-up m n [] h f = tt
Fresh-up m n (i ∷ is) h f = (omega arith, f.1, Fresh-up m n is h f.2)

All-ne_next :
    (n i : ℕ) (is : List ℕ) → i < n → All (λ j. i ≢ j) is → All (λ j. i ≢ j) (is ++ n ∷ [])
All-ne_next n i [] h a = (omega arith, tt)
All-ne_next n i (j ∷ is) h a = (a.0, All-ne_next n i is h a.1)

-- A handle with the next id is added at the end.
Fresh-add : (n m : ℕ) (is : List ℕ) → m ≡ suc n → Fresh n is → Fresh m (is ++ n ∷ [])
Fresh-add n m [] e f = (omega arith, tt, tt)
Fresh-add n m (i ∷ is) e f =
    (omega (arith, f.0, e), All-ne_next n i is f.0 f.1, Fresh-add n m is e f.2)

-- The first occurrence is taken out.
abbrev pub remove : ℕ → List ℕ → List ℕ
remove i [] = []
remove i (j ∷ js) = if j == i then js else j ∷ remove i js

pub All-remove {κ} : (P : ℕ → Type κ) (i : ℕ) (js : List ℕ) → All P js → All P (remove i js)
All-remove P i [] a = tt
All-remove P i (j ∷ js) a = elim (Bool-cases (j == i)) [
  | inl hit ↦ rw hit a.1
  | inr miss ↦ rw miss (a.0, All-remove P i js a.1)
]

pub Fresh-remove : (n i : ℕ) (js : List ℕ) → Fresh n js → Fresh n (remove i js)
Fresh-remove n i [] f = tt
Fresh-remove n i (j ∷ js) f = elim (Bool-cases (j == i)) [
  | inl hit ↦ rw hit f.2
  | inr miss ↦ rw miss (f.0, All-remove (λ k. j ≢ k) i js f.1, Fresh-remove n i js f.2)
]

-- A number that stood once is gone.
pub remove_absent : (n i : ℕ) (js : List ℕ) → Fresh n js → All (λ j. i ≢ j) (remove i js)
remove_absent n i [] f = tt
remove_absent n i (j ∷ js) f = elim (Bool-cases (j == i)) [
  | inl hit ↦ rw hit (subst (λ k. All (λ j. k ≢ j) js) ((==_iff j i).0 hit) f.1)
  | inr miss ↦ rw miss ((λ e. cc ((==_iff j i).1 (sym e), miss)), remove_absent n i js f.2)
]

module _ (ros : Ros) (Message : Type 0) where
  open ros use {Duration, World}

  abbrev pub sub_ids : List (SubscriberHandle ros Message) → List ℕ
  sub_ids = map λ s. s.handle_id

  abbrev pub pub_ids : List (PublisherHandle ros Message) → List ℕ
  pub_ids = map λ p. p.handle_id

  pub record IsValid (c : Connector ros Message) : Type 0 where
    pub subscribers_fresh : Fresh c.next_handler_id (sub_ids c.subscribers)
    pub publishers_fresh : Fresh c.next_handler_id (pub_ids c.publishers)

  -- What the clients and the node do to the connector.
  pub data Call : Type 0 where
    subscribes : ℕ → TopicParams Duration → Callback ros Message → Call
    advertises : ℕ → TopicParams Duration → Call
    unsubscribes unadvertises : ℕ → Call
    receives : TopicParams Duration → Message → Call

  unfoldable pub step : Call → Connector ros Message → World → Connector ros Message × World
  step (subscribes id params handler) c w =
      let (c', w', _) = subscribe_to_topic ros Message id params handler c w in (c', w')
  step (advertises id params) c w =
      let (c', w', _) = advertise_topic ros Message id params c w in (c', w')
  step (unsubscribes id) c w = (unsubscribe ros Message id c, w)
  step (unadvertises id) c w = (unadvertise ros Message id c, w)
  step (receives params message) c w =
      let (c', w', _) = topic_message_callback ros Message params message c w in (c', w')

  pub sub_ids-erase :
      (id : ℕ) (subs : List (SubscriberHandle ros Message))
      → sub_ids (erase_subscriber ros Message id subs) ≡ remove id (sub_ids subs)
  unfolding erase_subscriber
  sub_ids-erase id [] = refl
  sub_ids-erase id (s ∷ subs) = ground (arith, sub_ids-erase id subs)

  pub pub_ids-erase :
      (id : ℕ) (ps : List (PublisherHandle ros Message))
      → pub_ids (erase_publisher ros Message id ps) ≡ remove id (pub_ids ps)
  unfolding erase_publisher
  pub_ids-erase id [] = refl
  pub_ids-erase id (p ∷ ps) = ground (arith, pub_ids-erase id ps)

  sub_ids-dispatch :
      (params : TopicParams Duration) (message : Message)
      (subs : List (SubscriberHandle ros Message)) (w : World)
      → sub_ids (dispatch ros Message params message subs w).0 ≡ sub_ids subs
  unfolding dispatch
  sub_ids-dispatch params message [] w = refl
  sub_ids-dispatch params message (s ∷ subs) w =
      let (is_due, w') = due ros Message s params w in
      ground (
        arith,
        sub_ids-dispatch params message subs w',
        sub_ids-dispatch params message subs (ros.now (s.callback params message w').0).1,
      )

  pub map-snoc {ℓ} :
      {A : Type ℓ} (f : A → ℕ) (xs : List A) (x : A) → map f (xs ++ x ∷ []) ≡ map f xs ++ f x ∷ []
  map-snoc f [] x = refl
  map-snoc f (y ∷ xs) x = ap (◌∷◌ (f y)) (map-snoc f xs x)

  taken-IsValid :
      (c : Connector ros Message)
      → c.next_handler_id + 1 < 2 ^ 64
      → IsValid c
      → IsValid (record c { next_handler_id = next_id ros Message c.next_handler_id })
  taken-IsValid c room v = record {
    subscribers_fresh = Fresh-up c.next_handler_id _ _ (omega arith) v.subscribers_fresh;
    publishers_fresh = Fresh-up c.next_handler_id _ _ (omega arith) v.publishers_fresh;
  }

  push_subscriber-IsValid :
      (id : ℕ) (params : TopicParams Duration) (handler : Callback ros Message)
      (c : Connector ros Message) (r : World × Result ros.Subscription)
      → c.next_handler_id + 1 < 2 ^ 64
      → IsValid c
      → IsValid
          (push_subscriber ros Message
            (new_subscriber ros Message id params handler c.next_handler_id)
            (record c { next_handler_id = next_id ros Message c.next_handler_id })
            r).0
  push_subscriber-IsValid id params handler c (w, ok s) room v = record {
    subscribers_fresh =
        rw
          (map-snoc (λ (h : SubscriberHandle ros Message). h.handle_id) c.subscribers
            (new_subscriber ros Message id params handler c.next_handler_id s))
          (Fresh-add c.next_handler_id _ _ (omega arith) v.subscribers_fresh);
    publishers_fresh = (taken-IsValid c room v).publishers_fresh;
  }
  push_subscriber-IsValid id params handler c (w, err e) room v = taken-IsValid c room v
  push_subscriber-IsValid id params handler c (w, fault) room v = taken-IsValid c room v

  push_publisher-IsValid :
      (id : ℕ) (params : TopicParams Duration) (c : Connector ros Message)
      (r : World × Result ros.Publisher)
      → c.next_handler_id + 1 < 2 ^ 64
      → IsValid c
      → IsValid
          (push_publisher ros Message
            (new_publisher ros Message id params c.next_handler_id)
            (record c { next_handler_id = next_id ros Message c.next_handler_id })
            r).0
  push_publisher-IsValid id params c (w, ok p) room v = record {
    subscribers_fresh = (taken-IsValid c room v).subscribers_fresh;
    publishers_fresh =
        rw
          (map-snoc (λ (h : PublisherHandle ros Message). h.handle_id) c.publishers
            (new_publisher ros Message id params c.next_handler_id p))
          (Fresh-add c.next_handler_id _ _ (omega arith) v.publishers_fresh);
  }
  push_publisher-IsValid id params c (w, err e) room v = taken-IsValid c room v
  push_publisher-IsValid id params c (w, fault) room v = taken-IsValid c room v

  -- Every call of the connector (subscribe, advertise, either closure, a message), whether the node
  -- answers or throws, keeps the handle ids of the subscribers and those of the publishers distinct
  -- and below the next id, as long as the counter of 64 bits has not run out.
  pub step-IsValid :
      (call : Call) (c : Connector ros Message) (w : World)
      → c.next_handler_id + 1 < 2 ^ 64
      → IsValid c
      → IsValid (step call c w).0
  unfolding step subscribe_to_topic advertise_topic unsubscribe unadvertise topic_message_callback
  step-IsValid (subscribes id params handler) c w room v =
      push_subscriber-IsValid id params handler c _ room v
  step-IsValid (advertises id params) c w room v = push_publisher-IsValid id params c _ room v
  step-IsValid (unsubscribes id) c w room v = record {
    subscribers_fresh =
        rw (sub_ids-erase id c.subscribers)
          (Fresh-remove c.next_handler_id id _ v.subscribers_fresh);
    publishers_fresh = v.publishers_fresh;
  }
  step-IsValid (unadvertises id) c w room v = record {
    subscribers_fresh = v.subscribers_fresh;
    publishers_fresh =
        rw (pub_ids-erase id c.publishers) (Fresh-remove c.next_handler_id id _ v.publishers_fresh);
  }
  step-IsValid (receives params message) c w room v = record {
    subscribers_fresh = rw (sub_ids-dispatch params message c.subscribers w) v.subscribers_fresh;
    publishers_fresh = v.publishers_fresh;
  }
