-- ===== src/Handler/Owners/Destroyed.antt =====
-- ~ClientHandler leaves the subscriber handles of the others.
use rws.Base.{ℕ, ◌+◌, ◌^◌, ◌<◌, ◌≢◌, refl, List, [], ◌∷◌, All, ◌⊎◌, inl, inr}
use rws.Base.Text.{Text}
use rws.Ros.{Ros}
use rws.Connector.{Connector, unsubscribe, unadvertise}
use rws.Connector.Handles.{
  IsValid, sub_ids, sub_ids-erase, All-remove, step, step-IsValid, unsubscribes, unadvertises,
}
use rws.Json.{Json}
use rws.Handler.{ClientHandler, call_all, destroy_handler}
use rws.Handler.Destructor.{destroy_handler-IsGone}
use rws.Handler.Owners.{Holds, Owner, Claims}

-- Numbers that are all gone are not what the predicate holds of.
All-inl :
    (P Q : ℕ → Type 0) (is : List ℕ)
    → All (λ i. P i ⊎ Q i) is
    → ((i : ℕ) → Q i → All (λ j. i ≢ j) is)
    → All P is
All-inl P Q [] a gone = tt
All-inl P Q (i ∷ is) (inl p, a) gone = (p, All-inl P Q is a λ j q. (gone j q).1)
All-inl P Q (i ∷ is) (inr q, a) gone = absurd ((gone i q).0 refl)

module _ (ros : Ros) (json : Json) (Message : Type 0) where
  -- What the loops of the destructor keep.
  record Rest (P : ℕ → Type 0) (c : Connector ros Message) : Type 0 where
    room : c.next_handler_id + 1 < 2 ^ 64
    valid : IsValid ros Message c
    all : All P (sub_ids ros Message c.subscribers)

  unsubscribe_all :
      (w : ros.World) (P : ℕ → Type 0) (m : List (Text × ℕ)) (c : Connector ros Message)
      → Rest P c
      → Rest P (call_all ros json Message (unsubscribe ros Message) m c)
  unfolding call_all unsubscribe step
  unsubscribe_all w P [] c r = r
  unsubscribe_all w P ((t, i) ∷ m) c r =
      unsubscribe_all w P m (unsubscribe ros Message i c) (record {
        room = r.room;
        valid = step-IsValid ros Message (unsubscribes i) c w r.room r.valid;
        all = rw (sub_ids-erase ros Message i c.subscribers) (All-remove P i _ r.all);
      })

  unadvertise_all :
      (w : ros.World) (P : ℕ → Type 0) (m : List (Text × ℕ)) (c : Connector ros Message)
      → Rest P c
      → Rest P (call_all ros json Message (unadvertise ros Message) m c)
  unfolding call_all unadvertise step
  unadvertise_all w P [] c r = r
  unadvertise_all w P ((t, i) ∷ m) c r =
      unadvertise_all w P m (unadvertise ros Message i c) (record {
        room = r.room;
        valid = step-IsValid ros Message (unadvertises i) c w r.room r.valid;
        all = r.all;
      })

  pub destroy_handler-Claims :
      (Other : ℕ → Type 0) (h : ClientHandler ros json Message) (c : Connector ros Message)
      (w : ros.World)
      → c.next_handler_id + 1 < 2 ^ 64
      → Claims ros json Message Other h c
      → let d = destroy_handler ros json Message h c in
        IsValid ros Message d × All Other (sub_ids ros Message d.subscribers)
  unfolding destroy_handler
  destroy_handler-Claims Other h c w room k =
      let rest = unadvertise_all w (Owner ros json Message Other h) h.publishers _ (
        unsubscribe_all w (Owner ros json Message Other h) h.subscriptions c
          (record { room = room; valid = k.valid; all = k.owned })) in
      (
        rest.valid,
        All-inl Other (Holds ros json Message h) _ rest.all
            λ i held. destroy_handler-IsGone ros json Message h c held.0 i k.valid held.1,
      )
