-- ===== src/Handler/Destructor.antt =====
-- ~ClientHandler: the handles of the client are taken away.
use rws.Base.{ℕ, ◌≡◌, ◌≢◌, refl, sym, some, List, [], ◌∷◌, All, Bool-cases, inl, inr}
use mathlib.Core.Path.{subst}
use rws.Base.Text.{Text, text_eq}
use rws.Ros.{Ros}
use rws.Connector.{Connector, unsubscribe, unadvertise}
use rws.Connector.Handles.{
  IsValid, Fresh, sub_ids, remove_absent, All-remove, Fresh-remove, sub_ids-erase,
}
use rws.Json.{Json}
use rws.Base.Keys.{find_key}
use rws.Handler.{ClientHandler, call_all, destroy_handler}

module _ (ros : Ros) (json : Json) (Message : Type 0) where
  -- The id has no handle among the subscribers.
  abbrev pub IsGone : ℕ → Connector ros Message → Type 0
  IsGone i c = All (λ j. i ≢ j) (sub_ids ros Message c.subscribers)

  abbrev IsFresh : Connector ros Message → Type 0
  IsFresh c = Fresh c.next_handler_id (sub_ids ros Message c.subscribers)

  unsubscribe-IsFresh :
      (i : ℕ) (c : Connector ros Message) → IsFresh c → IsFresh (unsubscribe ros Message i c)
  unfolding unsubscribe
  unsubscribe-IsFresh i c f =
      rw (sub_ids-erase ros Message i c.subscribers) (Fresh-remove c.next_handler_id i _ f)

  unsubscribe-IsGone :
      (i : ℕ) (c : Connector ros Message) → IsFresh c → IsGone i (unsubscribe ros Message i c)
  unfolding unsubscribe
  unsubscribe-IsGone i c f =
      rw (sub_ids-erase ros Message i c.subscribers) (remove_absent c.next_handler_id i _ f)

  still-IsGone :
      (i j : ℕ) (c : Connector ros Message) → IsGone i c → IsGone i (unsubscribe ros Message j c)
  unfolding unsubscribe
  still-IsGone i j c g =
      rw (sub_ids-erase ros Message j c.subscribers) (All-remove (λ k. i ≢ k) j _ g)

  -- The loop over the subscriptions keeps a handle away that is gone.
  call_all-IsGone :
      (i : ℕ) (m : List (Text × ℕ)) (c : Connector ros Message)
      → IsGone i c
      → IsGone i (call_all ros json Message (unsubscribe ros Message) m c)
  unfolding call_all
  call_all-IsGone i [] c g = g
  call_all-IsGone i ((t, j) ∷ m) c g = call_all-IsGone i m _ (still-IsGone i j c g)

  call_all-find_key :
      (t : Text) (i : ℕ) (m : List (Text × ℕ)) (c : Connector ros Message)
      → IsFresh c
      → find_key t m ≡ some i
      → IsGone i (call_all ros json Message (unsubscribe ros Message) m c)
  unfolding call_all find_key
  call_all-find_key t i [] c f e = cc
  call_all-find_key t i ((u, j) ∷ m) c f e = elim (Bool-cases (text_eq u t)) [
    | inl hit ↦
        let same : j ≡ i = cc (rw hit at e) in
        call_all-IsGone i m (unsubscribe ros Message j c)
          (subst (λ k. IsGone k (unsubscribe ros Message j c)) same (unsubscribe-IsGone j c f))
    | inr miss ↦
        call_all-find_key t i m (unsubscribe ros Message j c) (unsubscribe-IsFresh j c f)
          (rw miss at e)
  ]

  -- The closures of the publishers leave the subscribers alone.
  call_all-unadvertise :
      (m : List (Text × ℕ)) (c : Connector ros Message)
      → (call_all ros json Message (unadvertise ros Message) m c).subscribers ≡ c.subscribers
  unfolding call_all unadvertise
  call_all-unadvertise [] c = refl
  call_all-unadvertise ((t, i) ∷ m) c = call_all-unadvertise m (unadvertise ros Message i c)

  -- On a connector with distinct handle ids below the next one, the destructor of a client handler
  -- leaves no subscriber handle whose closure the client holds for a topic.
  pub destroy_handler-IsGone :
      (h : ClientHandler ros json Message) (c : Connector ros Message) (t : Text) (i : ℕ)
      → IsValid ros Message c
      → find_key t h.subscriptions ≡ some i
      → IsGone i (destroy_handler ros json Message h c)
  unfolding destroy_handler
  destroy_handler-IsGone h c t i v e =
      subst (λ subs. All (λ j. i ≢ j) (sub_ids ros Message subs))
        (sym (
          call_all-unadvertise h.publishers
            (call_all ros json Message (unsubscribe ros Message) h.subscriptions c)))
        (call_all-find_key t i h.subscriptions c v.subscribers_fresh e)
