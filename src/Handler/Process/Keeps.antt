-- ===== src/Handler/Process/Keeps.antt =====
-- The response of process_message belongs to its request.
use rws.Base.{ap, Bool, true, false, not, ◌||◌, ◌≡◌, refl, some, if◌then◌else◌}
use mathlib.Core.Path.{subst}
use rws.Base.Result.{ok, err, json_error, OkAnd}
use rws.Base.Text.{bytes, text_eq}
use rws.Ros.{Ros}
use rws.Connector.{Connector}
use rws.Json.{Json, JsonLaws}
use rws.ServiceClient.{Middleware}
use rws.Handler.External.{Peer, Platform}
use rws.Handler.Process.{with_id, member_or_null, response_to, process_message}
use rws.Handler.Process.Replies.{IsReply, set-IsReply}
use rws.Handler.Process.Replies.Topics.{Answers}
use rws.Handler.Process.Replies.Calls.{
  dispatch_op-Good, attempt-Good, attempt-Good_of, if-Good, ok-Good,
}

module _ (ros : Ros) (json : Json) (Message : Type 0) (middleware : Middleware ros.World Message)
    (platform : Platform ros json Message middleware) (laws : JsonLaws json platform.host) where
  open ros use {World}
  open json use {Value, contains, at, get_string, set, null, is_null, is_object, find_member}

  response_to-IsReply :
      (id : Value)
      → IsReply json platform.host laws id (response_to ros json Message middleware platform id)
  unfolding text_eq
  response_to-IsReply id =
      let either : (is_null null || is_object null) ≡ true = rw laws.null_lem.0 refl in
      set-IsReply json platform.host laws id (bytes "result") _ _ refl (
        laws.set-object (bytes "id") id null either,
        laws.find_member-set (bytes "id") id null either,
      )

  abbrev id_of : Value → Value
  id_of given = member_or_null ros json Message middleware platform (find_member (bytes "id") given)

  abbrev IsFor : Value → Value × Value → Type 0
  IsFor given r = r.0 ≡ id_of given

  with_id-OkAnd :
      (given : Value) → OkAnd (IsFor given) (with_id ros json Message middleware platform given)
  with_id-OkAnd given = by_kind (is_null given || is_object given)
    where
      by_kind :
          (b : Bool)
          → OkAnd (IsFor given) (
              if b
              then ok (
                id_of given,
                (if contains (bytes "id") given then given else set (bytes "id") null given),
              )
              else err json_error)
      by_kind true = refl
      by_kind false = tt

  replies :
      (given : Value) (p : Peer ros json Message middleware) (c : Connector ros Message) (w : World)
      → Answers ros json Message platform.host laws
          (id_of given)
          (process_message ros json Message middleware platform given p c w).3
  unfolding process_message text_eq
  replies given p c w =
      attempt-Good_of ros json Message middleware platform laws (id_of given) (IsFor given) p c
        (w, with_id ros json Message middleware platform given) _ (with_id-OkAnd given)
        λ r w same.
          let response = response_to ros json Message middleware platform r.0 in
          let k : IsReply json platform.host laws (id_of given) response =
            subst (λ i. IsReply json platform.host laws i response) same
              (response_to-IsReply r.0) in
          if-Good ros json Message middleware platform laws (id_of given)
            (not (contains (bytes "op") r.1)) _ _
            (ok-Good ros json Message middleware platform laws (id_of given)
              (set-IsReply json platform.host laws (id_of given) (bytes "error") _ response refl k))
            (attempt-Good ros json Message middleware platform laws (id_of given) p c
              (w, get_string (at (bytes "op") r.1)) _
              λ op w.
                dispatch_op-Good ros json Message middleware platform laws (id_of given) r.1 p c op
                  response w k)

  -- For JSON values that behave as JsonLaws says: whatever the message, the state of the client and
  -- of the connector, and whatever the node and the services answer, a response that
  -- process_message returns is an object whose "id" is the one of the message, or null if the
  -- message has none.
  pub process_message-IsReply :
      (given : Value) (p p' : Peer ros json Message middleware) (c c' : Connector ros Message)
      (w w' : World) (response : Value)
      → process_message ros json Message middleware platform given p c w ≡ (p', c', w', ok response)
      → (is_object response ≡ true)
        × (find_member (bytes "id") response
            ≡ some (
                member_or_null ros json Message middleware platform
                  (find_member (bytes "id") given)))
  unfolding Answers
  process_message-IsReply given p p' c c' w w' response e =
      subst (λ r. OkAnd (IsReply json platform.host laws (id_of given)) r) (ap (λ r. r.3) e)
        (replies given p c w)
