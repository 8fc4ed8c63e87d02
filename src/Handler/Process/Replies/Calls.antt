-- ===== src/Handler/Process/Replies/Calls.antt =====
-- The replies of process_message.
use rws.Base.{Bool, true, false, not, ◌≡◌, refl, Option, none, some, ℕ, if◌then◌else◌}
use rws.Base.Result.{Result, ok, err, fault, OkAnd, Any, OkAnd-Any}
use rws.Base.Text.{Text, bytes, text_eq}
use rws.Base.Keys.{find_key}
use rws.Ros.{Ros}
use rws.Connector.{Connector}
use rws.Json.{Json, JsonLaws}
use rws.ServiceClient.{Middleware, GenericClient}
use rws.Handler.Rosapi.{call_rosapi}
use rws.Handler.External.{
  Peer, Platform, PeerReached, peer_keeping, peer_attempt, peer_if_found, requested, request_for,
  send_request, client_of, wait, call_external_service,
}
use rws.Handler.Process.{call_service, node_of, dispatch_op, service_started}
use rws.Handler.Process.Replies.{IsReply, set-IsReply}
use rws.Handler.Process.Replies.Topics.{
  Answers, client_subscribe_to_topic-Answers, unsubscribe_from_topic-Answers,
  client_advertise_topic-Answers, unadvertise_topic-Answers, publish_to_topic-Answers,
}
use rws.Handler.Process.Replies.Services.{Answered, call_rosapi-Answered}

module _ (ros : Ros) (json : Json) (Message : Type 0) (middleware : Middleware ros.World Message)
    (platform : Platform ros json Message middleware) (laws : JsonLaws json platform.host)
    (id : json.Value) where
  open ros use {World}
  open json use {Value, contains, at, get_string, set, null, find_member, of_text, of_bool}

  abbrev Good : Result Value → Type 0
  Good = Answers ros json Message platform.host laws id

  abbrev Keeps : Value → Type 0
  Keeps = IsReply json platform.host laws id

  pub ok-Good : {v : Value} → Keeps v → Good (ok v)
  unfolding Answers
  ok-Good p = p

  with_key :
      (k : Text) {v response : Value}
      → text_eq (bytes "id") k ≡ false
      → Keeps response
      → Keeps (set k v response)
  with_key k {v} {response} = set-IsReply json platform.host laws id k v response

  pub if-Good :
      (b : Bool) (x y : PeerReached ros json Message middleware)
      → Good x.3
      → Good y.3
      → Good (if b then x else y).3
  if-Good true x y p q = p
  if-Good false x y p q = q

  -- With what is known of the value.
  pub attempt-Good_of :
      {A : Type 0} (Q : A → Type 0) (p : Peer ros json Message middleware)
      (c : Connector ros Message) (r : World × Result A)
      (next : A → World → PeerReached ros json Message middleware)
      → OkAnd Q r.1
      → ((a : A) (w : World) → Q a → Good (next a w).3)
      → Good (peer_attempt ros json Message middleware p c r next).3
  unfolding Answers
  attempt-Good_of Q p c (w, ok a) next q g = g a w q
  attempt-Good_of Q p c (w, err e) next q g = tt
  attempt-Good_of Q p c (w, fault) next q g = tt

  pub attempt-Good :
      {A : Type 0} (p : Peer ros json Message middleware) (c : Connector ros Message)
      (r : World × Result A) (next : A → World → PeerReached ros json Message middleware)
      → ((a : A) (w : World) → Good (next a w).3)
      → Good (peer_attempt ros json Message middleware p c r next).3
  attempt-Good p c r next g = attempt-Good_of Any p c r next (OkAnd-Any r.1) (λ a w q. g a w)

  requested-Good :
      (service_name : Text) (response : Value) (p : Peer ros json Message middleware)
      (c : Connector ros Message) (r : GenericClient middleware × World × Result ℕ)
      → Keeps response
      → Good (requested ros json Message middleware platform service_name response p c r).3
  unfolding text_eq
  requested-Good service_name response p c (client, w, sent) k =
      attempt-Good _ c (w, sent) _
        λ future w. ok-Good (with_key (bytes "result") refl (with_key (bytes "op") refl k))

  module _ (msg : Value) (p : Peer ros json Message middleware) (c : Connector ros Message) where
    send_request-Good :
        (service_name service_type : Text) (response : Value) (client : GenericClient middleware)
        (there : Bool) (p : Peer ros json Message middleware) (w : World)
        → Keeps response
        → Good
            (send_request ros json Message middleware platform service_name service_type msg
              response client there p c w).3
    unfolding send_request text_eq
    send_request-Good service_name service_type response client there p w k =
        if-Good there _ _
          (attempt-Good p c (w, request_for ros json Message middleware platform service_type msg) _
            λ a w. requested-Good service_name response p c _ k)
          (ok-Good (with_key (bytes "result") {v = of_bool false} refl k))

    found-Good :
        {V : Type 0} (o : Option V) (f : V → PeerReached ros json Message middleware)
        (x : PeerReached ros json Message middleware)
        → ((v : V) → Good (f v).3)
        → Good x.3
        → Good (peer_if_found ros json Message middleware o f x).3
    found-Good none f x h g = g
    found-Good (some v) f x h g = h v

    call_external_service-Good :
        (response : Value) (w : World)
        → Keeps response
        → Good (call_external_service ros json Message middleware platform msg response p c w).3
    unfolding call_external_service
    call_external_service-Good response w k = attempt-Good p c _ _ λ n w.
        found-Good (find_key n.0 (platform.graph.service_names_and_types w)) _ _
          (λ types.
            attempt-Good p c (client_of ros json Message middleware platform n.0 n.1 p w) _
              λ client w.
                attempt-Good _ c
                  (wait ros json Message middleware platform client platform.rounds w) _
                  λ there w. send_request-Good n.0 n.1 response client there _ w k)
          (ok-Good k)

    service_started-Keeps :
        (service : Text) (before : Value)
        → Keeps before
        → Keeps (service_started ros json Message middleware platform service before)
    unfolding text_eq
    service_started-Keeps service before k = with_key (bytes "result") refl (
        with_key (bytes "service") {v = of_text service} refl
          (with_key (bytes "op") {v = of_text (bytes "service_response")} refl k))

    call_service-Good :
        (before : Value) (w : World)
        → Keeps before
        → Good (call_service ros json Message middleware platform msg before p c w).3
    unfolding call_service Answers
    call_service-Good before w k = if-Good (not (contains (bytes "service") msg)) _ _ (ok-Good k) (
        attempt-Good p c (w, get_string (at (bytes "service") msg)) _
          λ service w.
            let started = service_started-Keeps service before k in
            let response = service_started ros json Message middleware platform service before in
            by_answer response w started
              (call_rosapi ros json Message platform.graph platform.rosbridge_compatible w service
                msg response)
              (call_rosapi-Answered ros json Message platform.host laws id platform.graph
                platform.rosbridge_compatible w service msg response started))
      where
        by_answer :
            (response : Value) (w : World)
            → Keeps response
            → (o : Option (Result Value))
            → Answered ros json Message platform.host laws id platform.graph
                platform.rosbridge_compatible w o
            → Good
                (peer_if_found ros json Message middleware o
                  (peer_keeping ros json Message middleware p c w)
                  (call_external_service ros json Message middleware platform msg response p c w)).3
        by_answer response w k none a = call_external_service-Good response w k
        by_answer response w k (some r) a = a

    pub dispatch_op-Good :
        (op : Text) (response : Value) (w : World)
        → Keeps response
        → Good (dispatch_op ros json Message middleware platform op msg response p c w).3
    unfolding dispatch_op
    dispatch_op-Good op response w k =
        let node = node_of ros json Message middleware platform p in
        if-Good (text_eq op (bytes "call_service")) _ _ (call_service-Good response w k) (
          if-Good (text_eq op (bytes "subscribe")) _ _
            (client_subscribe_to_topic-Answers ros json Message platform.host laws id msg response
              p.topics c w k node)
            (if-Good (text_eq op (bytes "advertise")) _ _
              (client_advertise_topic-Answers ros json Message platform.host laws id msg response
                p.topics c w k)
              (if-Good (text_eq op (bytes "unadvertise")) _ _
                (unadvertise_topic-Answers ros json Message platform.host laws id msg response
                  p.topics c w k)
                (if-Good (text_eq op (bytes "publish")) _ _
                  (publish_to_topic-Answers ros json Message platform.host laws id msg response
                    p.topics c w k platform.publishing platform.host)
                  (if-Good (text_eq op (bytes "unsubscribe")) _ _
                    (unsubscribe_from_topic-Answers ros json Message platform.host laws id msg
                      response p.topics c w k)
                    (ok-Good k))))))
