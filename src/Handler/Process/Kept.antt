-- ===== src/Handler/Process/Kept.antt =====
-- What process_message keeps of a client handler and of the connector, if each operation on topics
-- keeps it.
use rws.Base.{ℕ, ◌≡◌, refl, Bool, true, false, not, Option, none, some, if◌then◌else◌}
use rws.Base.Result.{Result, ok, err, fault}
use rws.Base.Text.{Text, bytes, text_eq}
use rws.Base.Keys.{find_key, insert_key}
use rws.Ros.{Ros}
use rws.Connector.{Connector}
use rws.Json.{Json}
use rws.ServiceClient.{Middleware, GenericClient}
use rws.Handler.{client_subscribe_to_topic, unsubscribe_from_topic}
use rws.Handler.Publishers.{client_advertise_topic, unadvertise_topic, publish_to_topic}
use rws.Handler.Rosapi.{call_rosapi}
use rws.Handler.External.{
  Peer, Platform, PeerReached, peer_attempt, peer_if_found, requested, request_for, send_request,
  client_of, wait, call_external_service,
}
use rws.Handler.Process.{
  call_service, node_of, on_topics, dispatch_op, with_id, response_to, service_started,
  process_message,
}

module _ (ros : Ros) (json : Json) (Message : Type 0) (middleware : Middleware ros.World Message)
    (platform : Platform ros json Message middleware)
    (P : Peer ros json Message middleware → Connector ros Message → Type 0) where
  open ros use {World}
  open json use {Value, contains, at, get_string}

  abbrev Kept : PeerReached ros json Message middleware → Type 0
  Kept r = P r.0 r.1

  -- A predicate that no change of the service clients touches.
  abbrev IsApart : Type 0
  IsApart =
      (p q : Peer ros json Message middleware) (c : Connector ros Message)
      → p.topics ≡ q.topics
      → P p c
      → P q c

  if-Kept :
      (b : Bool) (x y : PeerReached ros json Message middleware)
      → Kept x
      → Kept y
      → Kept (if b then x else y)
  if-Kept true x y p q = p
  if-Kept false x y p q = q

  attempt-Kept :
      {A : Type 0} (p : Peer ros json Message middleware) (c : Connector ros Message)
      (r : World × Result A) (next : A → World → PeerReached ros json Message middleware)
      → P p c
      → ((a : A) (w : World) → Kept (next a w))
      → Kept (peer_attempt ros json Message middleware p c r next)
  attempt-Kept p c (w, ok a) next k f = f a w
  attempt-Kept p c (w, err e) next k f = k
  attempt-Kept p c (w, fault) next k f = k

  if_found-Kept :
      {V : Type 0} (o : Option V) (next : V → PeerReached ros json Message middleware)
      (missing : PeerReached ros json Message middleware)
      → ((v : V) → Kept (next v))
      → Kept missing
      → Kept (peer_if_found ros json Message middleware o next missing)
  if_found-Kept none next missing f g = g
  if_found-Kept (some v) next missing f g = f v

  -- The five operations on topics, from one state.
  pub record Operations (p : Peer ros json Message middleware) (c : Connector ros Message)
      : Type 0 where
    pub subscribe :
        (msg response : Value) (w : World)
        → Kept (
            on_topics ros json Message middleware platform p (
              client_subscribe_to_topic ros json Message
                (node_of ros json Message middleware platform p)
                msg
                response
                p.topics
                c
                w))
    pub unsubscribe :
        (msg response : Value) (w : World)
        → Kept (
            on_topics ros json Message middleware platform p
              (unsubscribe_from_topic ros json Message msg response p.topics c w))
    pub advertise :
        (msg response : Value) (w : World)
        → Kept (
            on_topics ros json Message middleware platform p
              (client_advertise_topic ros json Message msg response p.topics c w))
    pub unadvertise :
        (msg response : Value) (w : World)
        → Kept (
            on_topics ros json Message middleware platform p
              (unadvertise_topic ros json Message msg response p.topics c w))
    pub publish :
        (msg response : Value) (w : World)
        → Kept (
            on_topics ros json Message middleware platform p (
              publish_to_topic ros json Message platform.publishing platform.host msg response
                p.topics c w))

  module _ (apart : IsApart) (c : Connector ros Message) where
    requested-Kept :
        (service_name : Text) (response : Value) (p : Peer ros json Message middleware)
        (r : GenericClient middleware × World × Result ℕ)
        → P p c
        → Kept (requested ros json Message middleware platform service_name response p c r)
    requested-Kept service_name response p (client, w, sent) k =
        let q : Peer ros json Message middleware = record p {
          clients = insert_key service_name client p.clients;
        } in
        let same : P q c = apart p q c refl k in attempt-Kept q c (w, sent) _ same λ future w. same

    send_request-Kept :
        (msg : Value) (service_name service_type : Text) (response : Value)
        (client : GenericClient middleware) (there : Bool) (p : Peer ros json Message middleware)
        (w : World)
        → P p c
        → Kept (
            send_request ros json Message middleware platform service_name service_type msg response
              client there p c w)
    unfolding send_request
    send_request-Kept msg service_name service_type response client there p w k =
        if-Kept there _ _
          (attempt-Kept p c (w, request_for ros json Message middleware platform service_type msg) _
            k λ a w. requested-Kept service_name response p _ k)
          k

    call_external_service-Kept :
        (msg response : Value) (p : Peer ros json Message middleware) (w : World)
        → P p c
        → Kept (call_external_service ros json Message middleware platform msg response p c w)
    unfolding call_external_service
    call_external_service-Kept msg response p w k = attempt-Kept p c _ _ k λ n w.
        if_found-Kept (find_key n.0 (platform.graph.service_names_and_types w)) _ _
          (λ types.
            attempt-Kept p c (client_of ros json Message middleware platform n.0 n.1 p w) _ k
              λ client w.
                let q : Peer ros json Message middleware = record p {
                  clients = insert_key n.0 client p.clients;
                } in
                let same : P q c = apart p q c refl k in
                attempt-Kept q c
                  (wait ros json Message middleware platform client platform.rounds w) _ same
                  λ there w. send_request-Kept msg n.0 n.1 response client there q w same)
          k

    call_service-Kept :
        (msg before : Value) (p : Peer ros json Message middleware) (w : World)
        → P p c
        → Kept (call_service ros json Message middleware platform msg before p c w)
    unfolding call_service
    call_service-Kept msg before p w k = if-Kept (not (contains (bytes "service") msg)) _ _ k (
        attempt-Kept p c (w, get_string (at (bytes "service") msg)) _ k
          λ service w.
            let response = service_started ros json Message middleware platform service before in
            if_found-Kept
              (call_rosapi ros json Message platform.graph platform.rosbridge_compatible w service
                msg response)
              _ _ (λ r. k) (call_external_service-Kept msg response p w k))

    dispatch_op-Kept :
        (op : Text) (msg response : Value) (p : Peer ros json Message middleware) (w : World)
        → P p c
        → Operations p c
        → Kept (dispatch_op ros json Message middleware platform op msg response p c w)
    unfolding dispatch_op
    dispatch_op-Kept op msg response p w k o =
        if-Kept (text_eq op (bytes "call_service")) _ _ (call_service-Kept msg response p w k) (
          if-Kept (text_eq op (bytes "subscribe")) _ _ (o.subscribe msg response w) (
            if-Kept (text_eq op (bytes "advertise")) _ _ (o.advertise msg response w) (
              if-Kept (text_eq op (bytes "unadvertise")) _ _ (o.unadvertise msg response w) (
                if-Kept (text_eq op (bytes "publish")) _ _ (o.publish msg response w) (
                  if-Kept (text_eq op (bytes "unsubscribe")) _ _ (o.unsubscribe msg response w)
                    k)))))

    pub process_message-Kept :
        (msg : Value) (p : Peer ros json Message middleware) (w : World)
        → P p c
        → Operations p c
        → Kept (process_message ros json Message middleware platform msg p c w)
    unfolding process_message
    process_message-Kept msg p w k o =
        attempt-Kept p c (w, with_id ros json Message middleware platform msg) _ k
          λ r w. if-Kept (not (contains (bytes "op") r.1)) _ _ k (
            attempt-Kept p c (w, get_string (at (bytes "op") r.1)) _ k
              λ op w.
                dispatch_op-Kept op r.1 (response_to ros json Message middleware platform r.0) p w k
                  o)
