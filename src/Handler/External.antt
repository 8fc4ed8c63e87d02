-- ===== src/Handler/External.antt =====
-- ClientHandler::call_external_service and the client handler with its service clients. A call of
-- wait_for_service and a call of rclcpp::ok are calls of the middleware; the loop around them runs
-- for at most `rounds` rounds, behind which the model gives up with out_of_rounds.
pub mod Wait
pub mod Answer
use rws.Base.{ℕ, zero, suc, Bool, true, false, Option, none, some, List, [], ◌∷◌, if◌then◌else◌}
use rws.Base.Result.{Result, ok, err, fault, json_error, out_of_rounds, ◌>>=◌}
use rws.Base.Text.{Text, bytes}
use rws.Base.Keys.{find_key, insert_key}
use rws.Base.Run.{and_then}
use rws.Cdr.Host.{Host}
use rws.Ros.{Ros}
use rws.Connector.{Connector}
use rws.Members.{ServiceMembers}
use rws.Json.{Json}
use rws.ServiceClient.{Middleware, GenericClient, generic_client, async_send_request}
use rws.Translate.{json_to_serialized_service_request, serialized_service_response_to_json}
use rws.Handler.{ClientHandler, text_at}
use rws.Handler.Publishers.{Publishing}
use rws.Handler.Subscription.{Sending, send_message}
use rws.Handler.Rosapi.{Graph}

module _ (ros : Ros) (json : Json) (Message : Type 0)
    (middleware : Middleware ros.World Message) where
  open ros use {Duration, World}
  open json use {Value, contains, at, set, null, of_text, of_bool}

  -- A ClientHandler with all its members.
  pub record Peer : Type 0 where
    pub topics : ClientHandler ros json Message
    pub clients : List (Text × GenericClient middleware)

  -- What the code asks of everything that is not in the repository; `sending` holds the functions of
  -- a client that send.
  pub record Platform : Type 0 where
    pub host : Host
    pub graph : Graph ros json Message
    pub publishing : Publishing ros json Message
    pub duration : ℕ → Duration
    pub sending : ℕ → Sending ros json Message
    pub rosbridge_compatible : Bool
    pub service_members : Text → Result ServiceMembers
    pub wait_for_service : GenericClient middleware → World → World × Bool
    pub is_ok : World → World × Bool
    pub rounds : ℕ

  abbrev pub PeerReached : Type 0
  PeerReached = Peer × Connector ros Message × World × Result Value

  abbrev pub peer_keeping : Peer → Connector ros Message → World → Result Value → PeerReached
  peer_keeping p c w r = (p, c, w, r)

  -- An exception leaves the state of the call.
  abbrev pub peer_attempt :
      {A : Type 0}
      → Peer
      → Connector ros Message
      → World × Result A
      → (A → World → PeerReached)
      → PeerReached
  peer_attempt p c (w, ok a) next = next a w
  peer_attempt p c (w, err e) next = peer_keeping p c w (err e)
  peer_attempt p c (w, fault) next = peer_keeping p c w fault

  abbrev pub peer_if_found : {V : Type 0} → Option V → (V → PeerReached) → PeerReached → PeerReached
  peer_if_found none next missing = missing
  peer_if_found (some v) next missing = next v

  module _ (platform : Platform) where
    open platform use {host, graph, sending, service_members, wait_for_service, is_ok}

    -- The calls of one round of the loop: whether the service is there, or else whether to go on.
    pub data Round : Type 0 where
      available : World → Round
      interrupted : World → Round
      again : World → Round

    abbrev pub checked : World × Bool → Round
    checked (w, true) = again w
    checked (w, false) = interrupted w

    abbrev pub waited : World × Bool → Round
    waited (w, true) = available w
    waited (w, false) = checked (is_ok w)

    abbrev pub round : GenericClient middleware → World → Round
    round client w = waited (wait_for_service client w)

    -- The loop; true once the service is there, false if it is interrupted.
    unfoldable pub wait : GenericClient middleware → ℕ → World → World × Result Bool
    wait client zero w = (w, err out_of_rounds)
    wait client (suc n) w = elim (round client w) [
      | available v ↦ (v, ok true)
      | interrupted v ↦ (v, ok false)
      | again v ↦ wait client n v
    ]

    abbrev pub service_response : Value → Text → Value → Value
    service_response id service_name values = set (bytes "result") (of_bool true) (
        set (bytes "values") values (
          set (bytes "service") (of_text service_name)
            (set (bytes "op") (of_text (bytes "service_response")) (set (bytes "id") id null))))

    -- response_received_callback, with what it captures.
    unfoldable pub response_received_callback :
        ℕ → Value → Text → Text → Message → World → World × Result (Unit {0})
    response_received_callback client_id id service_name service_type response w =
        let to = sending client_id in
        let m : Result Value = do
          members ← service_members service_type
          response_json ← serialized_service_response_to_json json host members (to.buffer response)
          ok (service_response id service_name response_json)
        in send_message ros json Message to host to.callback (m >>= to.dump) w

    -- `const` operator[].
    abbrev pub value_at : Text → Value → Result Value
    value_at key msg = if contains key msg then ok (at key msg) else fault

    -- The client of the service, made if there is none.
    abbrev pub client_of : Text → Text → Peer → World → World × Result (GenericClient middleware)
    client_of service_name service_type p w = elim (find_key service_name p.clients) [
      | none ↦ generic_client middleware service_name service_type w
      | some client ↦ (w, ok client)
    ]

    -- The request, and the id that the callback captures.
    abbrev pub request_for : Text → Value → Result (Message × Value)
    request_for service_type msg = do
      args ← value_at (bytes "args") msg
      members ← service_members service_type
      buffer ← json_to_serialized_service_request json host members args
      id ← value_at (bytes "id") msg
      ok (platform.publishing.serialized buffer, id)

    -- What is left to do once the request has been sent.
    abbrev pub requested :
        Text
        → Value
        → Peer
        → Connector ros Message
        → GenericClient middleware × World × Result ℕ
        → PeerReached
    requested service_name response p c (client, w, sent) =
        peer_attempt (record p { clients = insert_key service_name client p.clients }) c (w, sent)
          λ future w.
            peer_keeping (record p { clients = insert_key service_name client p.clients }) c w
              (ok (
                set (bytes "result") (of_bool true)
                  (set (bytes "op") (of_text (bytes "call_service")) response)))

    -- Behind the loop.
    unfoldable pub send_request :
        Text
        → Text
        → Value
        → Value
        → GenericClient middleware
        → Bool
        → Peer
        → Connector ros Message
        → World
        → PeerReached
    send_request service_name service_type msg response client there p c w =
        if there
        then peer_attempt p c (w, request_for service_type msg)
            (λ a w. requested service_name response p c (
              async_send_request middleware a.0
                (response_received_callback p.topics.client_id a.1 service_name service_type) client
                w))
        else peer_keeping p c w (ok (set (bytes "result") (of_bool false) response))

    unfoldable pub call_external_service :
        Value → Value → Peer → Connector ros Message → World → PeerReached
    call_external_service msg response p c w =
        let names : Result (Text × Text) = do
          service_name ← text_at ros json Message (bytes "service") msg
          service_type ← text_at ros json Message (bytes "type") msg
          ok (service_name, service_type)
        in peer_attempt p c (w, names)
          λ n w.
            peer_if_found (find_key n.0 (graph.service_names_and_types w))
              (λ types. peer_attempt p c (client_of n.0 n.1 p w) λ client w.
                let stored = record p { clients = insert_key n.0 client p.clients } in
                peer_attempt stored c (wait client platform.rounds w)
                  λ there w. send_request n.0 n.1 msg response client there stored c w)
              (peer_keeping p c w (ok response))
