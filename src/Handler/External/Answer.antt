-- ===== src/Handler/External/Answer.antt =====
-- A call of a service outside rosapi, and its answer.
use rws.Base.{ℕ, ◌≡◌, refl, sym, ap, ◌∙◌, Bool, true, false, some, List, [], ◌∷◌, if◌then◌else◌}
use mathlib.Core.Path.{subst}
use rws.Base.Result.{Result, ok}
use rws.Base.Text.{Text, bytes, text_eq}
use rws.Base.Keys.{find_key, insert_key, find_key-insert_key}
use rws.Ros.{Ros}
use rws.Connector.{Connector}
use rws.Members.{ServiceMembers}
use rws.Json.{Json, JsonLaws}
use rws.Json.Objects.{Holds, set-Holds, set-Holds_first, object_either, find_member_set}
use rws.ServiceClient.{
  Middleware, GenericClient, load_request, async_send_request, add_request, handle_response,
}
use rws.ServiceClient.Answers.{sent_lem, handle_response-async_send_request}
use rws.Handler.External.Wait.{Within, wait_iff}
use rws.Translate.{to_json_message, to_serialized_message, serialized_service_response_to_json}
use rws.Handler.Subscription.{send_message}
use rws.Handler.Subscription.Sent.{IsSent, send_message-IsSent}
use rws.Handler.External.{
  Peer, Platform, client_of, service_response, response_received_callback, send_request, requested,
  call_external_service,
}

module _ (ros : Ros) (json : Json) (Message : Type 0) (middleware : Middleware ros.World Message)
    (platform : Platform ros json Message middleware) (laws : JsonLaws json platform.host) where
  open ros use {World}
  open json use {
    Value, contains, at, get_string, of_bool, of_text, set, null, is_null, is_object, find_member,
  }

  -- A call_service message on a service that the node knows, has a client for or makes one, that
  -- becomes available and takes the request under a number.
  pub record Asked (msg : Value) (p : Peer ros json Message middleware) (w : World)
      (name type : Text) (client : GenericClient middleware) (number : ℕ) : Type 0 where
    pub has_name : contains (bytes "service") msg ≡ true
    pub names : get_string (at (bytes "service") msg) ≡ ok name
    pub has_type : contains (bytes "type") msg ≡ true
    pub types : get_string (at (bytes "type") msg) ≡ ok type
    pub others : List Text
    pub known : find_key name (platform.graph.service_names_and_types w) ≡ some others
    pub found : World
    pub has_client :
        client_of ros json Message middleware platform name type p w ≡ (found, ok client)
    pub waited : World
    pub available :
        Within ros json Message middleware platform client platform.rounds found waited true
    pub has_args : contains (bytes "args") msg ≡ true
    pub members : ServiceMembers
    pub known_type : platform.service_members type ≡ ok members
    pub buffer : List ℕ
    pub writes :
        to_serialized_message json platform.host members.request_members (at (bytes "args") msg)
        ≡ ok buffer
    pub has_id : contains (bytes "id") msg ≡ true
    pub loaded : middleware.Message
    pub loads :
        load_request middleware client.type_support (platform.publishing.serialized buffer)
        ≡ ok loaded
    pub sent : World
    pub sends : middleware.rcl_send_request client.type_support loaded waited ≡ (sent, ok number)

  module _ (msg before : Value) (p : Peer ros json Message middleware) (c : Connector ros Message)
      (w : World) (name type : Text) (client : GenericClient middleware) (number : ℕ)
      (a : Asked msg p w name type client number) where
    abbrev id : Value
    id = at (bytes "id") msg

    abbrev request : Message
    request = platform.publishing.serialized a.buffer

    abbrev callback : Message → World → World × Result (Unit {0})
    callback =
        response_received_callback ros json Message middleware platform p.topics.client_id id name
          type

    -- The client behind the call.
    abbrev pub asking : GenericClient middleware
    asking = (async_send_request middleware request callback client a.waited).0

    called :
        call_external_service ros json Message middleware platform msg before p c w
        ≡ requested ros json Message middleware platform name before
            (record p { clients = insert_key name client p.clients })
            c
            (async_send_request middleware request callback client a.waited)
    unfolding call_external_service send_request
    called =
        let there =
          (wait_iff ros json Message middleware platform client platform.rounds a.found a.waited
              true).1
            a.available in
        rw (a.has_name, a.names, a.has_type, a.types, call_external_service)
          (rw (a.known, call_external_service)
            (rw (a.has_client, call_external_service)
              (rw (there, call_external_service)
                (rw (a.has_args, a.known_type, a.writes, a.has_id, send_request) refl))))

    once :
        {A : Type 0} (b : Bool) (x y z : A)
        → (if b then x else (if b then y else z)) ≡ (if b then x else z)
    once true x y z = refl
    once false x y z = refl

    requested_lem :
        async_send_request middleware request callback client a.waited
        ≡ add_request middleware callback client (a.sent, ok number)
    requested_lem =
        sent_lem middleware request callback client a.waited a.sent a.loaded number a.loads a.sends

    called_lem :
        let r = call_external_service ros json Message middleware platform msg before p c w in
        (r.3
          ≡ ok (
              set
                (bytes "result")
                (of_bool true)
                (set (bytes "op") (of_text (bytes "call_service")) before)))
        × ((k : Text)
            → find_key k r.0.clients
              ≡ (if text_eq name k then some asking else find_key k p.clients))
    called_lem =
        let stored = (add_request middleware callback client (a.sent, ok number)).0 in
        rw (called, requested_lem)
          (
            refl,
            λ k.
                find_key-insert_key name k stored (insert_key name client p.clients)
                ∙ ap (λ x. if text_eq name k then some stored else x)
                    (find_key-insert_key name k client p.clients)
                ∙ once (text_eq name k) (some stored) (some client) (find_key k p.clients)
                ∙ ap (λ x. if text_eq name k then some x else find_key k p.clients)
                    (sym (ap (λ x. x.0) requested_lem)),
          )

    sends_response :
        (members : ServiceMembers) (response : Message) (values : Value) (w : World)
        → platform.service_members type ≡ ok members
        → serialized_service_response_to_json json platform.host members
            ((platform.sending p.topics.client_id).buffer response)
          ≡ ok values
        → callback response w
          ≡ send_message ros json Message
              (platform.sending p.topics.client_id)
              platform.host
              (platform.sending p.topics.client_id).callback
              ((platform.sending p.topics.client_id).dump
                (service_response ros json Message middleware platform id name values))
              w
    unfolding response_received_callback
    sends_response members response values w e f = rw (e, response_received_callback) (rw f refl)

    abbrev made : Value → Value
    made values = set (bytes "result") (of_bool true) (
        set (bytes "values") values (
          set (bytes "service") (of_text name)
            (set (bytes "op") (of_text (bytes "service_response")) (set (bytes "id") id null))))

    -- What a client gets for its call.
    abbrev pub IsAnswer : Value → Value → Type 0
    IsAnswer values m =
        Holds json platform.host laws
          ((bytes "result", of_bool true)
            ∷ (bytes "values", values)
            ∷ (bytes "service", of_text name)
            ∷ (bytes "op", of_text (bytes "service_response"))
            ∷ (bytes "id", at (bytes "id") msg)
            ∷ [])
          m

    made-IsAnswer : (values : Value) → IsAnswer values (made values)
    made-IsAnswer values = set-Holds json platform.host laws (bytes "result") (of_bool true) _ _ (
        set-Holds json platform.host laws (bytes "values") values _ _ (
          set-Holds json platform.host laws (bytes "service") (of_text name) _ _ (
            set-Holds json platform.host laws (bytes "op") (of_text (bytes "service_response")) _ _
              (set-Holds_first json platform.host laws (bytes "id") id))))

    -- The response of the call: what it held before, and two members more.
    abbrev pub IsPositive : Value → Type 0
    IsPositive response =
        (k : Text)
        → find_member k response ≡ (
            if text_eq (bytes "result") k
            then some (of_bool true)
            else if text_eq (bytes "op") k
            then some (of_text (bytes "call_service"))
            else find_member k before)

    response_lem :
        is_object before ≡ true
        → IsPositive (
            set
              (bytes "result")
              (of_bool true)
              (set (bytes "op") (of_text (bytes "call_service")) before))
    response_lem obj k =
        let op = of_text (bytes "call_service") in
        let inner = object_either json platform.host laws before obj in
        let outer =
          object_either json platform.host laws (set (bytes "op") op before)
            (laws.set-object (bytes "op") op before inner) in
        find_member_set json platform.host laws k (bytes "result") (of_bool true) _ outer
        ∙ ap (λ x. if text_eq (bytes "result") k then some (of_bool true) else x)
            (find_member_set json platform.host laws k (bytes "op") op before inner)

    -- For JSON values that behave as JsonLaws says: a call_service message on a service that the
    -- node knows, whose client exists or can be made, that becomes available within the bound on
    -- rounds and takes the request under a number; and then the answer with this number, which can
    -- be serialized and has a value in JSON: the call returns the response that it was given, with
    -- op call_service and result true; a client is stored for the service and those of the other
    -- services stay; and handling the answer with it sends the caller one object that holds exactly
    -- the id of the message, op service_response, the name of the service, the value and result
    -- true, or passes on the encoder's exception.
    pub handle_response-call_external_service :
        (answer : middleware.Message) (response : Message) (values : Value) (v v' : World)
        → is_object before ≡ true
        → middleware.rmw_serialize client.type_support answer v ≡ (v', some response)
        → to_json_message json platform.host a.members.response_members
            ((platform.sending p.topics.client_id).buffer response)
          ≡ ok values
        → let r = call_external_service ros json Message middleware platform msg before p c w in
          let to = platform.sending p.topics.client_id in
          (positive : Value) × (asked : GenericClient middleware) × (m : Value) × (r.3
            ≡ ok positive)
          × IsPositive positive
          × ((k : Text)
              → find_key k r.0.clients
                ≡ (if text_eq name k then some asked else find_key k p.clients))
          × IsAnswer values m
          × (let answered = handle_response middleware number answer asked v in
              IsSent to.callback (to.dump m) v' (answered.1, answered.2))
    handle_response-call_external_service answer response values v v' obj serial reads =
        let exchanged =
          handle_response-async_send_request middleware request callback client a.waited a.sent v v'
            a.loaded number answer response a.loads a.sends serial in
        let sends = sends_response a.members response values v' a.known_type reads in
        let to = platform.sending p.topics.client_id in
        let first = exchanged.1 ∙ ap (λ x. x.0) sends in
        let second = exchanged.2 ∙ ap (λ x. x.1) sends in
        (
          _,
          asking,
          made values,
          called_lem.0,
          response_lem obj,
          called_lem.1,
          made-IsAnswer values,
          subst (IsSent to.callback (to.dump (made values)) v') (sym (λ i. (first i, second i))) (
              send_message-IsSent ros json Message to platform.host to.callback
                (to.dump (made values)) v'),
        )
