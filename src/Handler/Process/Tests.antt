-- ===== src/Handler/Process/Tests.antt =====
-- A small node with one service, and a client that calls it.
use rws.Base.{
  ℕ, ◌↔◌, ◌+◌, ◌≡◌, refl, if◌then◌else◌, true, false, none, some, [], ◌∷◌, length, arith,
}
use rws.Base.Result.{Result, ok, err, fault}
use rws.Base.Maps.{find, insert}
use rws.Base.Text.{Text, bytes, text_eq}
use rws.Base.Keys.{find_key}
use rws.Members.{ros_int32, Arity, plain, end}
use rws.Handler.Tests.{host, trees, still, publishing, client, nobody}
use rws.Json.Tree.{Tree, nothing, boolean, number, text, object, done, field, lookup}
use rws.ServiceClient.{
  Middleware, ServiceType, rcl_ok, GenericClient, load_request, handle_response,
}
use rws.Handler.Subscription.{Sending}
use rws.Handler.Rosapi.{Graph}
use rws.Json.Tree.Laws.{tree-JsonLaws}
use rws.Cdr.Ser.{cycser}
use rws.Cdr.Deser.{cycdeser, load_byte}
use rws.Translate.{
  to_serialized_message, json_to_serialized_message, to_json_message, serialized_message_to_json,
}
use rws.Handler.External.{Peer, Platform, wait, call_external_service}
use rws.Handler.External.Wait.{Within, arrives, turns, wait_iff}
use rws.Handler.External.Answer.{Asked, IsPositive, IsAnswer, handle_response-call_external_service}
use rws.Params.{subscriber_params}
use rws.Connector.{
  connector, subscribe_to_topic, obtain_subscription, get_subscriber_by_params, last_durability,
}
use rws.Server.{
  Client, ConnectionData, Server, get_con_data, subscribe_client, send_message_to_node, process,
  work, process_messages_round, on_open, on_message,
}
use rws.Server.Reach.{unknown, opened, set, started, Reachable, starts, opens, receives, processes}
use rws.Handler.{client_handler, subscription_params, subscribe_known, client_subscribe_to_topic}
use rws.Handler.Publishers.Advertised.{IsReady}
use rws.Handler.Process.{peers, process_message, dispatch_op}
use rws.Handler.Process.Ready.{Reachable-IsReady}
use rws.Handler.Process.System.{IsOwned}
use rws.Handler.Process.System.Reachable.{HasRoom, Reachable-IsOwned}
use rws.Handler.Process.Keeps.{process_message-IsReply}

abbrev single : Arity
single = record { is_array = false; array_size = 0; is_upper_bound = false; get_function = true }

abbrev setting : ServiceType
setting = record {
  request_namespace = bytes "p::srv";
  request_name = bytes "Set_Request";
  response_namespace = bytes "p::srv";
  response_name = bytes "Set_Response";
  members = record {
    request_members = plain (bytes "data") ros_int32 single end;
    response_members = plain (bytes "data") ros_int32 single end;
  };
}

-- Requests are numbered by the world.
abbrev pub numbering : Middleware ℕ Text
numbering = record {
  Message = Text;
  Library = Text;
  load_library = λ type w. (w, ok type);
  symbol = λ library name. some setting;
  message_handle = λ type library. ok tt;
  rcl_client_init = λ service type w. (w + 1, rcl_ok);
  expand_topic_or_service_name = λ name. ok tt;
  allocated = λ members. [];
  rmw_serialize = λ t m w. (w, some m);
  rmw_deserialize = λ t s m. ok s;
  rcl_send_request = λ t m w. (w + 1, ok w);
}

abbrev sending : Sending still trees Text
sending = record {
  time_seconds = λ t. t;
  time_nanoseconds = λ t. t;
  buffer = λ m. m;
  members_of_type = λ type. ok end;
  of_number = number;
  binary = text;
  dump = λ v. ok (bytes "{}");
  to_cbor = λ v. ok [];
  to_bson = λ v. ok [];
  to_msgpack = λ v. ok [];
  to_ubjson = λ v. ok [];
  to_bjdata = λ v. ok [];
  callback = some (λ msg w. w + length msg);
  binary_callback = none;
}

abbrev graph : Graph still trees Text
graph = record {
  topic_names_and_types = λ w. (bytes "/c", bytes "T" ∷ []) ∷ [];
  service_names_and_types = λ w. (bytes "/s", bytes "p/srv/Set" ∷ []) ∷ [];
  node_names = λ w. [];
  subscriptions_info_by_topic = λ topic w. [];
  publishers_info_by_topic = λ topic w. [];
  services_by_node = λ node ns w. ok [];
  members_of_type = λ type. ok end;
}

abbrev pub platform : Platform still trees Text numbering
platform = record {
  host = host;
  graph = graph;
  publishing = publishing;
  duration = λ ns. ns;
  sending = λ id. sending;
  rosbridge_compatible = false;
  service_members = λ type. ok (record { request_members = end; response_members = end });
  wait_for_service = λ client w. (w + 1, true);
  is_ok = λ w. (w, true);
  rounds = 3;
}

abbrev idle : GenericClient numbering
idle = record { type_support = setting; pending_requests = []; next_promise = 0; values = [] }

abbrev caller : Peer still trees Text numbering
caller = record { topics = client; clients = (bytes "/s", idle) ∷ [] }

abbrev call : Tree
call = object (
    field (bytes "op") (text (bytes "call_service")) (
      field (bytes "id") (number 7) (
        field (bytes "service") (text (bytes "/s")) (
          field (bytes "type") (text (bytes "p/srv/Set"))
            (field (bytes "args") (object done) done)))))

call-Asked :
    Asked still trees Text numbering platform
      (tree-JsonLaws host)
      call
      caller
      5
      (bytes "/s")
      (bytes "p/srv/Set")
      idle
      6
unfolding find_key lookup text_eq load_request to_serialized_message json_to_serialized_message
    cycser turns
call-Asked = record {
  has_name = refl;
  names = refl;
  has_type = refl;
  types = refl;
  others = bytes "p/srv/Set" ∷ [];
  known = refl;
  found = 5;
  has_client = refl;
  waited = 6;
  available = (arrives refl, omega arith);
  has_args = refl;
  members = record { request_members = end; response_members = end };
  known_type = refl;
  buffer = 0 ∷ 1 ∷ 0 ∷ 0 ∷ [];
  writes = refl;
  has_id = refl;
  loaded = 0 ∷ 1 ∷ 0 ∷ 0 ∷ [];
  loads = refl;
  sent = 7;
  sends = refl;
}

abbrev reply : Text
reply = 0 ∷ 1 ∷ 0 ∷ 0 ∷ []

handle_response-call_external_service_example :
    let r =
      call_external_service still trees Text numbering platform call
        (object done)
        caller
        nobody
        5 in
    (positive : Tree) × (asked : GenericClient numbering) × (m : Tree) × (r.3 ≡ ok positive)
    × IsPositive still trees Text numbering platform
        (tree-JsonLaws host)
        call
        (object done)
        caller
        nobody
        5
        (bytes "/s")
        (bytes "p/srv/Set")
        idle
        6
        call-Asked
        positive
    × ((k : Text)
        → find_key k r.0.clients
          ≡ (if text_eq (bytes "/s") k then some asked else find_key k caller.clients))
    × IsAnswer still trees Text numbering platform
        (tree-JsonLaws host)
        call
        (object done)
        caller
        nobody
        5
        (bytes "/s")
        (bytes "p/srv/Set")
        idle
        6
        call-Asked
        nothing
        m
    × (let answered = handle_response numbering 6 reply asked 9 in
        let end_of : ℕ × Result (Unit {0}) = (11, ok tt) in (answered.1, answered.2) ≡ end_of)
unfolding to_json_message serialized_message_to_json cycdeser load_byte call-Asked
handle_response-call_external_service_example =
    handle_response-call_external_service still trees Text numbering platform (tree-JsonLaws host)
      call (object done) caller nobody 5 (bytes "/s") (bytes "p/srv/Set") idle 6 call-Asked reply
      reply nothing 9 9 refl refl refl

wait_iff_example :
    (wait still trees Text numbering platform idle 3 5 ≡ (6, ok true))
    ↔ Within still trees Text numbering platform idle 3 5 6 true
wait_iff_example = wait_iff still trees Text numbering platform idle 3 5 6 true

process_message-IsReply_example :
    (trees.is_object
        (object (field (bytes "result") (boolean false) (field (bytes "id") (number 7) done)))
      ≡ true)
    × (lookup
          (bytes "id")
          (field (bytes "result") (boolean false) (field (bytes "id") (number 7) done))
        ≡ some (number 7))
unfolding process_message dispatch_op lookup text_eq
process_message-IsReply_example =
    process_message-IsReply still trees Text numbering platform (tree-JsonLaws host)
      (object (field (bytes "op") (text (bytes "?")) (field (bytes "id") (number 7) done))) caller
      caller nobody nobody 5 5
      (object (field (bytes "result") (boolean false) (field (bytes "id") (number 7) done))) refl

abbrev asks : Tree
asks =
    object (
      field (bytes "op") (text (bytes "subscribe"))
        (field (bytes "topic") (text (bytes "/c")) done))

-- Every payload is read as a subscribe message.
abbrev small : Client
small = peers still trees Text numbering platform (λ payload. ok asks)

abbrev or_else : {A : Type 0} → Result A → A → A
or_else (ok a) b = a
or_else (err e) b = b
or_else fault b = b

abbrev opening : Server small
opening = on_open small 5 (started small (connector still Text, 5))

abbrev connected : Server small
connected = or_else (process_messages_round small opening) opening

abbrev listening : Server small
listening = on_message small 5 (bytes "{}") connected

abbrev subscribed_server : Server small
subscribed_server = or_else (process_messages_round small listening) listening

subscribed-Reachable : Reachable small (set 5 opened (λ _. unknown)) subscribed_server
unfolding process_messages_round work process on_open on_message connector subscribe_client
    client_handler send_message_to_node get_con_data find insert process_message dispatch_op lookup
    find_key text_eq client_subscribe_to_topic subscribe_known subscription_params
    subscribe_to_topic obtain_subscription get_subscriber_by_params last_durability
    subscriber_params
subscribed-Reachable = processes refl (
    receives 5 (bytes "{}") refl (processes refl (opens 5 refl (starts (connector still Text, 5)))))

subscribed-HasRoom :
    HasRoom still trees Text numbering platform (λ payload. ok asks) subscribed-Reachable
unfolding HasRoom subscribed-Reachable process_messages_round work process on_open on_message
    connector subscribe_client client_handler send_message_to_node get_con_data find insert
    process_message dispatch_op lookup find_key text_eq client_subscribe_to_topic subscribe_known
    subscription_params subscribe_to_topic obtain_subscription get_subscriber_by_params
    last_durability subscriber_params
subscribed-HasRoom = (omega arith, (omega arith, refl))

Reachable-IsOwned_example :
    IsOwned still trees Text numbering platform (λ payload. ok asks) subscribed_server
Reachable-IsOwned_example =
    Reachable-IsOwned still trees Text numbering platform (λ payload. ok asks) subscribed-Reachable
      subscribed-HasRoom

abbrev listener : ConnectionData small
listener = record {
  client_id = 0;
  node = record {
    topics = record client { client_id = 0; subscriptions = (bytes "/c", 0) ∷ [] };
    clients = [];
  };
  is_alive = true;
}

Reachable-IsReady_example : IsReady still trees Text listener.node.topics
unfolding process_messages_round work process on_open on_message connector subscribe_client
    client_handler send_message_to_node get_con_data find insert process_message dispatch_op lookup
    find_key text_eq client_subscribe_to_topic subscribe_known subscription_params
    subscribe_to_topic obtain_subscription get_subscriber_by_params last_durability
    subscriber_params
Reachable-IsReady_example =
    Reachable-IsReady still trees Text numbering platform (λ payload. ok asks) subscribed-Reachable
      5 listener refl
