-- ===== src/Handler/Process.antt =====
-- ClientHandler::process_message and call_service, and the client handler as the server uses it. The
-- handlers share the connector and the world of the node. What the six operations return is only
-- logged.
pub mod Replies
pub mod Keeps
pub mod Kept
pub mod Ready
pub mod System
mod Tests
use rws.Base.{ℕ, Bool, true, false, not, ◌||◌, Option, none, some, List, [], if◌then◌else◌}
use rws.Base.Result.{Result, ok, err, fault, json_error, ◌>>=◌}
use rws.Base.Text.{Text, bytes, text_eq}
use rws.Ros.{Ros}
use rws.Connector.{Connector}
use rws.Json.{Json}
use rws.Server.{Client}
use rws.ServiceClient.{Middleware}
use rws.Handler.{
  Node, Reached, client_handler, client_subscribe_to_topic, unsubscribe_from_topic, destroy_handler,
}
use rws.Handler.Publishers.{client_advertise_topic, unadvertise_topic, publish_to_topic}
use rws.Handler.Subscription.{subscription_callback}
use rws.Handler.Rosapi.{call_rosapi}
use rws.Handler.External.{
  Peer, Platform, PeerReached, peer_keeping, peer_attempt, peer_if_found, call_external_service,
}

module _ (ros : Ros) (json : Json) (Message : Type 0) (middleware : Middleware ros.World Message)
    (platform : Platform ros json Message middleware) where
  open ros use {World}
  open json use {
    Value, contains, at, set, null, is_null, is_object, find_member, get_string, of_text, of_bool,
  }
  open platform use {host, graph, publishing, duration, sending, rosbridge_compatible}

  abbrev pub peer : ℕ → Peer ros json Message middleware
  peer id = record { topics = client_handler ros json Message id; clients = [] }

  abbrev pub node_of : Peer ros json Message middleware → Node ros json Message
  node_of p = record {
    topic_names_and_types = graph.topic_names_and_types;
    duration = duration;
    subscription_callback =
        subscription_callback ros json Message (sending p.topics.client_id) host;
  }

  abbrev pub service_started : Text → Value → Value
  service_started service response = set (bytes "result") (of_bool false) (
      set (bytes "service") (of_text service)
        (set (bytes "op") (of_text (bytes "service_response")) response))

  unfoldable pub call_service :
      Value
      → Value
      → Peer ros json Message middleware
      → Connector ros Message
      → World
      → PeerReached ros json Message middleware
  call_service msg before p c w =
      if not (contains (bytes "service") msg)
      then peer_keeping ros json Message middleware p c w (ok before)
      else peer_attempt ros json Message middleware p c (w, get_string (at (bytes "service") msg))
          (λ service w.
            let response = service_started service before in
            peer_if_found ros json Message middleware
              (call_rosapi ros json Message graph rosbridge_compatible w service msg response)
              (peer_keeping ros json Message middleware p c w)
              (call_external_service ros json Message middleware platform msg response p c w))

  abbrev pub on_topics :
      Peer ros json Message middleware
      → Reached ros json Message
      → PeerReached ros json Message middleware
  on_topics p (h, c, w, r) = (record p { topics = h }, c, w, r)

  -- The operations; the names are all different.
  unfoldable pub dispatch_op :
      Text
      → Value
      → Value
      → Peer ros json Message middleware
      → Connector ros Message
      → World
      → PeerReached ros json Message middleware
  dispatch_op op msg response p c w =
      let is : Text → Bool = text_eq op in
      let h = p.topics in
      if is (bytes "call_service")
      then call_service msg response p c w
      else if is (bytes "subscribe")
      then on_topics p (client_subscribe_to_topic ros json Message (node_of p) msg response h c w)
      else if is (bytes "advertise")
      then on_topics p (client_advertise_topic ros json Message msg response h c w)
      else if is (bytes "unadvertise")
      then on_topics p (unadvertise_topic ros json Message msg response h c w)
      else if is (bytes "publish")
      then on_topics p (publish_to_topic ros json Message publishing host msg response h c w)
      else if is (bytes "unsubscribe")
      then on_topics p (unsubscribe_from_topic ros json Message msg response h c w)
      else peer_keeping ros json Message middleware p c w (ok response)

  abbrev pub member_or_null : Option Value → Value
  member_or_null none = null
  member_or_null (some v) = v

  -- `msg["id"]`, which puts null where there is none.
  abbrev pub with_id : Value → Result (Value × Value)
  with_id msg =
      if is_null msg || is_object msg
      then (let id = member_or_null (find_member (bytes "id") msg) in
          ok (id, (if contains (bytes "id") msg then msg else set (bytes "id") null msg)))
      else err json_error

  abbrev pub response_to : Value → Value
  response_to id = set (bytes "result") (of_bool false) (set (bytes "id") id null)

  unfoldable pub process_message :
      Value
      → Peer ros json Message middleware
      → Connector ros Message
      → World
      → PeerReached ros json Message middleware
  process_message given p c w =
      peer_attempt ros json Message middleware p c (w, with_id given)
        λ r w.
          let msg = r.1 in
          let response = response_to r.0 in
          if not (contains (bytes "op") msg)
          then peer_keeping ros json Message middleware p c w
              (ok (set (bytes "error") (of_text (bytes "No op specified")) response))
          else peer_attempt ros json Message middleware p c (w, get_string (at (bytes "op") msg))
              (λ op w. dispatch_op op msg response p c w)

  -- What ServerNode::send_message_to_node does with a payload, behind json::parse.
  abbrev pub dumped :
      Peer ros json Message middleware
      → PeerReached ros json Message middleware
      → Peer ros json Message middleware × (Connector ros Message × World) × Result Text
  dumped before (p, c, w, r) = (p, (c, w), r >>= (sending before.topics.client_id).dump)

  abbrev pub process_parsed :
      Peer ros json Message middleware
      → Connector ros Message × World
      → Result Value
      → Peer ros json Message middleware × (Connector ros Message × World) × Result Text
  process_parsed p (c, w) (ok msg) = dumped p (process_message msg p c w)
  process_parsed p shared (err e) = (p, shared, err e)
  process_parsed p shared fault = (p, shared, fault)

  abbrev pub destroy_peer :
      Peer ros json Message middleware
      → Connector ros Message × World
      → Connector ros Message × World
  destroy_peer p (c, w) = (destroy_handler ros json Message p.topics c, w)

  -- The client handlers of the server, with json::parse.
  abbrev pub peers : (Text → Result Value) → Client
  peers parse = record {
    Handler = Peer ros json Message middleware;
    World = Connector ros Message × World;
    construct = λ id shared. (peer id, shared);
    destroy = destroy_peer;
    process_payload = λ payload p shared. process_parsed p shared (parse payload);
  }
