-- ===== src/Handler/Rosapi.antt =====
-- The services that ClientHandler::call_service answers itself; `none` is the call of
-- call_external_service at its end. What it returns is only logged.
mod Tests
use rws.Base.{
  ℕ, Bool, true, false, not, ◌&&◌, ◌||◌, Option, none, some, List, [], ◌∷◌, ◌++◌, if◌then◌else◌,
}
use rws.Base.Result.{Result, ok, err, fault, json_error, ◌>>=◌}
use rws.Base.Text.{Text, bytes, text_eq}
use rws.Base.Keys.{find_key}
use rws.Names.{split_ns_node_name}
use rws.Ros.{Ros}
use rws.Members.{Members}
use rws.Meta.{generate_message_meta}
use rws.Json.{Json}
use rws.Handler.{text_at, first_type}

-- rclcpp::TopicEndpointInfo, as far as it is read.
pub record Endpoint : Type 0 where
  pub node_name : Text
  pub node_namespace : Text

module _ (ros : Ros) (json : Json) (Message : Type 0) where
  open ros use {World}
  open json use {
    Value, contains, at, set, null, is_object, size, find_member, empty_array, set_item, get_string,
    of_text, of_bool,
  }

  -- What the code asks of the node and of the type support; maps in the order of their keys.
  pub record Graph : Type 0 where
    pub topic_names_and_types : World → List (Text × List Text)
    pub service_names_and_types : World → List (Text × List Text)
    pub node_names : World → List Text
    pub subscriptions_info_by_topic : Text → World → List Endpoint
    pub publishers_info_by_topic : Text → World → List Endpoint
    pub services_by_node : Text → Text → World → Result (List (Text × List Text))
    pub members_of_type : Text → Result Members

  abbrev pub or_new : Option Value → Value
  or_new none = null
  or_new (some v) = v

  -- `response["values"][key] = v`
  abbrev pub set_value : Text → Value → Value → Value
  set_value key v response =
      let values = or_new (find_member (bytes "values") response) in
      set (bytes "values") (set key v values) response

  -- `response["values"][key].push_back(x)`, on an array or nothing.
  abbrev pub push_value : Text → Text → Value → Value
  push_value key x response =
      let values = or_new (find_member (bytes "values") response) in
      let items = or_new (find_member key values) in
      set_value key (set_item (size items) (of_text x) items) response

  unfoldable pub push_values : Text → List Text → Value → Value
  push_values key [] response = response
  push_values key (x ∷ xs) response = push_values key xs (push_value key x response)

  abbrev pub succeeded : Value → Value
  succeeded response = set (bytes "result") (of_bool true) response

  -- `msg["args"][key]`, as a string.
  abbrev pub arg_at : Text → Value → Result Text
  arg_at key msg =
      if contains (bytes "args") msg
      then (if is_object (at (bytes "args") msg)
          then text_at ros json Message key (at (bytes "args") msg)
          else err json_error)
      else fault

  module _ (graph : Graph) (rosbridge_compatible : Bool) (w : World) where
    open graph use {
      topic_names_and_types, service_names_and_types, node_names, subscriptions_info_by_topic,
      publishers_info_by_topic, services_by_node, members_of_type,
    }

    -- The loop of /rosapi/topics; with `raw` it adds the definitions.
    unfoldable pub list_topics : Bool → List (Text × List Text) → Value → Result Value
    list_topics raw [] response = ok response
    list_topics raw ((topic, types) ∷ topics) response = do
      type ← first_type ros json Message types
      let listed = push_value (bytes "types") type (push_value (bytes "topics") topic response)
      described ←
          if raw
          then (do
            members ← members_of_type type
            meta ← generate_message_meta rosbridge_compatible members
            ok (push_value (bytes "typedefs_full_text") meta listed))
          else ok listed
      list_topics raw topics described

    abbrev pub rosapi_topics : Bool → Value → Result Value
    rosapi_topics raw response = do
      listed ←
          list_topics raw (topic_names_and_types w) (
            set_value (bytes "types") empty_array (set_value (bytes "topics") empty_array response))
      ok (succeeded listed)

    -- The first type of a topic or a service, under the name that the message has in `key`.
    abbrev pub rosapi_type : Text → List (Text × List Text) → Value → Value → Result Value
    rosapi_type key known msg response = do
      name ← arg_at key msg
      elim (find_key name known) [
        | none ↦ ok response
        | some types ↦ (do
          type ← first_type ros json Message types
          ok (succeeded (set_value (bytes "type") (of_text type) response)))
      ]

    abbrev pub rosapi_nodes : Value → Result Value
    rosapi_nodes response = ok (
        succeeded (
          push_values (bytes "nodes") (node_names w)
            (set_value (bytes "nodes") empty_array response)))

    -- The topic, once for each endpoint of the node.
    unfoldable pub of_node : Text → Text → List Endpoint → List Text
    of_node name topic [] = []
    of_node name topic (e ∷ es) =
        let others = of_node name topic es in
        let ns = if text_eq e.node_namespace (bytes "/") then [] else e.node_namespace in
        if text_eq (ns ++ e.node_name) name then topic ∷ others else others

    unfoldable pub node_topics : Text → List (Text × List Text) → Value → Value
    node_topics name [] response = response
    node_topics name ((topic, types) ∷ topics) response = node_topics name topics (
        push_values (bytes "publishing") (of_node name topic (publishers_info_by_topic topic w)) (
          push_values (bytes "subscribing")
            (of_node name topic (subscriptions_info_by_topic topic w)) response))

    unfoldable pub keys_of : List (Text × List Text) → List Text
    keys_of [] = []
    keys_of ((k, v) ∷ m) = k ∷ keys_of m

    -- An exception of the node is logged.
    abbrev pub node_services : Result (List (Text × List Text)) → Value → Result Value
    node_services (ok services) response =
        ok (push_values (bytes "services") (keys_of services) response)
    node_services (err e) response = ok response
    node_services fault response = fault

    abbrev pub rosapi_node_details : Value → Value → Result Value
    rosapi_node_details msg response = do
      let empty = set_value (bytes "services") empty_array (
          set_value (bytes "publishing") empty_array
            (set_value (bytes "subscribing") empty_array response))
      node ← arg_at (bytes "node") msg
      (ns, node_name) ← split_ns_node_name node
      let listed = node_topics (ns ++ node_name) (topic_names_and_types w) empty
      filled ← node_services (services_by_node node_name ns w) listed
      ok (succeeded filled)

    unfoldable pub is_one_of : Text → List Text → Bool
    is_one_of t [] = false
    is_one_of t (s ∷ ss) = text_eq s t || is_one_of t ss

    unfoldable pub with_type : Text → List (Text × List Text) → List Text
    with_type t [] = []
    with_type t ((name, types) ∷ services) =
        let others = with_type t services in if is_one_of t types then name ∷ others else others

    abbrev pub rosapi_services_for_type : Value → Value → Result Value
    rosapi_services_for_type msg response = do
      service_type ← arg_at (bytes "type") msg
      ok (
          succeeded (
            push_values (bytes "services") (with_type service_type (service_names_and_types w))
              (set_value (bytes "services") empty_array response)))

    unfoldable pub call_rosapi : Text → Value → Value → Option (Result Value)
    call_rosapi service msg response =
        let is : Text → Bool = text_eq service in
        if is (bytes "/rosapi/topics_and_raw_types")
        then some (rosapi_topics true response)
        else if is (bytes "/rosapi/topics")
        then some (rosapi_topics false response)
        else if is (bytes "/rosapi/service_type")
        then some (rosapi_type (bytes "service") (service_names_and_types w) msg response)
        else if is (bytes "/rosapi/nodes")
        then some (rosapi_nodes response)
        else if is (bytes "/rosapi/node_details")
        then some (rosapi_node_details msg response)
        else if is (bytes "/rosapi/topic_type")
        then some (rosapi_type (bytes "topic") (topic_names_and_types w) msg response)
        else if is (bytes "/rosapi/services_for_type")
        then some (rosapi_services_for_type msg response)
        else none
