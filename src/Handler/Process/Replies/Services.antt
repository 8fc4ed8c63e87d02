-- ===== src/Handler/Process/Replies/Services.antt =====
-- The replies to service calls.
use rws.Base.{Bool, true, false, ◌≡◌, refl, Option, none, some, List, [], ◌∷◌, if◌then◌else◌}
use rws.Base.Result.{Result, ok, err, fault, ◌>>=◌, OkAnd, >>=-OkAnd, Any, OkAnd-Any}
use rws.Base.Text.{Text, bytes, text_eq}
use rws.Base.Keys.{find_key}
use rws.Cdr.Host.{Host}
use rws.Ros.{Ros}
use rws.Json.{Json, JsonLaws}
use rws.Meta.{generate_message_meta}
use rws.Names.{split_ns_node_name}
use rws.Handler.{first_type}
use rws.Handler.Rosapi.{
  Graph, set_value, push_value, push_values, list_topics, rosapi_topics, rosapi_type, arg_at,
  node_topics, node_services, rosapi_node_details, rosapi_services_for_type, call_rosapi,
}
use rws.Handler.Process.Replies.{IsReply, set-IsReply}

module _ (ros : Ros) (json : Json) (Message : Type 0) (host : Host) (laws : JsonLaws json host)
    (id : json.Value) where
  open ros use {World}
  open json use {Value, set}

  abbrev Keeps : Value → Type 0
  Keeps = IsReply json host laws id

  with_key :
      (k : Text) {v response : Value}
      → text_eq (bytes "id") k ≡ false
      → Keeps response
      → Keeps (set k v response)
  with_key k {v} {response} = set-IsReply json host laws id k v response

  set_value-Keeps :
      (key : Text) (v response : Value)
      → Keeps response
      → Keeps (set_value ros json Message key v response)
  unfolding text_eq
  set_value-Keeps key v response p = with_key (bytes "values") refl p

  push_values-Keeps :
      (key : Text) (xs : List Text) (response : Value)
      → Keeps response
      → Keeps (push_values ros json Message key xs response)
  unfolding push_values
  push_values-Keeps key [] response p = p
  push_values-Keeps key (x ∷ xs) response p =
      push_values-Keeps key xs _ (set_value-Keeps key _ response p)

  succeeded-Keeps :
      {response : Value}
      → Keeps response
      → Keeps (set (bytes "result") (json.of_bool true) response)
  unfolding text_eq
  succeeded-Keeps p = with_key (bytes "result") refl p

  -- Behind a value that does not matter.
  reads :
      {A : Type 0} (m : Result A) (f : A → Result Value)
      → ((a : A) → OkAnd Keeps (f a))
      → OkAnd Keeps (m >>= f)
  reads m f h = >>=-OkAnd Any Keeps m f (OkAnd-Any m) (λ a q. h a)

  module _ (graph : Graph ros json Message) (compatible : Bool) (w : World) where
    described :
        (raw : Bool) (type : Text) (listed : Value)
        → Keeps listed
        → OkAnd Keeps (
            if raw
            then (do
              members ← graph.members_of_type type
              meta ← generate_message_meta compatible members
              ok (push_value ros json Message (bytes "typedefs_full_text") meta listed))
            else ok listed)
    described true type listed p = reads (graph.members_of_type type) _ λ members.
        reads (generate_message_meta compatible members) _
          λ meta. set_value-Keeps (bytes "typedefs_full_text") _ listed p
    described false type listed p = p

    list_topics-Keeps :
        (raw : Bool) (topics : List (Text × List Text)) (response : Value)
        → Keeps response
        → OkAnd Keeps (list_topics ros json Message graph compatible w raw topics response)
    unfolding list_topics
    list_topics-Keeps raw [] response p = p
    list_topics-Keeps raw ((topic, types) ∷ topics) response p =
        reads (first_type ros json Message types) _ λ type.
          let listed =
            set_value-Keeps (bytes "types") _ _ (set_value-Keeps (bytes "topics") _ response p) in
          >>=-OkAnd Keeps Keeps _ _ (described raw type _ listed)
            λ d q. list_topics-Keeps raw topics d q

    rosapi_topics-Keeps :
        (raw : Bool) (response : Value)
        → Keeps response
        → OkAnd Keeps (rosapi_topics ros json Message graph compatible w raw response)
    rosapi_topics-Keeps raw response p =
        >>=-OkAnd Keeps Keeps _ _
          (list_topics-Keeps raw (graph.topic_names_and_types w) _
            (set_value-Keeps (bytes "types") _ _ (set_value-Keeps (bytes "topics") _ response p)))
          λ listed q. succeeded-Keeps q

    found_type :
        (o : Option (List Text)) (response : Value)
        → Keeps response
        → OkAnd Keeps (elim o [
          | none ↦ ok response
          | some types ↦ (do
            type ← first_type ros json Message types
            ok (
                set
                  (bytes "result")
                  (json.of_bool true)
                  (set_value ros json Message (bytes "type") (json.of_text type) response)))
        ])
    found_type none response p = p
    found_type (some types) response p =
        reads (first_type ros json Message types) _
          λ type. succeeded-Keeps (set_value-Keeps (bytes "type") _ response p)

    rosapi_type-Keeps :
        (key : Text) (known : List (Text × List Text)) (msg response : Value)
        → Keeps response
        → OkAnd Keeps (rosapi_type ros json Message graph compatible w key known msg response)
    rosapi_type-Keeps key known msg response p =
        reads (arg_at ros json Message key msg) _
          λ name. found_type (find_key name known) response p

    node_topics-Keeps :
        (name : Text) (topics : List (Text × List Text)) (response : Value)
        → Keeps response
        → Keeps (node_topics ros json Message graph compatible w name topics response)
    unfolding node_topics
    node_topics-Keeps name [] response p = p
    node_topics-Keeps name ((topic, types) ∷ topics) response p = node_topics-Keeps name topics _ (
        push_values-Keeps (bytes "publishing") _ _
          (push_values-Keeps (bytes "subscribing") _ response p))

    node_services-Keeps :
        (services : Result (List (Text × List Text))) (response : Value)
        → Keeps response
        → OkAnd Keeps (node_services ros json Message graph compatible w services response)
    node_services-Keeps (ok services) response p = push_values-Keeps (bytes "services") _ response p
    node_services-Keeps (err e) response p = p
    node_services-Keeps fault response p = tt

    rosapi_node_details-Keeps :
        (msg response : Value)
        → Keeps response
        → OkAnd Keeps (rosapi_node_details ros json Message graph compatible w msg response)
    rosapi_node_details-Keeps msg response p =
        let empty = set_value-Keeps (bytes "services") json.empty_array _ (
          set_value-Keeps (bytes "publishing") json.empty_array _
            (set_value-Keeps (bytes "subscribing") json.empty_array response p)) in
        reads (arg_at ros json Message (bytes "node") msg) _ λ node.
          reads (split_ns_node_name node) _ λ split.
            >>=-OkAnd Keeps Keeps _ _
              (node_services-Keeps (graph.services_by_node split.1 split.0 w) _
                (node_topics-Keeps _ _ _ empty))
              λ filled q. succeeded-Keeps q

    rosapi_services_for_type-Keeps :
        (msg response : Value)
        → Keeps response
        → OkAnd Keeps (rosapi_services_for_type ros json Message graph compatible w msg response)
    rosapi_services_for_type-Keeps msg response p =
        reads (arg_at ros json Message (bytes "type") msg) _ λ service_type. succeeded-Keeps (
          push_values-Keeps (bytes "services") _ _
            (set_value-Keeps (bytes "services") _ response p))

    -- What is returned, where something is.
    abbrev pub Answered : Option (Result Value) → Type 0
    Answered none = Unit {0}
    Answered (some r) = OkAnd Keeps r

    if-Answered :
        (b : Bool) (x y : Option (Result Value))
        → Answered x
        → Answered y
        → Answered (if b then x else y)
    if-Answered true x y p q = p
    if-Answered false x y p q = q

    pub call_rosapi-Answered :
        (service : Text) (msg response : Value)
        → Keeps response
        → Answered (call_rosapi ros json Message graph compatible w service msg response)
    unfolding call_rosapi
    call_rosapi-Answered service msg response p =
        if-Answered (text_eq service (bytes "/rosapi/topics_and_raw_types")) _ _
          (rosapi_topics-Keeps true response p)
          (if-Answered (text_eq service (bytes "/rosapi/topics")) _ _
            (rosapi_topics-Keeps false response p)
            (if-Answered (text_eq service (bytes "/rosapi/service_type")) _ _
              (rosapi_type-Keeps (bytes "service") (graph.service_names_and_types w) msg response p)
              (if-Answered (text_eq service (bytes "/rosapi/nodes")) _ _
                (succeeded-Keeps (
                  push_values-Keeps (bytes "nodes") _ _
                    (set_value-Keeps (bytes "nodes") _ response p)))
                (if-Answered (text_eq service (bytes "/rosapi/node_details")) _ _
                  (rosapi_node_details-Keeps msg response p)
                  (if-Answered (text_eq service (bytes "/rosapi/topic_type")) _ _
                    (rosapi_type-Keeps (bytes "topic") (graph.topic_names_and_types w) msg response
                      p)
                    (if-Answered (text_eq service (bytes "/rosapi/services_for_type")) _ _
                      (rosapi_services_for_type-Keeps msg response p) tt))))))
