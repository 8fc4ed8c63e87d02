-- ===== src/Lib.antt =====
-- rws: a websocket server that makes the topics and services of ROS 2 available to web clients.
--
-- The program has these parts. The websocket threads put actions in a queue, and one thread of
-- ServerNode (src/server_node.cpp) works them off: it opens and closes connections, hands messages
-- to the ClientHandler of their connection and sends the replies. The client handlers share a
-- Connector (include/rws/connector.hpp), which keeps their subscriptions and publishers and passes
-- the messages of a topic on. A message travels as CDR bytes, which the classes of src/serdes.hpp
-- read and write for src/translate.cpp.
--
-- Files:
-- - Base: the shared names and helpers: tests on numbers (Base/Tests), lists (Base/Lists), the
--   results of functions that throw (Base/Result), calls in a world (Base/Run), bit operations (Base/Bits), std::string as a list
--   of bytes (Base/Text), std::map (Base/Maps, Base/Keys).
-- - Cdr/Host: the byte order and sizeof(wchar_t) of a machine, the bytes of a scalar in memory, and
--   bswap2u, bswap4u and bswap8u of cycdeserbase. Cdr/Swap: their laws.
-- - Cdr/Ser: class cycser. A Cycser is the buffer `dst` and the offset `off`; `serialize` is SER(T),
--   `serialize_array` is SER_A(T), `insert` is the operator <<. Cdr/Ser/Layout: the format it writes.
--   Cdr/Ser/Arrays: arrays.
-- - Cdr/Deser: classes cycdeserbase and cycdeser. `deserialize` is DESER(T, fn_swap),
--   `deserialize_array` is DESER_A(T, fn_swap), `extract` is the operator >>. Cdr/Deser/At and
--   Cdr/Deser/Reads: reading what was written. Cdr/Deser/Safety: reading arbitrary bytes.
--   Cdr/Deser/Arrays: arrays.
-- - Cdr/Print: class cycprint, which prints the values of a buffer to memory of a given size.
--   Cdr/Print/Cut: a text that does not fit. Cdr/Print/Bounds: arbitrary bytes. Cdr/Print/Shown: the
--   values that are printed.
-- - Cdr/RoundTrip: a writer on one host and a reader on another.
-- - Params: struct topic_params. Ros: what the code uses of rclcpp, as a record of operations.
-- - Connector: class Connector; each method is a function of its name on the state and the world.
--   Connector/Handles: handle ids. Connector/Release: the closures. Connector/Dispatch: messages.
--   Connector/Sharing: shared subscriptions.
-- - Names: the functions of src/typesupport_helpers.cpp that take names of types and nodes apart.
--   Names/Find: searching. Names/Style: the names of ROS 1 and ROS 2. Names/Split: the parts of a name.
-- - Typesupport: the cache of libraries and the raw messages of src/typesupport_helpers.cpp.
--   Typesupport/Cached: libraries that are loaded. Typesupport/Inside: the objects in a message.
-- - Members: the descriptors of message types. Json: what the code uses of nlohmann::json, as a record
--   of operations, and its documented behaviour as a record of laws; Json/Tree is an instance and
--   Json/Tree/Laws proves the laws for it. Json/Objects: what an object holds.
-- - Translate: src/translate.cpp; `to_json_message` and `to_serialized_message` are the functions of
--   its header behind the lookup of the members, the others have their names, and each loop is a
--   function on the number of rounds that are left. Translate/Values: the values of a message, as a
--   list. Translate/Writes: the writer. Translate/Reads, Fields, Parts, Arrays and ReadBack: reading
--   values back, then fields, members, arrays of messages and messages. Translate/Sound: the types
--   for which this works. Translate/RoundTrip: whole buffers. Translate/Safety: arbitrary bytes.
-- - Meta: members_to_meta and generate_message_meta of src/translate.cpp. Meta/Closed: the types that
--   are collected. Meta/Decimal: the numbers in the text, whose recursion is given one round more than
--   the number.
-- - Handler: subscribe, unsubscribe and the destructor of class ClientHandler on the shared connector.
--   Handler/Publishers: advertise, unadvertise and publish, with Handler/Publishers/Advertised and
--   Handler/Publishers/Session about their state. Handler/Subscription: send_message and
--   subscription_callback; Handler/Subscription/Stamp: the time in a raw message;
--   Handler/Subscription/Sent: what becomes of a message for a client;
--   Handler/Subscription/Delivery: from a publisher's JSON to a subscriber's.
--   Handler/Rosapi: the services that call_service answers itself.
--   Handler/Session: a subscription from its start to its end. Handler/Destructor: what is released.
--   Handler/Owners: whose the subscriber handles are, through the operations and the destructor.
-- - Handler/External: call_external_service, with the client handler's service clients.
--   Handler/External/Wait: its loop. Handler/External/Answer: a call and its answer.
-- - Handler/Process: call_service, process_message, and `peers`, the client handlers as the server uses
--   them. Handler/Process/Replies and Keeps: the responses. Handler/Process/Kept: what a message keeps.
--   Handler/Process/Ready: the topics that a client advertises. Handler/Process/System: the server, the
--   client handlers and the connector together.
-- - ServiceClient: class GenericClient, and get_service_typesupport_handle of
--   src/typesupport_helpers.cpp. ServiceClient/Answers: requests and their answers.
-- - Server: class ServerNode; `process` is the chain of tests on the action's type, `work` one turn of
--   the loop, and the handlers have their names. Server/Queue: what an action does to a connection.
--   Server/Reach: the orders of events, but for a
--   pong timeout of a connection that is not open and still has its entry. Server/Rounds: a round in each of them. Server/Drain: the loop
--   until the queue is empty. Server/Timeout: a late pong timeout. Server/Handlers: what all client
--   handlers have.
-- - The Tests files: concrete hosts, middleware and clients, and runs on them.
--
-- A scalar is the number of its bit pattern, so signed and floating point types are not told apart
-- from unsigned ones of the same width; a float in JSON is one that keeps its bits as a double,
-- which leaves a signalling NaN aside. Buffers are below 2 ^ 63 bytes; size_t arithmetic that can
-- wrap below that is written out. An access outside a buffer or through the null pointer is the
-- result `fault`, an exception is `err`. The loop of the processing thread runs for a number of
-- turns; two for each message in the queue and one for each other action are enough to empty it,
-- since only a message can add a reply. The loop of call_external_service runs for at most `rounds`
-- rounds, a parameter; behind them the result is out_of_rounds, an error of the model. A callback
-- of a client and the answers of rclcpp are parameters. Calls of the connector are taken one after
-- the other. The messages that are logged, the joins of threads and sockets are left out.
--
-- Not modelled: the lookup of members by a type's name in src/translate.cpp, a call of libraries;
-- main, the launch file and include/rws/node_interface_impl.hpp, which call other libraries only.
-- What an operation of a client handler returns besides the response is only logged, and is left
-- out.
pub mod Base
pub mod Params
pub mod Ros
pub mod Cdr
pub mod Connector
pub mod Names
pub mod Server
pub mod Handler
pub mod Json
pub mod Members
pub mod Meta
pub mod ServiceClient
pub mod Translate
pub mod Typesupport
