-- ===== src/Handler/Process/Ready.antt =====
-- The topics that a client advertises, through process_message and under every order of events.
use rws.Base.{ℕ, ◌≡◌, sym, some}
use mathlib.Core.Path.{subst}
use rws.Base.Result.{Result, ok, err, fault}
use rws.Base.Text.{Text, bytes}
use rws.Base.Maps.{find}
use rws.Base.Keys.{find_key}
use rws.Ros.{Ros}
use rws.Connector.{Connector}
use rws.Json.{Json}
use rws.Server.{ConnectionData, Server}
use rws.Server.Reach.{Status, Reachable}
use rws.Server.Handlers.{Reachable-Every}
use rws.ServiceClient.{Middleware}
use rws.Handler.{
  Node, ClientHandler, client_handler, text_at, has_text, first_type, subscription_params,
  subscribed, subscribe_known, client_subscribe_to_topic, unsubscribe_from_topic,
}
use rws.Handler.Publishers.Advertised.{
  IsReady, if-keeps, attempt-keeps, if_found-keeps, operations-IsReady,
}
use rws.Handler.External.{Platform, Peer}
use rws.Handler.Process.{peers, node_of, process_parsed, process_message}
use rws.Handler.Process.Kept.{process_message-Kept}

module _ (ros : Ros) (json : Json) (Message : Type 0) where
  open json use {Value, at, get_string}

  abbrev Ready : ClientHandler ros json Message → Type 0
  Ready = IsReady ros json Message

  subscribed-IsReady :
      (h : ClientHandler ros json Message) (topic sub_type : Text) (response : Value)
      (r : Connector ros Message × ros.World × Result ℕ)
      → Ready h
      → Ready (subscribed ros json Message h topic sub_type response r).0
  subscribed-IsReady h topic sub_type response (c, w, ok i) k = k
  subscribed-IsReady h topic sub_type response (c, w, err e) k = k
  subscribed-IsReady h topic sub_type response (c, w, fault) k = k

  module _ (msg before : Value) (h : ClientHandler ros json Message) (c : Connector ros Message)
      (w : ros.World) (k : Ready h) where
    client_subscribe_to_topic-IsReady :
        (node : Node ros json Message)
        → Ready (client_subscribe_to_topic ros json Message node msg before h c w).0
    unfolding client_subscribe_to_topic subscribe_known
    client_subscribe_to_topic-IsReady node =
        if-keeps ros json Message Ready (has_text ros json Message (bytes "topic") msg) _ _
          (attempt-keeps ros json Message Ready h c w (get_string (at (bytes "topic") msg)) _ k
            λ topic.
              if_found-keeps ros json Message Ready (find_key topic (node.topic_names_and_types w))
                _ _
                (λ types _.
                  attempt-keeps ros json Message Ready h c w (first_type ros json Message types) _ k
                    λ sub_type.
                      attempt-keeps ros json Message Ready h c w
                        (subscription_params ros json Message node topic sub_type msg) _ k
                        λ params.
                          if_found-keeps ros json Message Ready (find_key topic h.subscriptions) _ _
                            (λ i _. k) (subscribed-IsReady h topic sub_type _ _ k))
                k)
          k

    unsubscribe_from_topic-IsReady :
        Ready (unsubscribe_from_topic ros json Message msg before h c w).0
    unfolding unsubscribe_from_topic
    unsubscribe_from_topic-IsReady =
        attempt-keeps ros json Message Ready h c w (text_at ros json Message (bytes "topic") msg) _
          k
          λ topic.
            if_found-keeps ros json Message Ready (find_key topic h.subscriptions) _ _ (λ i _. k) k

  module _ (middleware : Middleware ros.World Message)
      (platform : Platform ros json Message middleware) where
    -- A client with a type and a publisher for every topic that it has advertised has them behind
    -- every message, whatever it holds and whatever the node answers.
    pub process_message-IsReady :
        (msg : Value) (p : Peer ros json Message middleware) (c : Connector ros Message)
        (w : ros.World)
        → IsReady ros json Message p.topics
        → IsReady ros json Message
            (process_message ros json Message middleware platform msg p c w).0.topics
    process_message-IsReady msg p c w k =
        let ready = λ (m r : Value) (w : ros.World).
          operations-IsReady ros json Message platform.publishing platform.host m r p.topics c w
            k in
        process_message-Kept ros json Message middleware platform (λ p c. Ready p.topics)
          (λ p q c same held. subst Ready same held) c msg p w k
          (record {
            subscribe = λ m r w.
                client_subscribe_to_topic-IsReady m r p.topics c w k
                  (node_of ros json Message middleware platform p);
            unsubscribe = λ m r w. unsubscribe_from_topic-IsReady m r p.topics c w k;
            advertise = λ m r w. (ready m r w).0;
            unadvertise = λ m r w. (ready m r w).1;
            publish = λ m r w. subst Ready (sym (ready m r w).2) k;
          })

    process_parsed-IsReady :
        (p : Peer ros json Message middleware) (shared : Connector ros Message × ros.World)
        (q : Result Value)
        → Ready p.topics
        → Ready (process_parsed ros json Message middleware platform p shared q).0.topics
    process_parsed-IsReady p (c, w) (ok msg) k = process_message-IsReady msg p c w k
    process_parsed-IsReady p shared (err e) k = k
    process_parsed-IsReady p shared fault k = k

    client_handler-IsReady : (id : ℕ) → Ready (client_handler ros json Message id)
    unfolding client_handler find_key
    client_handler-IsReady id topic i e = absurd (cc e)

    -- Under every order of events, as long as no pong timeout comes for a connection that is not
    -- open and still has its entry, each connected client has a type and a publisher for every
    -- topic that it has advertised.
    pub Reachable-IsReady :
        (parse : Text → Result Value) {net : ℕ → Status}
        {s : Server (peers ros json Message middleware platform parse)}
        → Reachable (peers ros json Message middleware platform parse) net s
        → (hdl : ℕ) (cd : ConnectionData (peers ros json Message middleware platform parse))
        → find hdl s.connections ≡ some cd
        → IsReady ros json Message cd.node.topics
    Reachable-IsReady parse r =
        Reachable-Every (peers ros json Message middleware platform parse) (λ p. Ready p.topics)
          (record {
            constructed = λ id w. client_handler-IsReady id;
            processed = λ payload p shared k. process_parsed-IsReady p shared (parse payload) k;
          })
          r
