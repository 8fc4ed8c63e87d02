-- ===== src/Handler/Process/System/Owned.antt =====
-- One action of the server's queue and the subscriber handles.
use rws.Base.{
  ℕ, ◌+◌, ◌^◌, ◌<◌, ◌≡◌, refl, sym, Bool, true, false, Option, none, some, if◌then◌else◌, All, inl,
}
use mathlib.Core.Path.{subst}
use rws.Base.Maps.{find, insert}
use rws.Base.Result.{Result, ok, err, fault, OkAnd}
use rws.Base.Text.{Text}
use rws.Ros.{Ros}
use rws.Connector.{Connector}
use rws.Connector.Handles.{IsValid, sub_ids}
use rws.Json.{Json}
use rws.Server.{
  Action, ConnectionData, Server, get_con_data, destroy_old, send_message_to_node, subscribe_client,
  process, push,
}
use rws.Server.Action.{subscribe, unsubscribe, drop, message, binary_reply, text_reply}
use rws.ServiceClient.{Middleware}
use rws.Handler.Owners.{Claims, All-map}
use rws.Handler.Owners.Destroyed.{destroy_handler-Claims}
use rws.Handler.Owners.Operations.{
  client_subscribe_to_topic-Claims, unsubscribe_from_topic-Claims, client_advertise_topic-Claims,
  unadvertise_topic-Claims, publish_to_topic-Claims,
}
use rws.Handler.External.{Platform, Peer}
use rws.Handler.Process.{peers, node_of, process_parsed, process_message}
use rws.Handler.Process.Kept.{process_message-Kept}
use rws.Handler.Process.System.{
  OwnedBy, IsOwned, Elsewhere, split_some, split_none, join, join_erase,
}

module _ (ros : Ros) (json : Json) (Message : Type 0) (middleware : Middleware ros.World Message)
    (platform : Platform ros json Message middleware) where
  open json use {Value}

  module _ (Other : ℕ → Type 0) where
    abbrev Keeping : Peer ros json Message middleware → Connector ros Message → Type 0
    Keeping p c = Claims ros json Message Other p.topics c

    process_message-Claims :
        (msg : Value) (p : Peer ros json Message middleware) (c : Connector ros Message)
        (w : ros.World)
        → c.next_handler_id + 1 < 2 ^ 64
        → Keeping p c
        → let r = process_message ros json Message middleware platform msg p c w in Keeping r.0 r.1
    process_message-Claims msg p c w room k =
        process_message-Kept ros json Message middleware platform Keeping
          (λ p q c same held. subst (λ h. Claims ros json Message Other h c) same held) c msg p w k
          (record {
            subscribe = λ m r w.
                client_subscribe_to_topic-Claims ros json Message Other m r p.topics c w room k
                  (node_of ros json Message middleware platform p);
            unsubscribe = λ m r w.
                unsubscribe_from_topic-Claims ros json Message Other m r p.topics c w room k;
            advertise = λ m r w.
                client_advertise_topic-Claims ros json Message Other m r p.topics c w room k;
            unadvertise =
                λ m r w. unadvertise_topic-Claims ros json Message Other m r p.topics c w room k;
            publish = λ m r w.
                publish_to_topic-Claims ros json Message Other m r p.topics c w room k
                  platform.publishing platform.host;
          })

    process_parsed-Claims :
        (p : Peer ros json Message middleware) (c : Connector ros Message) (w : ros.World)
        (q : Result Value)
        → c.next_handler_id + 1 < 2 ^ 64
        → Keeping p c
        → let r = process_parsed ros json Message middleware platform p (c, w) q in
          Keeping r.0 r.1.0
    process_parsed-Claims p c w (ok msg) room k = process_message-Claims msg p c w room k
    process_parsed-Claims p c w (err e) room k = k
    process_parsed-Claims p c w fault room k = k

  module _ (parse : Text → Result json.Value) where
    abbrev State : Type 0
    State = Server (peers ros json Message middleware platform parse)

    abbrev Data : Type 0
    Data = ConnectionData (peers ros json Message middleware platform parse)

    abbrev Kept : State → Type 0
    Kept = IsOwned ros json Message middleware platform parse

    -- The handles behind the destruction of what a connection had.
    destroy_old-All :
        (h : ℕ) (s : State) (o : Option Data)
        → s.world.0.next_handler_id + 1 < 2 ^ 64
        → find h s.connections ≡ o
        → Kept s
        → let w = destroy_old (peers ros json Message middleware platform parse) o s.world in
          IsValid ros Message w.0
          × All
              (Elsewhere ros json Message middleware platform parse h s.connections)
              (sub_ids ros Message w.0.subscribers)
    destroy_old-All h s none room e k = (
      k.valid,
      All-map _ (λ i. split_none ros json Message middleware platform parse h s.connections i e)
          k.owned,
    )
    destroy_old-All h s (some cd) room e k =
        destroy_handler-Claims ros json Message
          (Elsewhere ros json Message middleware platform parse h s.connections) cd.node.topics
          s.world.0 s.world.1 room
          (record {
            valid = k.valid;
            owned =
                All-map _
                  (λ i.
                    split_some ros json Message middleware platform parse h s.connections cd i e)
                  k.owned;
          })

    -- A client that stays connected, with a state of its handler that claims its handles.
    stored-Kept :
        (h : ℕ) (s t : State) (cd : Data)
        → t.connections ≡ insert h cd s.connections
        → Claims ros json Message
            (Elsewhere ros json Message middleware platform parse h s.connections)
            cd.node.topics
            t.world.0
        → Kept t
    stored-Kept h s t cd e k = record {
      valid = k.valid;
      owned =
          All-map _
            (λ i o.
              subst (λ m. OwnedBy ros json Message middleware platform parse m i) (sym e)
                (join ros json Message middleware platform parse h s.connections cd i o))
            k.owned;
    }

    Claims-find :
        (h : ℕ) (s : State) (cd : Data)
        → find h s.connections ≡ some cd
        → Kept s
        → Claims ros json Message
            (Elsewhere ros json Message middleware platform parse h s.connections)
            cd.node.topics
            s.world.0
    Claims-find h s cd e k = record {
      valid = k.valid;
      owned =
          All-map _
            (λ i. split_some ros json Message middleware platform parse h s.connections cd i e)
            k.owned;
    }

    answered-Kept :
        (h : ℕ) (s : State) (r : Result Text)
        → Kept s
        → OkAnd Kept (elim r [
          | ok response ↦
              ok (push (peers ros json Message middleware platform parse) (text_reply h response) s)
          | err e ↦ ok s
          | fault ↦ fault
        ])
    answered-Kept h s (ok response) k = record { valid = k.valid; owned = k.owned }
    answered-Kept h s (err e) k = k
    answered-Kept h s fault k = tt

    message-Kept :
        (h : ℕ) (payload : Text) (s : State)
        → s.world.0.next_handler_id + 1 < 2 ^ 64
        → Kept s
        → OkAnd Kept
            (send_message_to_node (peers ros json Message middleware platform parse) h payload s)
    unfolding send_message_to_node get_con_data
    message-Kept h payload s room k = by_entry (find h s.connections) refl
      where
        by_entry :
            (o : Option Data)
            → find h s.connections ≡ o
            → OkAnd Kept (
                send_message_to_node (peers ros json Message middleware platform parse) h payload s)
        by_entry none e = rw (e, send_message_to_node) tt
        by_entry (some cd) e =
            let r =
              process_parsed ros json Message middleware platform cd.node s.world (parse payload) in
            let changed : State = record s {
              connections = insert h (record cd { node = r.0 }) s.connections;
              world = r.1;
            } in
            rw (e, send_message_to_node)
              (answered-Kept h changed r.2 (
                stored-Kept h s changed (record cd { node = r.0 }) refl
                  (process_parsed-Claims _ cd.node s.world.0 s.world.1 (parse payload) room
                    (Claims-find h s cd e k))))

    subscribed-Kept :
        (h : ℕ) (s : State)
        → s.world.0.next_handler_id + 1 < 2 ^ 64
        → Kept s
        → OkAnd Kept (process (peers ros json Message middleware platform parse) (subscribe h) s)
    unfolding process subscribe_client get_con_data
    subscribed-Kept h s room k =
        let cd = (subscribe_client (peers ros json Message middleware platform parse) s).0 in
        let left = destroy_old-All h s (find h s.connections) room refl k in
        record {
          valid = left.0;
          owned =
              All-map _
                (λ i o.
                  join ros json Message middleware platform parse h s.connections cd i (inl o))
                left.1;
        }

    unsubscribed-Kept :
        (h : ℕ) (s : State)
        → s.world.0.next_handler_id + 1 < 2 ^ 64
        → Kept s
        → OkAnd Kept (process (peers ros json Message middleware platform parse) (unsubscribe h) s)
    unfolding process get_con_data
    unsubscribed-Kept h s room k = by_entry (find h s.connections) refl
      where
        by_entry :
            (o : Option Data)
            → find h s.connections ≡ o
            → OkAnd Kept
                (process (peers ros json Message middleware platform parse) (unsubscribe h) s)
        by_entry none e = rw (e, process) tt
        by_entry (some cd) e =
            let left = destroy_old-All h s (some cd) room e k in
            rw (e, process)
              (record {
                valid = left.0;
                owned =
                    All-map _
                      (join_erase ros json Message middleware platform parse h s.connections)
                      left.1;
              })

    dropped-Kept :
        (h : ℕ) (s : State)
        → Kept s
        → OkAnd Kept (process (peers ros json Message middleware platform parse) (drop h) s)
    unfolding process get_con_data
    dropped-Kept h s k = by_entry (find h s.connections) refl
      where
        by_entry :
            (o : Option Data)
            → find h s.connections ≡ o
            → OkAnd Kept (process (peers ros json Message middleware platform parse) (drop h) s)
        by_entry none e = rw (e, process) tt
        by_entry (some cd) e =
            let closed : Data = record cd { is_alive = false } in
            rw (e, process)
              (stored-Kept h s
                (record s { connections = insert h closed s.connections; outputs = _ }) closed refl
                (Claims-find h s cd e k))

    replied-Kept :
        (o : Option Data) (s t : State)
        → Kept s
        → Kept t
        → OkAnd Kept (elim o [ none ↦ ok s | some cd ↦ ok (if cd.is_alive then t else s) ])
    replied-Kept none s t k l = k
    replied-Kept (some cd) s t k l = alive cd.is_alive
      where
        alive : (b : Bool) → Kept (if b then t else s)
        alive true = l
        alive false = k

    pub process-Kept :
        (a : Action) (s : State)
        → s.world.0.next_handler_id + 1 < 2 ^ 64
        → Kept s
        → OkAnd Kept (process (peers ros json Message middleware platform parse) a s)
    unfolding process
    process-Kept (subscribe h) s room k = subscribed-Kept h s room k
    process-Kept (unsubscribe h) s room k = unsubscribed-Kept h s room k
    process-Kept (drop h) s room k = dropped-Kept h s k
    process-Kept (message h payload) s room k = message-Kept h payload s room k
    process-Kept (text_reply h t) s room k =
        replied-Kept (get_con_data (peers ros json Message middleware platform parse) h s) s _ k
          (record { valid = k.valid; owned = k.owned })
    process-Kept (binary_reply h b) s room k =
        replied-Kept (get_con_data (peers ros json Message middleware platform parse) h s) s _ k
          (record { valid = k.valid; owned = k.owned })
