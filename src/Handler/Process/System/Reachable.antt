-- ===== src/Handler/Process/System/Reachable.antt =====
-- The subscriber handles of the connector under every order of events of the server.
use rws.Base.{
  ℕ, ◌+◌, ◌^◌, ◌<◌, ◌≡◌, sym, All, Bool, true, false, Option, none, some, List, [], ◌∷◌,
  if◌then◌else◌,
}
use mathlib.Core.Path.{subst}
use rws.Base.Result.{Result, ok, OkAnd, if-holds}
use rws.Base.Text.{Text}
use rws.Ros.{Ros}
use rws.Connector.{Connector, connector}
use rws.Connector.Handles.{IsValid, sub_ids}
use rws.Json.{Json}
use rws.Server.{
  Action, ConnectionData, Server, get_con_data, work, process, process_messages_round, push,
  on_open, on_close, on_message, send_text_callback, send_binary_callback, on_pong_timeout,
  ping_all_clients, shutdown,
}
use rws.Server.Action.{drop}
use rws.Server.Reach.{
  Status, started, Reachable, starts, opens, closes, receives, times_out, sends_text, sends_binary,
  pings, shuts_down, processes,
}
use rws.ServiceClient.{Middleware}
use rws.Handler.External.{Platform}
use rws.Handler.Process.{peers}
use rws.Handler.Process.System.{IsOwned, OwnedBy}
use rws.Handler.Process.System.Owned.{process-Kept}

module _ (ros : Ros) (json : Json) (Message : Type 0) (middleware : Middleware ros.World Message)
    (platform : Platform ros json Message middleware) (parse : Text → Result json.Value) where
  abbrev State : Type 0
  State = Server (peers ros json Message middleware platform parse)

  abbrev Kept : State → Type 0
  Kept = IsOwned ros json Message middleware platform parse

  abbrev Reached : (ℕ → Status) → State → Type 0
  Reached = Reachable (peers ros json Message middleware platform parse)

  -- The connector is new at the start, and its counter has not run out before any round.
  unfoldable pub HasRoom : {net : ℕ → Status} {s : State} → Reached net s → Type 0
  HasRoom (starts w) = w.0 ≡ connector ros Message
  HasRoom (opens h e r) = HasRoom r
  HasRoom (closes h e r) = HasRoom r
  HasRoom (receives h m e r) = HasRoom r
  HasRoom (times_out h expired e r) = HasRoom r
  HasRoom (sends_text h m r) = HasRoom r
  HasRoom (sends_binary h m r) = HasRoom r
  HasRoom (pings r) = HasRoom r
  HasRoom (shuts_down r) = HasRoom r
  HasRoom (processes {s = s} e r) = (s.world.0.next_handler_id + 1 < 2 ^ 64) × HasRoom r

  work-Kept :
      (q : List Action) (s : State)
      → s.world.0.next_handler_id + 1 < 2 ^ 64
      → Kept s
      → OkAnd Kept (work (peers ros json Message middleware platform parse) q s)
  unfolding work
  work-Kept [] s room k = k
  work-Kept (a ∷ rest) s room k = running s.running
    where
      running :
          (b : Bool)
          → OkAnd Kept (
              if b
              then process
                  (peers ros json Message middleware platform parse)
                  a
                  (record s { actions = rest })
              else ok s)
      running true =
          process-Kept ros json Message middleware platform parse a (record s { actions = rest })
            room (record { valid = k.valid; owned = k.owned })
      running false = k

  pushed :
      (a : Action) (s : State)
      → Kept s
      → Kept (push (peers ros json Message middleware platform parse) a s)
  pushed a s k = record { valid = k.valid; owned = k.owned }

  timed_out :
      (expired : Bool) (h : ℕ) (s : State)
      → Kept s
      → Kept (on_pong_timeout (peers ros json Message middleware platform parse) expired h s)
  unfolding on_pong_timeout
  timed_out true h s k = k
  timed_out false h s k =
      by_entry (get_con_data (peers ros json Message middleware platform parse) h s)
    where
      by_entry :
          (o : Option (ConnectionData (peers ros json Message middleware platform parse)))
          → Kept (elim o [
            | none ↦ s
            | some cd ↦ push (peers ros json Message middleware platform parse) (drop h) s
          ])
      by_entry none = k
      by_entry (some cd) = pushed (drop h) s k

  shut_down :
      (s : State) → Kept s → Kept (shutdown (peers ros json Message middleware platform parse) s)
  unfolding shutdown
  shut_down s k = if-holds Kept s.running (record { valid = k.valid; owned = k.owned }) k

  started_Kept :
      (w : Connector ros Message × ros.World)
      → w.0 ≡ connector ros Message
      → Kept (started (peers ros json Message middleware platform parse) w)
  unfolding connector
  started_Kept w e = record {
    valid =
        subst (IsValid ros Message) (sym e)
          (record { subscribers_fresh = tt; publishers_fresh = tt });
    owned =
        subst
          (λ c.
            All (OwnedBy ros json Message middleware platform parse [])
              (sub_ids ros Message c.subscribers))
          (sym e) tt;
  }

  -- From a start with a new connector, as long as the 64 bits of its counter last: under every
  -- order of events of the endpoint, of the clients' messages and of the processing thread, as long
  -- as no pong timeout comes for a connection that is not open and still has its entry, each
  -- subscriber handle of the connector is one whose closure a connected client holds for a topic,
  -- and the handle ids are distinct and below the next one.
  pub Reachable-IsOwned :
      {net : ℕ → Status} {s : State} (r : Reached net s)
      → HasRoom r
      → IsOwned ros json Message middleware platform parse s
  unfolding HasRoom process_messages_round on_open on_close on_message send_text_callback
      send_binary_callback ping_all_clients
  Reachable-IsOwned (starts w) room = started_Kept w room
  Reachable-IsOwned (opens h e r) room = pushed _ _ (Reachable-IsOwned r room)
  Reachable-IsOwned (closes h e r) room = pushed _ _ (Reachable-IsOwned r room)
  Reachable-IsOwned (receives h m e r) room = pushed _ _ (Reachable-IsOwned r room)
  Reachable-IsOwned (times_out h expired e r) room =
      timed_out expired h _ (Reachable-IsOwned r room)
  Reachable-IsOwned (sends_text h m r) room = pushed _ _ (Reachable-IsOwned r room)
  Reachable-IsOwned (sends_binary h m r) room = pushed _ _ (Reachable-IsOwned r room)
  Reachable-IsOwned (pings r) room =
      let k = Reachable-IsOwned r room in record { valid = k.valid; owned = k.owned }
  Reachable-IsOwned (shuts_down r) room = shut_down _ (Reachable-IsOwned r room)
  Reachable-IsOwned (processes {s = s} e r) room =
      subst (OkAnd Kept) e (work-Kept s.actions s room.0 (Reachable-IsOwned r room.1))
