-- ===== src/Server.antt =====
-- src/server_node.cpp: the connections, the queue of actions that the websocket threads fill, and
-- the thread that works it off. A connection_hdl is a number; a dereference of the null pointer that
-- get_con_data returns for an unknown connection is a `fault`. Logging is left out.
mod Tests
pub mod Queue
pub mod Reach
pub mod Rounds
pub mod Drain
pub mod Timeout
pub mod Handlers
use rws.Base.{
  ℕ, ◌+◌, ◌%◌, ◌^◌, Bool, true, false, Option, none, some, List, [], ◌∷◌, ◌++◌, if◌then◌else◌, map,
}
use rws.Base.Maps.{find, insert, erase}
use rws.Base.Result.{Result, ok, err, fault}
use rws.Base.Text.{Text, bytes}

-- What the server uses of a ClientHandler: the constructor, the destructor, and json::parse,
-- process_message and dump on a payload. `World` is what the handlers share.
pub record Client : Type 1 where
  pub Handler : Type 0
  pub World : Type 0
  pub construct : ℕ → World → Handler × World
  pub destroy : Handler → World → World
  pub process_payload : Text → Handler → World → Handler × World × Result Text

-- enum action_type and struct action, with the members that each type sets.
pub data Action : Type 0 where
  subscribe unsubscribe drop : ℕ → Action
  message : ℕ → Text → Action
  binary_reply : ℕ → List ℕ → Action
  text_reply : ℕ → Text → Action

-- Calls of the websocket endpoint; what they throw is caught and logged.
pub data Output : Type 0 where
  send_text : ℕ → Text → Output
  send_binary : ℕ → List ℕ → Output
  ping pause_reading : ℕ → Output
  close : ℕ → Text → Output
  stop_listening : Output

module _ (client : Client) where
  open client use {Handler, World, construct, destroy, process_payload}

  pub record ConnectionData : Type 0 where
    pub client_id : ℕ
    pub node : Handler
    pub is_alive : Bool

  pub record Server : Type 0 where
    pub running : Bool
    pub connections : List (ℕ × ConnectionData)
    pub next_client_id : ℕ
    pub actions : List Action
    pub world : World
    pub outputs : List Output

  unfoldable pub get_con_data : ℕ → Server → Option ConnectionData
  get_con_data hdl s = find hdl s.connections

  abbrev pub emit : Output → Server → Server
  emit o s = record s { outputs = s.outputs ++ o ∷ [] }

  abbrev pub push : Action → Server → Server
  push a s = record s { actions = s.actions ++ a ∷ [] }

  -- ServerNode::subscribe; the id is an int.
  unfoldable pub subscribe_client : Server → ConnectionData × Server
  subscribe_client s =
      let id = s.next_client_id % 2 ^ 32 in
      let (h, w) = construct id s.world in
      (
        record { client_id = id; node = h; is_alive = true },
        record s { next_client_id = (s.next_client_id + 1) % 2 ^ 64; world = w },
      )

  -- The handler that a message has changed, with its reply put in the queue. Exceptions are caught:
  -- then there is no reply.
  unfoldable pub send_message_to_node : ℕ → Text → Server → Result Server
  send_message_to_node hdl payload s = elim (get_con_data hdl s) [
    | none ↦ fault
    | some cd ↦
        let (h, w, r) = process_payload payload cd.node s.world in
        let changed : Server = record s {
          connections = insert hdl (record cd { node = h }) s.connections;
          world = w;
        } in
        elim r [
          | ok response ↦ ok (push (text_reply hdl response) changed)
          | err e ↦ ok changed
          | fault ↦ fault
        ]
  ]

  -- An overwritten or erased handler is destroyed.
  abbrev pub destroy_old : Option ConnectionData → World → World
  destroy_old none w = w
  destroy_old (some cd) w = destroy cd.node w

  -- One round of process_messages, on the action that it has popped.
  unfoldable pub process : Action → Server → Result Server
  process (subscribe hdl) s =
      let (cd, t) = subscribe_client s in
      ok (record t {
        connections = insert hdl cd t.connections;
        world = destroy_old (get_con_data hdl s) t.world;
      })
  process (unsubscribe hdl) s = elim (get_con_data hdl s) [
    | none ↦ fault
    | some cd ↦
        ok (record s { connections = erase hdl s.connections; world = destroy cd.node s.world })
  ]
  process (drop hdl) s = elim (get_con_data hdl s) [
    | none ↦ fault
    | some cd ↦ ok (
        emit (close hdl (bytes "No pong received"))
          (record s { connections = insert hdl (record cd { is_alive = false }) s.connections }))
  ]
  process (message hdl payload) s = send_message_to_node hdl payload s
  process (text_reply hdl t) s = elim (get_con_data hdl s) [
    | none ↦ ok s
    | some cd ↦ ok (if cd.is_alive then emit (send_text hdl t) s else s)
  ]
  process (binary_reply hdl b) s = elim (get_con_data hdl s) [
    | none ↦ ok s
    | some cd ↦ ok (if cd.is_alive then emit (send_binary hdl b) s else s)
  ]

  -- One turn of the loop of process_messages, when it is let run: nothing while the queue is empty
  -- or the server does not run.
  unfoldable pub work : List Action → Server → Result Server
  work [] s = ok s
  work (a ∷ rest) s = if s.running then process a (record s { actions = rest }) else ok s

  unfoldable pub process_messages_round : Server → Result Server
  process_messages_round s = work s.actions s

  -- The handlers that the endpoint calls, and the callbacks of the client handlers.
  unfoldable pub on_open : ℕ → Server → Server
  on_open hdl s = push (subscribe hdl) s

  unfoldable pub on_close : ℕ → Server → Server
  on_close hdl s = push (unsubscribe hdl) s

  unfoldable pub on_message : ℕ → Text → Server → Server
  on_message hdl msg s = push (message hdl msg) s

  unfoldable pub send_text_callback : ℕ → Text → Server → Server
  send_text_callback hdl msg s = push (text_reply hdl msg) s

  unfoldable pub send_binary_callback : ℕ → List ℕ → Server → Server
  send_binary_callback hdl msg s = push (binary_reply hdl msg) s

  -- `expired` is hdl.expired().
  unfoldable pub on_pong_timeout : Bool → ℕ → Server → Server
  on_pong_timeout expired hdl s =
      if expired then s else elim (get_con_data hdl s) [ none ↦ s | some cd ↦ push (drop hdl) s ]

  unfoldable pub ping_all_clients : Server → Server
  ping_all_clients s = record s { outputs = s.outputs ++ map (λ c. ping c.0) s.connections }

  closing : List (ℕ × ConnectionData) → List Output
  closing [] = []
  closing ((hdl, cd) ∷ rest) =
      pause_reading hdl ∷ close hdl (bytes "Server is shutting down.") ∷ closing rest

  unfoldable pub shutdown : Server → Server
  unfolding closing
  shutdown s =
      if s.running
      then record s {
        running = false;
        outputs = s.outputs ++ (closing s.connections ++ stop_listening ∷ []);
      }
      else s
