-- ===== src/Server/Reach.antt =====
-- The server under every order of the events that the endpoint, the clients and the processing
-- thread can raise, and the queue that is worked off behind them.
use rws.Base.{ℕ, ◌≡◌, ◌≢◌, Bool, true, false, some, List, [], ◌==◌, if◌then◌else◌}
use rws.Base.Maps.{contains}
use rws.Base.Result.{ok, fault}
use rws.Base.Text.{Text}
use rws.Server.{
  Client, Server, process_messages_round, on_open, on_close, on_message, send_text_callback,
  send_binary_callback, on_pong_timeout, ping_all_clients, shutdown,
}
use rws.Server.Queue.{walk}

-- A connection in the eyes of the endpoint.
pub data Status : Type 0 where
  unknown opened closed : Status

abbrev pub is_open : Status → Bool
is_open opened = true
is_open _ = false

abbrev pub set : ℕ → Status → (ℕ → Status) → ℕ → Status
set h st net = λ j. if h == j then st else net j

module _ (client : Client) where
  open client use {Handler, World, process_payload}

  -- The server once run() has started its threads.
  abbrev pub started : World → Server client
  started w = record {
    running = true;
    connections = [];
    next_client_id = 0;
    actions = [];
    world = w;
    outputs = [];
  }

  -- The orders of events. The endpoint opens a connection before it closes it, hands over messages
  -- of open connections only, and no pong timeout of a connection that is not open while the queue
  -- has not yet taken its entry out; replies may come at any time.
  pub data Reachable : (ℕ → Status) → Server client → Type 0 where
    starts : (w : World) → Reachable (λ _. unknown) (started w)
    opens :
        {net : ℕ → Status} {s : Server client} (h : ℕ)
        → net h ≡ unknown
        → Reachable net s
        → Reachable (set h opened net) (on_open client h s)
    closes :
        {net : ℕ → Status} {s : Server client} (h : ℕ)
        → net h ≡ opened
        → Reachable net s
        → Reachable (set h closed net) (on_close client h s)
    receives :
        {net : ℕ → Status} {s : Server client} (h : ℕ) (m : Text)
        → net h ≡ opened
        → Reachable net s
        → Reachable net (on_message client h m s)
    times_out :
        {net : ℕ → Status} {s : Server client} (h : ℕ) (expired : Bool)
        → (is_open (net h) ≡ false → contains h s.connections ≡ false)
        → Reachable net s
        → Reachable net (on_pong_timeout client expired h s)
    sends_text :
        {net : ℕ → Status} {s : Server client} (h : ℕ) (m : Text)
        → Reachable net s
        → Reachable net (send_text_callback client h m s)
    sends_binary :
        {net : ℕ → Status} {s : Server client} (h : ℕ) (m : List ℕ)
        → Reachable net s
        → Reachable net (send_binary_callback client h m s)
    pings :
        {net : ℕ → Status} {s : Server client}
        → Reachable net s
        → Reachable net (ping_all_clients client s)
    shuts_down :
        {net : ℕ → Status} {s : Server client} → Reachable net s → Reachable net (shutdown client s)
    processes :
        {net : ℕ → Status} {s t : Server client}
        → process_messages_round client s ≡ ok t
        → Reachable net s
        → Reachable net t

  -- What the queue will do to each connection leads to its status.
  abbrev pub IsTracked : (ℕ → Status) → Server client → Type 0
  IsTracked net s = (h : ℕ) → walk h s.actions (contains h s.connections) ≡ some (is_open (net h))

  -- No call of process_message faults.
  abbrev pub IsSafe : Type 0
  IsSafe = (payload : Text) (n : Handler) (w : World) → (process_payload payload n w).2 ≢ fault
