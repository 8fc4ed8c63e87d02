-- ===== src/Server/Drain.antt =====
-- The loop of process_messages works the queue off.
use rws.Base.{ℕ, zero, suc, ◌≤◌, ◌≡◌, refl, ◌∙◌, true, List, [], ◌∷◌, arith}
use rws.Base.Maps.{contains}
use rws.Base.Result.{Result, ok, ◌>>=◌}
use rws.Server.{Client, Action, Server, process_messages_round}
use rws.Server.Action.{message}
use rws.Server.Queue.{walk, cost, costs}
use rws.Server.Reach.{Status, is_open, Reachable, IsTracked, IsSafe}
use rws.Server.Rounds.{work-Round, Reachable-IsTracked}

module _ (client : Client) where
  open client use {Handler, World, process_payload}

  -- The loop, let run for some rounds.
  unfoldable pub process_messages : ℕ → Server client → Result (Server client)
  process_messages zero s = ok s
  process_messages (suc n) s = process_messages_round client s >>= process_messages n

  -- The queue is empty and the connections with an entry are those that are open.
  pub record Settled (net : ℕ → Status) (s : Server client) : Type 0 where
    pub emptied : s.actions ≡ []
    pub entries : (h : ℕ) → contains h s.connections ≡ is_open (net h)

  cost_pos : (a : Action) → 1 ≤ cost a
  cost_pos a = elim a as (λ k. 1 ≤ cost k) [ message h m ↦ omega arith | _ ↦ omega arith ]

  costs-eq-zero : (queue : List Action) → costs queue ≡ 0 → queue ≡ []
  costs-eq-zero [] e = refl
  costs-eq-zero (a ∷ rest) e = let never : ⊥ = omega (arith, cost_pos a, e) in absurd never

  settled :
      (net : ℕ → Status) (s : Server client)
      → IsTracked client net s
      → s.actions ≡ []
      → Settled net s
  unfolding walk
  settled net s t e = record { emptied = e; entries = λ h. cc (rw e at t h) }

  settle :
      (net : ℕ → Status) (n : ℕ) (s : Server client)
      → IsSafe client
      → IsTracked client net s
      → s.running ≡ true
      → costs s.actions ≤ n
      → (t : Server client) × (process_messages n s ≡ ok t) × Settled net t
  unfolding process_messages
  settle net zero s safe t up enough =
      (s, refl, settled net s t (costs-eq-zero s.actions (omega arith)))
  settle net (suc n) s safe t up enough =
      let q = work-Round client net s.actions s refl safe t in
      let rest = settle net n q.next safe q.tracked (q.still ∙ up) (omega (arith, q.cheaper up)) in
      (rest.0, rw q.ran rest.1, rest.2)

  -- In every state that the events can lead to, as long as no pong timeout comes for a connection
  -- that is not open and still has its entry: while the server runs, the loop of process_messages
  -- empties the queue within two rounds for each message and one for each other action, without a
  -- fault, if no client handler faults; then exactly the connections that the endpoint has open
  -- have an entry.
  pub process_messages-Settled :
      {net : ℕ → Status} {s : Server client}
      → IsSafe client
      → Reachable client net s
      → s.running ≡ true
      → (t : Server client) × (process_messages (costs s.actions) s ≡ ok t) × Settled net t
  process_messages-Settled {net = net} {s = s} safe r up =
      settle net (costs s.actions) s safe (Reachable-IsTracked client safe r) up (omega arith)
