-- ===== src/Server/Rounds.antt =====
-- One round on any server that can arise.
use rws.Base.{
  ℕ, ◌-◌, ◌≤◌, ◌≡◌, ◌≢◌, refl, ap, sym, ◌∙◌, Bool, true, false, none, some, List, [], ◌∷◌, ◌==◌,
  if◌then◌else◌, Option-cases, Bool-cases, ==_iff, inl, inr, arith,
}
use mathlib.Core.Path.{subst}
use rws.Base.Maps.{find, contains, is_some}
use rws.Base.Result.{ok, fault}
use rws.Server.{
  Client, Action, ConnectionData, Server, get_con_data, push, process, process_messages_round, work,
  on_open, on_close, on_message, send_text_callback, send_binary_callback, on_pong_timeout,
  ping_all_clients, shutdown,
}
use rws.Server.Action.{subscribe, unsubscribe, drop, message, binary_reply, text_reply}
use rws.Server.Queue.{
  effect, walk, after-eq-some, walk-append, walk_add, walk_replies, target, costs, costs-append,
  Processed, process-Processed,
}
use rws.Server.Reach.{
  Status, opened, closed, is_open, set, Reachable, starts, opens, closes, receives, times_out,
  sends_text, sends_binary, pings, shuts_down, processes, IsTracked, IsSafe,
}

module _ (client : Client) where
  open client use {Handler, World, process_payload}

  -- What a round leaves, of a server that knows its connections.
  pub record Round (net : ℕ → Status) (s : Server client) : Type 0 where
    pub next : Server client
    pub ran : process_messages_round client s ≡ ok next
    pub still : next.running ≡ s.running
    pub tracked : IsTracked client net next
    pub cheaper : s.running ≡ true → costs next.actions ≤ costs s.actions - 1

  -- The walk of the queue that a processed action leaves.
  queued_on :
      (h : ℕ) (a : Action) (rest : List Action) (s : Server client) (b : Bool)
      → walk h (a ∷ rest) (contains h s.connections) ≡ some b
      → (p : Processed client a (record s { actions = rest }))
      → walk h p.next.actions (contains h p.next.connections) ≡ some b
  unfolding walk
  queued_on h a rest s b e p =
      let q = after-eq-some (effect h a (contains h s.connections)) (walk h rest) e in
      let now : effect h a (contains h s.connections) ≡ some (contains h p.next.connections) =
        p.presence h (λ gone. cc (gone, q.1)) in
      let there : walk h rest (contains h p.next.connections) ≡ some b = cc (now, q.1, q.2) in
      rw p.queued
        (walk-append h rest p.replies _ ∙ rw there (walk_replies h p.replies b p.only_replies))

  needs_none :
      (h : ℕ) (a : Action) (rest : List Action) (s : Server client) (b : Bool)
      → walk h (a ∷ rest) (contains h s.connections) ≡ some b
      → effect h a (contains h s.connections) ≢ none
  unfolding walk
  needs_none h a rest s b e =
      let q = after-eq-some (effect h a (contains h s.connections)) (walk h rest) e in
      λ gone. cc (gone, q.1)

  -- A round keeps the invariant.
  pub work-Round :
      (net : ℕ → Status) (queue : List Action) (s : Server client)
      → s.actions ≡ queue
      → IsSafe client
      → IsTracked client net s
      → Round net s
  unfolding process_messages_round work
  work-Round net [] s e safe t = record {
    next = s;
    ran = rw e refl;
    still = refl;
    tracked = t;
    cheaper = λ _. omega (arith, ap costs e);
  }
  work-Round net (a ∷ rest) s e safe t = elim (Bool-cases s.running) [
    | inl up ↦
        let told : (h : ℕ) → walk h (a ∷ rest) (contains h s.connections) ≡ some (is_open (net h)) =
          λ h. rw e at t h in
        let p =
          process-Processed client a (record s { actions = rest }) safe
            (needs_none (target a) a rest s _ (told (target a))) in
        record {
          next = p.next;
          ran =
              ap (λ q. work client q s) e
              ∙ ap (λ b. if b then process client a (record s { actions = rest }) else ok s) up
              ∙ p.ran;
          still = p.still;
          tracked = λ h. queued_on h a rest s _ (told h) p;
          cheaper = λ _.
              omega (arith, p.cheap, ap costs e, ap costs p.queued, costs-append rest p.replies);
        }
    | inr down ↦ record {
      next = s;
      ran = rw (e, down) refl;
      still = refl;
      tracked = t;
      cheaper = λ up. cc (up, down);
    }
  ]

  -- A push that the status allows keeps the queue in step with it.
  IsTracked-add :
      (net : ℕ → Status) (j : ℕ) (st : Status) (a : Action) (s : Server client)
      → IsTracked client net s
      → ((h : ℕ) → effect h a (is_open (net h)) ≡ some (is_open (set j st net h)))
      → IsTracked client (set j st net) (push client a s)
  IsTracked-add net j st a s t f h =
      walk_add h s.actions a (contains h s.connections) (is_open (net h)) (t h) ∙ f h

  IsTracked-same :
      (net : ℕ → Status) (a : Action) (s : Server client)
      → IsTracked client net s
      → ((h : ℕ) → effect h a (is_open (net h)) ≡ some (is_open (net h)))
      → IsTracked client net (push client a s)
  IsTracked-same net a s t f h =
      walk_add h s.actions a (contains h s.connections) (is_open (net h)) (t h) ∙ f h

  started_tracked : (h : ℕ) → walk h [] (contains {V = ConnectionData client} h []) ≡ some false
  unfolding walk contains find
  started_tracked h = refl

  open_there :
      (net : ℕ → Status) (h j : ℕ) → net h ≡ opened → (h == j) ≡ true → is_open (net j) ≡ true
  open_there net h j e hit = ap (λ i. is_open (net i)) (sym ((==_iff h j).0 hit)) ∙ ap is_open e

  -- What an action that needs an entry does to an open connection.
  effect_open :
      (net : ℕ → Status) (h j : ℕ) (st : Status)
      → net h ≡ opened
      → (if h == j
          then if is_open (net j) then some (is_open st) else none
          else some (is_open (net j)))
        ≡ some (is_open (set h st net j))
  effect_open net h j st e = elim (Bool-cases (h == j)) [
    | inl hit ↦ rw (open_there net h j e hit, hit) refl
    | inr miss ↦ rw miss refl
  ]

  set_same : (net : ℕ → Status) (h j : ℕ) (st : Status) → net h ≡ st → set h st net j ≡ net j
  set_same net h j st e = elim (Bool-cases (h == j)) [
    | inl hit ↦ rw hit (sym e ∙ ap net ((==_iff h j).0 hit))
    | inr miss ↦ rw miss refl
  ]

  -- The same for an action that leaves it open.
  effect_still :
      (net : ℕ → Status) (h j : ℕ)
      → is_open (net h) ≡ true
      → (if h == j then if is_open (net j) then some true else none else some (is_open (net j)))
        ≡ some (is_open (net j))
  effect_still net h j e = elim (Bool-cases (h == j)) [
    | inl hit ↦
        let there : is_open (net j) ≡ true =
          ap (λ i. is_open (net i)) (sym ((==_iff h j).0 hit)) ∙ e in
        rw (there, hit) refl
    | inr miss ↦ rw miss refl
  ]

  -- A connection with an entry, of which a pong timeout may come, is open.
  entry_open : (b there : Bool) → there ≡ true → (b ≡ false → there ≡ false) → b ≡ true
  entry_open true there t f = refl
  entry_open false there t f = let gone = f refl in cc (t, gone)

  if_both :
      (P : Server client → Type 0) (b : Bool) (x y : Server client)
      → P x
      → P y
      → P (if b then x else y)
  if_both P true x y p q = p
  if_both P false x y p q = q

  ok_inj : (x y : Server client) → ok x ≡ ok y → x ≡ y
  ok_inj x y e = cc e

  -- In every state that the events can lead to, as long as no pong timeout comes for a connection
  -- that is not open and still has its entry, and if no client handler faults: for each connection,
  -- what the queue will do to its entry never lacks the entry, and leads to the status that the
  -- endpoint has for it.
  pub Reachable-IsTracked :
      {net : ℕ → Status} {s : Server client}
      → IsSafe client
      → Reachable client net s
      → IsTracked client net s
  unfolding on_open on_close on_message on_pong_timeout send_text_callback send_binary_callback
      ping_all_clients shutdown effect contains get_con_data
  Reachable-IsTracked safe (starts w) = λ h. started_tracked h
  Reachable-IsTracked safe (opens {net = net} {s = s} h e r) =
      IsTracked-add net h opened (subscribe h) s (Reachable-IsTracked safe r) λ j. ground arith
  Reachable-IsTracked safe (closes {net = net} {s = s} h e r) =
      IsTracked-add net h closed (unsubscribe h) s (Reachable-IsTracked safe r)
        λ j. effect_open net h j closed e
  Reachable-IsTracked safe (receives {net = net} {s = s} h m e r) =
      IsTracked-same net (message h m) s (Reachable-IsTracked safe r)
        λ j. effect_still net h j (ap is_open e)
  Reachable-IsTracked safe (times_out {net = net} {s = s} h true e r) = Reachable-IsTracked safe r
  Reachable-IsTracked safe (times_out {net = net} {s = s} h false e r) =
      elim (Option-cases (get_con_data client h s)) [
        | inl gone ↦ rw gone (Reachable-IsTracked safe r)
        | inr (cd, got) ↦
            let there : contains h s.connections ≡ true = ap is_some got in
            let live = entry_open (is_open (net h)) _ there e in
            rw got (
              IsTracked-same net (drop h) s (Reachable-IsTracked safe r)
                λ j. effect_still net h j live)
      ]
  Reachable-IsTracked safe (sends_text {net = net} {s = s} h m r) =
      IsTracked-same net (text_reply h m) s (Reachable-IsTracked safe r) λ j. refl
  Reachable-IsTracked safe (sends_binary {net = net} {s = s} h m r) =
      IsTracked-same net (binary_reply h m) s (Reachable-IsTracked safe r) λ j. refl
  Reachable-IsTracked safe (pings r) = Reachable-IsTracked safe r
  Reachable-IsTracked safe (shuts_down {net = net} {s = s} r) =
      if_both (IsTracked client net) s.running _ _ (Reachable-IsTracked safe r)
        (Reachable-IsTracked safe r)
  Reachable-IsTracked safe (processes {net = net} {s = s} {t = t} e r) =
      let q = work-Round net s.actions s refl safe (Reachable-IsTracked safe r) in
      subst (IsTracked client net) (ok_inj q.next t (cc (q.ran, e))) q.tracked

  -- In every state that the events can lead to, where the endpoint reports messages and closes of
  -- open connections only, and as long as no pong timeout comes for a connection that is not open
  -- and still has its entry: a round of process_messages does not dereference the null pointer, if
  -- no client handler faults.
  pub process_messages_round-Reachable :
      {net : ℕ → Status} {s : Server client}
      → IsSafe client
      → Reachable client net s
      → process_messages_round client s ≢ fault
  process_messages_round-Reachable {net = net} {s = s} safe r =
      let q = work-Round net s.actions s refl safe (Reachable-IsTracked safe r) in
      λ f. cc (q.ran, f)
