-- ===== src/Server/Queue.antt =====
-- What one action does to the presence of a connection, and what a whole queue will do to it.
use rws.Base.{
  ℕ, ◌+◌, ◌≤◌, ◌≡◌, ◌≢◌, refl, ap, sym, ◌∙◌, Bool, true, false, Option, none, some, List, [], ◌∷◌,
  ◌++◌, ◌==◌, if◌then◌else◌, All, Option-cases, Bool-cases, inl, inr, arith, append-nil,
}
use rws.Base.Maps.{find, insert, erase, contains, contains-insert, contains-erase, contains_gone}
use rws.Base.Result.{Result, ok, err, fault, Result-cases}
use rws.Base.Text.{Text, bytes}
use rws.Server.{
  Client, Action, ConnectionData, Server, get_con_data, subscribe_client, send_message_to_node,
  process, push, emit,
}
use rws.Server.Action.{subscribe, unsubscribe, drop, message, binary_reply, text_reply}
use rws.Server.Output.{send_text, send_binary, close}

-- Whether a connection has an entry behind an action, if it has one in front of it; none where the
-- action needs an entry that is not there.
unfoldable pub effect : ℕ → Action → Bool → Option Bool
effect h (subscribe j) b = if j == h then some true else some b
effect h (unsubscribe j) b = if j == h then if b then some false else none else some b
effect h (drop j) b = if j == h then if b then some true else none else some b
effect h (message j m) b = if j == h then if b then some true else none else some b
effect h (binary_reply j m) b = some b
effect h (text_reply j m) b = some b

abbrev after : Option Bool → (Bool → Option Bool) → Option Bool
after none f = none
after (some b) f = f b

pub after-eq-some :
    (o : Option Bool) (f : Bool → Option Bool) {b : Bool}
    → after o f ≡ some b
    → (c : Bool) × (o ≡ some c) × (f c ≡ some b)
after-eq-some none f e = cc
after-eq-some (some c) f e = (c, refl, e)

-- The same for a queue.
unfoldable pub walk : ℕ → List Action → Bool → Option Bool
walk h [] b = some b
walk h (a ∷ rest) b = after (effect h a b) (walk h rest)

pub walk-append :
    (h : ℕ) (queue bs : List Action) (b : Bool)
    → walk h (queue ++ bs) b ≡ after (walk h queue b) (walk h bs)
unfolding walk
walk-append h [] bs b = refl
walk-append h (a ∷ rest) bs b = elim (Option-cases (effect h a b)) [
  | inl e ↦ rw e refl
  | inr (c, e) ↦ rw e (walk-append h rest bs c)
]

pub walk_add :
    (h : ℕ) (queue : List Action) (a : Action) (b c : Bool)
    → walk h queue b ≡ some c
    → walk h (queue ++ a ∷ []) b ≡ effect h a c
unfolding walk
walk_add h queue a b c e = walk-append h queue (a ∷ []) b ∙ rw e (ground arith)

abbrev pub IsReply : Action → Type 0
IsReply (text_reply h t) = Unit {0}
IsReply (binary_reply h t) = Unit {0}
IsReply _ = ⊥

-- Replies leave the entries alone.
pub walk_replies : (h : ℕ) (rs : List Action) (b : Bool) → All IsReply rs → walk h rs b ≡ some b
unfolding walk effect
walk_replies h [] b a = refl
walk_replies h (subscribe j ∷ rs) b a = absurd a.0
walk_replies h (unsubscribe j ∷ rs) b a = absurd a.0
walk_replies h (drop j ∷ rs) b a = absurd a.0
walk_replies h (message j t ∷ rs) b a = absurd a.0
walk_replies h (text_reply j t ∷ rs) b a = walk_replies h rs b a.1
walk_replies h (binary_reply j t ∷ rs) b a = walk_replies h rs b a.1

abbrev pub target : Action → ℕ
target (subscribe j) = j
target (unsubscribe j) = j
target (drop j) = j
target (message j m) = j
target (binary_reply j m) = j
target (text_reply j m) = j

-- The rounds that an action costs: a message may add a reply.
abbrev pub cost : Action → ℕ
cost (message h m) = 2
cost _ = 1

abbrev pub costs : List Action → ℕ
costs [] = 0
costs (a ∷ rest) = cost a + costs rest

pub costs-append : (xs ys : List Action) → costs (xs ++ ys) ≡ costs xs + costs ys
costs-append [] ys = omega arith
costs-append (a ∷ xs) ys = omega (arith, costs-append xs ys)

module _ (client : Client) where
  open client use {Handler, World, process_payload}

  -- What a processed action leaves.
  pub record Processed (a : Action) (s : Server client) : Type 0 where
    pub next : Server client
    pub replies : List Action
    pub ran : process client a s ≡ ok next
    pub still : next.running ≡ s.running
    pub queued : next.actions ≡ s.actions ++ replies
    pub only_replies : All IsReply replies
    pub cheap : costs replies + 1 ≤ cost a
    pub presence :
        (h : ℕ)
        → effect h a (contains h s.connections) ≢ none
        → effect h a (contains h s.connections) ≡ some (contains h next.connections)

  -- The entry and the server behind a message.
  abbrev changed : ConnectionData client → Text → Server client → ConnectionData client
  changed cd m s = record cd { node = (process_payload m cd.node s.world).0 }

  abbrev handled : ConnectionData client → ℕ → Text → Server client → Server client
  handled cd j m s = record s {
    connections = insert j (changed cd m s) s.connections;
    world = (process_payload m cd.node s.world).1;
  }

  -- The entry that an action needs is there.
  needed_entry :
      (j : ℕ) (x : Bool) (s : Server client)
      → (if j == j
          then if contains j s.connections then some x else none
          else some (contains j s.connections))
        ≢ none
      → find j s.connections ≢ none
  needed_entry j x s e = λ gone. e (ground (arith, contains_gone j s.connections gone))

  -- A reply changes no entry.
  answered :
      (a : Action) (s t : Server client)
      → ((h : ℕ) (b : Bool) → effect h a b ≡ some b)
      → cost a ≡ 1
      → process client a s ≡ ok t
      → (t.running ≡ s.running) × (t.actions ≡ s.actions) × (t.connections ≡ s.connections)
      → Processed a s
  answered a s t idle price e q = record {
    next = t;
    replies = [];
    ran = e;
    still = q.0;
    queued = q.1 ∙ sym (append-nil s.actions);
    only_replies = tt;
    cheap = omega (arith, price);
    presence = λ h _. idle h _ ∙ ap (λ m. some (contains h m)) (sym q.2);
  }

  subscribed : (j : ℕ) (s : Server client) → Processed (subscribe j) s
  unfolding process effect subscribe_client
  subscribed j s = record {
    next = _;
    replies = [];
    ran = refl;
    still = refl;
    queued = sym (append-nil s.actions);
    only_replies = tt;
    cheap = omega arith;
    presence =
        λ h _. ground (arith, contains-insert j h (subscribe_client client s).0 s.connections);
  }

  -- What a message to an entry gives.
  answer : ℕ → Server client → Result Text → Result (Server client)
  answer j s (ok response) = ok (push client (text_reply j response) s)
  answer j s (err e) = ok s
  answer j s fault = fault

  send_message_to_node_entry :
      (cd : ConnectionData client) (j : ℕ) (m : Text) (s : Server client)
      → find j s.connections ≡ some cd
      → send_message_to_node client j m s
        ≡ answer j (handled cd j m s) (process_payload m cd.node s.world).2
  unfolding send_message_to_node get_con_data answer
  send_message_to_node_entry cd j m s got = rw (got, send_message_to_node) refl

  -- An action whose entry is there is processed without a fault.
  pub process-Processed :
      (a : Action) (s : Server client)
      → ((payload : Text) (n : Handler) (w : World) → (process_payload payload n w).2 ≢ fault)
      → effect (target a) a (contains (target a) s.connections) ≢ none
      → Processed a s
  unfolding process get_con_data effect answer
  process-Processed (subscribe j) s safe e = subscribed j s
  process-Processed (unsubscribe j) s safe e = elim (Option-cases (find j s.connections)) [
    | inl gone ↦ absurd (needed_entry j false s e gone)
    | inr (cd, got) ↦ record {
      next = record s {
        connections = erase j s.connections;
        world = client.destroy cd.node s.world;
      };
      replies = [];
      ran = rw (got, process) refl;
      still = refl;
      queued = sym (append-nil s.actions);
      only_replies = tt;
      cheap = omega arith;
      presence = λ h f. ground (arith, f, contains-erase j h s.connections);
    }
  ]
  process-Processed (drop j) s safe e = elim (Option-cases (find j s.connections)) [
    | inl gone ↦ absurd (needed_entry j true s e gone)
    | inr (cd, got) ↦ record {
      next =
          emit client (close j (bytes "No pong received"))
            (record s { connections = insert j (record cd { is_alive = false }) s.connections });
      replies = [];
      ran = rw (got, process) refl;
      still = refl;
      queued = sym (append-nil s.actions);
      only_replies = tt;
      cheap = omega arith;
      presence = λ h f.
          ground (arith, f, contains-insert j h (record cd { is_alive = false }) s.connections);
    }
  ]
  process-Processed (message j m) s safe e = elim (Option-cases (find j s.connections)) [
    | inl gone ↦ absurd (needed_entry j true s e gone)
    | inr (cd, got) ↦ elim (Result-cases (process_payload m cd.node s.world).2) [
      | inl (response, r) ↦ record {
        next = push client (text_reply j response) (handled cd j m s);
        replies = text_reply j response ∷ [];
        ran = send_message_to_node_entry cd j m s got ∙ ap (answer j (handled cd j m s)) r;
        still = refl;
        queued = refl;
        only_replies = (tt, tt);
        cheap = omega arith;
        presence = λ h f. ground (arith, f, contains-insert j h (changed cd m s) s.connections);
      }
      | inr (inl (x, r)) ↦ record {
        next = handled cd j m s;
        replies = [];
        ran = send_message_to_node_entry cd j m s got ∙ ap (answer j (handled cd j m s)) r;
        still = refl;
        queued = sym (append-nil s.actions);
        only_replies = tt;
        cheap = omega arith;
        presence = λ h f. ground (arith, f, contains-insert j h (changed cd m s) s.connections);
      }
      | inr (inr r) ↦ absurd (safe m cd.node s.world r)
    ]
  ]
  process-Processed (binary_reply j m) s safe e = elim (Option-cases (find j s.connections)) [
    | inl gone ↦ answered _ s s (λ _ _. refl) refl (rw (gone, process) refl) (refl, refl, refl)
    | inr (cd, got) ↦ elim (Bool-cases cd.is_alive) [
      | inl up ↦
          answered _ s (emit client (send_binary j m) s) (λ _ _. refl) refl
            (rw (got, up, process) refl) (refl, refl, refl)
      | inr down ↦
          answered _ s s (λ _ _. refl) refl (rw (got, down, process) refl) (refl, refl, refl)
    ]
  ]
  process-Processed (text_reply j m) s safe e = elim (Option-cases (find j s.connections)) [
    | inl gone ↦ answered _ s s (λ _ _. refl) refl (rw (gone, process) refl) (refl, refl, refl)
    | inr (cd, got) ↦ elim (Bool-cases cd.is_alive) [
      | inl up ↦
          answered _ s (emit client (send_text j m) s) (λ _ _. refl) refl
            (rw (got, up, process) refl) (refl, refl, refl)
      | inr down ↦
          answered _ s s (λ _ _. refl) refl (rw (got, down, process) refl) (refl, refl, refl)
    ]
  ]
