-- ===== src/Server/Handlers.antt =====
-- A predicate of client handlers that holds of new ones and that messages keep, under every order of
-- events.
use rws.Base.{
  ℕ, ◌≡◌, refl, sym, ◌∙◌, Bool, true, false, Option, none, some, List, [], ◌∷◌, ◌==◌, if◌then◌else◌,
  Bool-cases, inl, inr,
}
use mathlib.Core.Path.{subst}
use rws.Base.Maps.{find, insert, erase, find-insert, find-erase}
use rws.Base.Result.{Result, ok, err, fault, OkAnd, if-holds}
use rws.Base.Text.{Text}
use rws.Server.{
  Client, Action, ConnectionData, Server, get_con_data, push, subscribe_client,
  send_message_to_node, process, work, process_messages_round, on_open, on_close, on_message,
  send_text_callback, send_binary_callback, on_pong_timeout, ping_all_clients, shutdown,
}
use rws.Server.Action.{subscribe, unsubscribe, drop, message, binary_reply, text_reply}
use rws.Server.Reach.{
  Status, Reachable, starts, opens, closes, receives, times_out, sends_text, sends_binary, pings,
  shuts_down, processes,
}

module _ (client : Client) (P : client.Handler → Type 0) where
  open client use {Handler, World, construct, process_payload}

  -- The handler of every connection.
  abbrev pub Every : Server client → Type 0
  Every s = (h : ℕ) (cd : ConnectionData client) → find h s.connections ≡ some cd → P cd.node

  pub record IsKept : Type 0 where
    pub constructed : (id : ℕ) (w : World) → P (construct id w).0
    pub processed :
        (payload : Text) (n : Handler) (w : World) → P n → P (process_payload payload n w).0

  inserted :
      (h : ℕ) (cd : ConnectionData client) (m : List (ℕ × ConnectionData client))
      → P cd.node
      → ((j : ℕ) (d : ConnectionData client) → find j m ≡ some d → P d.node)
      → (j : ℕ) (d : ConnectionData client) → find j (insert h cd m) ≡ some d
      → P d.node
  inserted h cd m p all j d e = elim (Bool-cases (h == j)) [
    | inl same ↦
        let found : some cd ≡ some d = rw same at (sym (find-insert h j cd m) ∙ e) in
        let same_cd : cd ≡ d = cc found in subst (λ (x : ConnectionData client). P x.node) same_cd p
    | inr apart ↦ all j d (rw apart at (sym (find-insert h j cd m) ∙ e))
  ]

  erased :
      (h : ℕ) (m : List (ℕ × ConnectionData client))
      → ((j : ℕ) (d : ConnectionData client) → find j m ≡ some d → P d.node)
      → (j : ℕ) (d : ConnectionData client) → find j (erase h m) ≡ some d
      → P d.node
  erased h m all j d e = elim (Bool-cases (h == j)) [
    | inl same ↦
        let gone : none ≡ some d = rw same at (sym (find-erase h j m) ∙ e) in absurd (cc gone)
    | inr apart ↦ all j d (rw apart at (sym (find-erase h j m) ∙ e))
  ]

  module _ (kept : IsKept) where
    message-Every :
        (h : ℕ) (payload : Text) (s : Server client)
        → Every s
        → OkAnd Every (send_message_to_node client h payload s)
    unfolding send_message_to_node get_con_data
    message-Every h payload s all = by_entry (find h s.connections) refl
      where
        replied :
            (s : Server client) (r : Result Text)
            → Every s
            → OkAnd Every (elim r [
              | ok response ↦ ok (push client (text_reply h response) s)
              | err e ↦ ok s
              | fault ↦ fault
            ])
        replied s (ok t) all = all
        replied s (err e) all = all
        replied s fault all = tt

        by_entry :
            (o : Option (ConnectionData client))
            → find h s.connections ≡ o
            → OkAnd Every (send_message_to_node client h payload s)
        by_entry none e = rw (e, send_message_to_node) tt
        by_entry (some cd) e =
            let r = process_payload payload cd.node s.world in
            rw (e, send_message_to_node)
              (replied
                (record s {
                  connections = insert h (record cd { node = r.0 }) s.connections;
                  world = r.1;
                })
                r.2
                (inserted h (record cd { node = r.0 }) s.connections
                  (kept.processed payload cd.node s.world (all h cd e)) all))

    unsubscribed-Every :
        (h : ℕ) (o : Option (ConnectionData client)) (s : Server client)
        → Every s
        → OkAnd Every (elim o [
          | none ↦ fault
          | some cd ↦ ok (record s {
            connections = erase h s.connections;
            world = client.destroy cd.node s.world;
          })
        ])
    unsubscribed-Every h none s all = tt
    unsubscribed-Every h (some cd) s all = erased h s.connections all

    dropped-Every : (h : ℕ) (s : Server client) → Every s → OkAnd Every (process client (drop h) s)
    unfolding process get_con_data
    dropped-Every h s all = by_entry (find h s.connections) refl
      where
        by_entry :
            (o : Option (ConnectionData client))
            → find h s.connections ≡ o
            → OkAnd Every (process client (drop h) s)
        by_entry none e = rw (e, process) tt
        by_entry (some cd) e =
            rw (e, process)
              (inserted h (record cd { is_alive = false }) s.connections (all h cd e) all)

    sent-Every :
        (o : Option (ConnectionData client)) (s t : Server client)
        → Every s
        → Every t
        → OkAnd Every (elim o [ none ↦ ok s | some cd ↦ ok (if cd.is_alive then t else s) ])
    sent-Every none s t all all' = all
    sent-Every (some cd) s t all all' = if-holds Every cd.is_alive all' all

    process-Every : (a : Action) (s : Server client) → Every s → OkAnd Every (process client a s)
    unfolding process subscribe_client
    process-Every (subscribe h) s all =
        inserted h (subscribe_client client s).0 s.connections (kept.constructed _ s.world) all
    process-Every (unsubscribe h) s all = unsubscribed-Every h (get_con_data client h s) s all
    process-Every (drop h) s all = dropped-Every h s all
    process-Every (message h payload) s all = message-Every h payload s all
    process-Every (text_reply h t) s all = sent-Every (get_con_data client h s) s _ all all
    process-Every (binary_reply h b) s all = sent-Every (get_con_data client h s) s _ all all

    work-Every : (q : List Action) (s : Server client) → Every s → OkAnd Every (work client q s)
    unfolding work
    work-Every [] s all = all
    work-Every (a ∷ rest) s all = running s.running
      where
        running :
            (b : Bool)
            → OkAnd Every (if b then process client a (record s { actions = rest }) else ok s)
        running true = process-Every a (record s { actions = rest }) all
        running false = all

    timed_out :
        (expired : Bool) (h : ℕ) (s : Server client)
        → Every s
        → Every (on_pong_timeout client expired h s)
    unfolding on_pong_timeout
    timed_out true h s all = all
    timed_out false h s all = by_entry (get_con_data client h s)
      where
        by_entry :
            (o : Option (ConnectionData client))
            → Every (elim o [ none ↦ s | some cd ↦ push client (drop h) s ])
        by_entry none = all
        by_entry (some cd) = all

    shut_down : (s : Server client) → Every s → Every (shutdown client s)
    unfolding shutdown
    shut_down s all = if-holds Every s.running all all

    no_entry : (h : ℕ) {cd : ConnectionData client} → ¬ (find h [] ≡ some cd)
    unfolding find
    no_entry h e = cc e

    -- A predicate that holds of every new client handler, and that process_message keeps whatever
    -- the payload and the world, holds of the handler of every connection, under every order of
    -- events.
    pub Reachable-Every : {net : ℕ → Status} {s : Server client} → Reachable client net s → Every s
    unfolding process_messages_round on_open on_close on_message send_text_callback
        send_binary_callback ping_all_clients
    Reachable-Every (starts w) = λ h cd e. absurd (no_entry h e)
    Reachable-Every (opens j e r) = Reachable-Every r
    Reachable-Every (closes j e r) = Reachable-Every r
    Reachable-Every (receives j m e r) = Reachable-Every r
    Reachable-Every (times_out j expired e r) = timed_out expired j _ (Reachable-Every r)
    Reachable-Every (sends_text j m r) = Reachable-Every r
    Reachable-Every (sends_binary j m r) = Reachable-Every r
    Reachable-Every (pings r) = Reachable-Every r
    Reachable-Every (shuts_down r) = shut_down _ (Reachable-Every r)
    Reachable-Every (processes {s = s} e r) =
        subst (OkAnd Every) e (work-Every s.actions s (Reachable-Every r))
