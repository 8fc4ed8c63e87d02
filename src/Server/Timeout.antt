-- ===== src/Server/Timeout.antt =====
-- A pong timeout that comes between on_close and the round that takes the entry away.
use rws.Base.{ℕ, ◌≡◌, refl, ◌∙◌, true, false, none, some, List, [], ◌∷◌, ==_refl}
use rws.Base.Maps.{find, erase, find-erase}
use rws.Base.Result.{fault, ◌>>=◌}
use rws.Server.{
  Client, ConnectionData, Server, get_con_data, process, process_messages_round, work, on_close,
  on_pong_timeout,
}
use rws.Server.Action.{unsubscribe, drop}

module _ (client : Client) where
  open client use {destroy}

  erased : {V : Type 0} (h : ℕ) (m : List (ℕ × V)) → find h (erase h m) ≡ none
  erased h m = find-erase h h m ∙ rw (==_refl h) refl

  -- The entry is erased, and then missed.
  missed :
      (h : ℕ) (cd : ConnectionData client) (s : Server client)
      → get_con_data client h s ≡ some cd
      → (process client (unsubscribe h) (record s { running = true; actions = drop h ∷ [] })
          >>= process_messages_round client)
        ≡ fault
  unfolding process_messages_round work process get_con_data
  missed h cd s got = rw (got, process) (rw (erased h s.connections, process) refl)

  -- On a running server with an empty queue and an entry for a connection, if its pong timeout
  -- comes behind its close but in front of the round that erases the entry, the second of the next
  -- two rounds dereferences the null pointer.
  pub on_pong_timeout-on_close :
      (h : ℕ) (cd : ConnectionData client) (s : Server client)
      → s.running ≡ true
      → s.actions ≡ []
      → get_con_data client h s ≡ some cd
      → (process_messages_round client (on_pong_timeout client false h (on_close client h s))
          >>= process_messages_round client)
        ≡ fault
  unfolding process_messages_round work on_close on_pong_timeout get_con_data
  on_pong_timeout-on_close h cd s up e got = rw (got, e, up) (missed h cd s got)
