-- ===== src/Server/Tests.antt =====
-- A small client, and runs of the server with it.
use rws.Base.{ℕ, ◌+◌, ◌≡◌, ◌≢◌, refl, true, false, List, [], ◌∷◌}
use rws.Base.Result.{ok, fault, ◌>>=◌}
use rws.Base.Text.{bytes}
use rws.Base.Maps.{find, contains}
use rws.Server.{
  Client, Server, get_con_data, process_messages_round, on_open, on_close, on_message,
  on_pong_timeout,
}
use rws.Server.Reach.{
  Status, unknown, opened, closed, set, started, Reachable, starts, opens, closes, receives,
  times_out, IsTracked, IsSafe,
}
use rws.Server.Rounds.{Reachable-IsTracked, process_messages_round-Reachable}
use rws.Server.Drain.{process_messages, Settled, process_messages-Settled}
use rws.Server.Queue.{costs}
use rws.Server.Timeout.{on_pong_timeout-on_close}

-- A handler counts its messages and echoes them; the world lists the handlers destroyed.
abbrev echo : Client
echo = record {
  Handler = ℕ;
  World = List ℕ;
  construct = λ id w. (id, w);
  destroy = λ n w. n ∷ w;
  process_payload = λ payload n w. (n + 1, w, ok payload);
}

echo_safe : IsSafe echo
echo_safe payload n w e = cc e

abbrev busy : Server echo
busy = on_pong_timeout echo false 5 (
    on_close echo 5
      (on_message echo 5 (bytes "hi") (on_open echo 7 (on_open echo 5 (started echo [])))))

abbrev busy_net : ℕ → Status
busy_net = set 5 closed (set 7 opened (set 5 opened (λ _. unknown)))

busy-Reachable : Reachable echo busy_net busy
unfolding on_open on_close on_message contains find
busy-Reachable =
    times_out 5 false (λ _. refl)
      (closes 5 refl (receives 5 (bytes "hi") refl (opens 7 refl (opens 5 refl (starts [])))))

process_messages-Settled_example :
    (t : Server echo) × (process_messages echo (costs busy.actions) busy ≡ ok t)
    × Settled echo busy_net t
unfolding on_open on_message on_close on_pong_timeout get_con_data find
process_messages-Settled_example = process_messages-Settled echo echo_safe busy-Reachable refl

process_messages_round-Reachable_example : process_messages_round echo busy ≢ fault
process_messages_round-Reachable_example =
    process_messages_round-Reachable echo echo_safe busy-Reachable

Reachable-IsTracked_example : IsTracked echo busy_net busy
Reachable-IsTracked_example = Reachable-IsTracked echo echo_safe busy-Reachable

abbrev idle : Server echo
idle = record {
  running = true;
  connections = (5, record { client_id = 0; node = 0; is_alive = true }) ∷ [];
  next_client_id = 1;
  actions = [];
  world = [];
  outputs = [];
}

on_pong_timeout-on_close_example :
    (process_messages_round echo (on_pong_timeout echo false 5 (on_close echo 5 idle))
      >>= process_messages_round echo)
    ≡ fault
unfolding get_con_data
on_pong_timeout-on_close_example =
    on_pong_timeout-on_close echo 5 (record { client_id = 0; node = 0; is_alive = true }) idle refl
      refl (unfold find in refl)
