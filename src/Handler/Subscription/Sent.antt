-- ===== src/Handler/Subscription/Sent.antt =====
-- What becomes of a message for a client.
use rws.Base.{◌≡◌, refl, Option, none, some, List, ℕ}
use rws.Base.Result.{Result, ok, err, fault}
use rws.Cdr.Host.{Host}
use rws.Ros.{Ros}
use rws.Json.{Json}
use rws.Handler.Subscription.{Sending, send_message}

module _ {World : Type 0} where
  -- With a function to send by, it has run on what was encoded; without one nothing has happened; an
  -- exception of the encoder is passed on.
  abbrev pub IsSent :
      Option (List ℕ → World → World) → Result (List ℕ) → World → World × Result (Unit {0}) → Type 0
  IsSent (some send) (ok msg) w r = r ≡ (send msg w, ok tt)
  IsSent none (ok msg) w r = r ≡ (w, ok tt)
  IsSent to (err e) w r = r ≡ (w, err e)
  IsSent to fault w r = r ≡ (w, fault)

module _ (ros : Ros) (json : Json) (Message : Type 0) (sending : Sending ros json Message)
    (host : Host) where
  pub send_message-IsSent :
      (to : Option (List ℕ → ros.World → ros.World)) (encoded : Result (List ℕ)) (w : ros.World)
      → IsSent to encoded w (send_message ros json Message sending host to encoded w)
  send_message-IsSent (some send) (ok msg) w = refl
  send_message-IsSent none (ok msg) w = refl
  send_message-IsSent (some send) (err e) w = refl
  send_message-IsSent none (err e) w = refl
  send_message-IsSent (some send) fault w = refl
  send_message-IsSent none fault w = refl
