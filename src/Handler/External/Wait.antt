-- ===== src/Handler/External/Wait.antt =====
-- The loop around wait_for_service, as it runs with no bound on its rounds.
use rws.Base.{ℕ, zero, suc, ◌≤◌, ◌≡◌, ◌↔◌, refl, ap, ◌∙◌, Bool, true, false, arith}
use mathlib.Core.Path.{subst}
use rws.Base.Result.{Result, ok, err, fault}
use rws.Ros.{Ros}
use rws.Json.{Json}
use rws.ServiceClient.{Middleware, GenericClient}
use rws.Handler.External.{Platform, available, interrupted, again, waited, checked, round, wait}

module _ (ros : Ros) (json : Json) (Message : Type 0) (middleware : Middleware ros.World Message)
    (platform : Platform ros json Message middleware) (client : GenericClient middleware) where
  open ros use {World}
  open platform use {wait_for_service, is_ok}

  -- `Waits w v b`: the loop that starts in w ends in v, and b says whether the service is there.
  pub data Waits : World → World → Bool → Type 0 where
    arrives : {w v : World} → wait_for_service client w ≡ (v, true) → Waits w v true
    stops :
        {w u v : World}
        → wait_for_service client w ≡ (u, false)
        → is_ok u ≡ (v, false)
        → Waits w v false
    goes_on :
        {w u x v : World} {b : Bool}
        → wait_for_service client w ≡ (u, false)
        → is_ok u ≡ (x, true)
        → Waits x v b
        → Waits w v b

  unfoldable pub turns : {w v : World} {b : Bool} → Waits w v b → ℕ
  turns (arrives e) = 0
  turns (stops e f) = 0
  turns (goes_on e f rest) = suc (turns rest)

  round_arrives :
      (w v : World)
      → wait_for_service client w ≡ (v, true)
      → round ros json Message middleware platform client w ≡ available v
  round_arrives w v e = ap (waited ros json Message middleware platform) e

  round_stops :
      (w u v : World)
      → wait_for_service client w ≡ (u, false)
      → is_ok u ≡ (v, false)
      → round ros json Message middleware platform client w ≡ interrupted v
  round_stops w u v e f =
      ap (waited ros json Message middleware platform) e
      ∙ ap (checked ros json Message middleware platform) f

  round_goes_on :
      (w u v : World)
      → wait_for_service client w ≡ (u, false)
      → is_ok u ≡ (v, true)
      → round ros json Message middleware platform client w ≡ again v
  round_goes_on w u v e f =
      ap (waited ros json Message middleware platform) e
      ∙ ap (checked ros json Message middleware platform) f

  enough :
      (n : ℕ) {w v : World} {b : Bool} (loop : Waits w v b)
      → suc (turns loop) ≤ n
      → wait ros json Message middleware platform client n w ≡ (v, ok b)
  unfolding wait turns
  enough zero loop le = absurd (omega (arith, le))
  enough (suc n) (arrives e) le = rw (round_arrives _ _ e, wait) refl
  enough (suc n) (stops e f) le = rw (round_stops _ _ _ e f, wait) refl
  enough (suc n) (goes_on e f rest) le =
      rw (round_goes_on _ _ _ e f, wait) (enough n rest (omega (arith, le)))

  abbrev pub Within : ℕ → World → World → Bool → Type 0
  Within n w v b = (loop : Waits w v b) × (suc (turns loop) ≤ n)

  abbrev IsReached : ℕ → World → World × Result Bool → Type 0
  IsReached n w (v, ok b) = Within n w v b
  IsReached n w (v, err e) = Unit {0}
  IsReached n w (v, fault) = Unit {0}

  IsReached-again :
      (n : ℕ) (w u x : World) (r : World × Result Bool)
      → wait_for_service client w ≡ (u, false)
      → is_ok u ≡ (x, true)
      → IsReached n x r
      → IsReached (suc n) w r
  unfolding turns
  IsReached-again n w u x (v, ok b) e f (loop, le) = (goes_on e f loop, omega (arith, le))
  IsReached-again n w u x (v, err y) e f p = tt
  IsReached-again n w u x (v, fault) e f p = tt

  follows :
      (n : ℕ) (w : World) → IsReached n w (wait ros json Message middleware platform client n w)
  unfolding wait turns
  follows zero w = tt
  follows (suc n) w = by_service (wait_for_service client w) refl (follows n)
    where
      Rest : Type 0
      Rest = (u : World) → IsReached n u (wait ros json Message middleware platform client n u)

      by_interrupt :
          (u : World) (r : World × Bool)
          → wait_for_service client w ≡ (u, false)
          → is_ok u ≡ r
          → Rest
          → IsReached (suc n) w (wait ros json Message middleware platform client (suc n) w)
      by_interrupt u (v, false) e f more = rw (round_stops w u v e f, wait) (stops e f, omega arith)
      by_interrupt u (x, true) e f more =
          rw (round_goes_on w u x e f, wait)
            (IsReached-again n w u x (wait ros json Message middleware platform client n x) e f
              (more x))

      by_service :
          (r : World × Bool)
          → wait_for_service client w ≡ r
          → Rest
          → IsReached (suc n) w (wait ros json Message middleware platform client (suc n) w)
      by_service (v, true) e more = rw (round_arrives w v e, wait) (arrives e, omega arith)
      by_service (u, false) e more = by_interrupt u (is_ok u) e refl more

  -- The loop around wait_for_service ends in a state with an answer exactly if, behind fewer rounds
  -- than its bound in which wait_for_service fails and rclcpp::ok succeeds, either wait_for_service
  -- succeeds, for the answer true, or it fails and so does rclcpp::ok, for the answer false.
  pub wait_iff :
      (n : ℕ) (w v : World) (b : Bool)
      → (wait ros json Message middleware platform client n w ≡ (v, ok b)) ↔ Within n w v b
  wait_iff n w v b = (λ e. subst (IsReached n w) e (follows n w), λ p. enough n p.0 p.1)
