-- ===== src/Handler/Process/System.antt =====
-- The server, its client handlers and their connector together: whose the subscriber handles are.
pub mod Owned
pub mod Reachable
use rws.Base.{
  ℕ, ◌+◌, ◌^◌, ◌<◌, ◌≡◌, refl, sym, ap, ◌∙◌, Bool, true, false, Option, none, some, List, ◌==◌,
  ==_iff, ==_refl, if◌then◌else◌, All, ◌⊎◌, inl, inr, Bool-cases,
}
use mathlib.Core.Path.{subst}
use rws.Base.Maps.{find, insert, erase, find-insert, find-erase}
use rws.Base.Result.{Result}
use rws.Base.Text.{Text}
use rws.Ros.{Ros}
use rws.Connector.{Connector}
use rws.Connector.Handles.{IsValid, sub_ids}
use rws.Json.{Json}
use rws.Server.{ConnectionData, Server}
use rws.ServiceClient.{Middleware}
use rws.Handler.Owners.{Holds, Owner, Claims, All-map}
use rws.Handler.External.{Platform}
use rws.Handler.Process.{peers}

module _ (ros : Ros) (json : Json) (Message : Type 0) (middleware : Middleware ros.World Message)
    (platform : Platform ros json Message middleware) (parse : Text → Result json.Value) where
  abbrev pub Connections : Type 0
  Connections = List (ℕ × ConnectionData (peers ros json Message middleware platform parse))

  abbrev HoldsIn : ConnectionData (peers ros json Message middleware platform parse) → ℕ → Type 0
  HoldsIn cd i = Holds ros json Message cd.node.topics i

  -- A connected client holds the closure with this id.
  pub record OwnedBy (conns : Connections) (i : ℕ) : Type 0 where
    pub hdl : ℕ
    pub cd : ConnectionData (peers ros json Message middleware platform parse)
    pub there : find hdl conns ≡ some cd
    pub holds : HoldsIn cd i

  -- Each subscriber handle of the connector is one that a connected client holds.
  pub record IsOwned (s : Server (peers ros json Message middleware platform parse)) : Type 0 where
    pub valid : IsValid ros Message s.world.0
    pub owned : All (OwnedBy s.connections) (sub_ids ros Message s.world.0.subscribers)

  -- A client of another connection does.
  pub record Elsewhere (other : ℕ) (conns : Connections) (i : ℕ) : Type 0 where
    pub owner : OwnedBy conns i
    pub apart : (other == owner.hdl) ≡ false

  pub split_some :
      (h : ℕ) (conns : Connections)
      (cd : ConnectionData (peers ros json Message middleware platform parse)) (i : ℕ)
      → find h conns ≡ some cd
      → OwnedBy conns i
      → Owner ros json Message (Elsewhere h conns) cd.node.topics i
  split_some h conns cd i e o = elim (Bool-cases (h == o.hdl)) [
    | inl same ↦
        let alike : h ≡ o.hdl = (==_iff h o.hdl).0 same in
        let found : some cd ≡ some o.cd = sym e ∙ ap (λ j. find j conns) alike ∙ o.there in
        let same_cd : cd ≡ o.cd = cc found in inr (subst (λ d. HoldsIn d i) (sym same_cd) o.holds)
    | inr apart ↦ inl (record { owner = o; apart = apart })
  ]

  pub split_none :
      (h : ℕ) (conns : Connections) (i : ℕ)
      → find h conns ≡ none
      → OwnedBy conns i
      → Elsewhere h conns i
  split_none h conns i e o = elim (Bool-cases (h == o.hdl)) [
    | inl same ↦
        let alike : h ≡ o.hdl = (==_iff h o.hdl).0 same in
        let found : none ≡ some o.cd = sym e ∙ ap (λ j. find j conns) alike ∙ o.there in
        absurd (cc found)
    | inr apart ↦ record { owner = o; apart = apart }
  ]

  pub join_erase :
      (h : ℕ) (conns : Connections) (i : ℕ) → Elsewhere h conns i → OwnedBy (erase h conns) i
  join_erase h conns i o = record {
    hdl = o.owner.hdl;
    cd = o.owner.cd;
    there = find-erase h o.owner.hdl conns ∙ rw o.apart o.owner.there;
    holds = o.owner.holds;
  }

  pub join :
      (h : ℕ) (conns : Connections)
      (cd : ConnectionData (peers ros json Message middleware platform parse)) (i : ℕ)
      → Owner ros json Message (Elsewhere h conns) cd.node.topics i
      → OwnedBy (insert h cd conns) i
  join h conns cd i (inl o) = record {
    hdl = o.owner.hdl;
    cd = o.owner.cd;
    there = find-insert h o.owner.hdl cd conns ∙ rw o.apart o.owner.there;
    holds = o.owner.holds;
  }
  join h conns cd i (inr held) = record {
    hdl = h;
    cd = cd;
    there = find-insert h h cd conns ∙ rw (==_refl h) refl;
    holds = held;
  }
