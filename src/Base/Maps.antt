-- ===== src/Base/Maps.antt =====
-- std::map with number keys, as an association list: the first entry of a key counts.
use Prim.Native.Nat.{ℕ}
use mathlib.Core.Path.{◌≡◌, refl, ap}
use mathlib.Core.Logic.{inl, inr}
use mathlib.Core.Bool.{Bool, true, false}
use mathlib.Core.Option.{Option, none, some}
use mathlib.Core.List.{List, [], ◌∷◌}
use native.Mathlib.Omega.{arith}
use rws.Base.Tests.{Option-cases, ◌==◌, if◌then◌else◌}

module _ {V : Type 0} where
  unfoldable pub find : ℕ → List (ℕ × V) → Option V
  find k [] = none
  find k ((j, v) ∷ m) = if j == k then some v else find k m

  -- operator[] and assignment.
  unfoldable pub insert : ℕ → V → List (ℕ × V) → List (ℕ × V)
  insert k v [] = (k, v) ∷ []
  insert k v ((j, u) ∷ m) = if j == k then (k, v) ∷ m else (j, u) ∷ insert k v m

  -- Every entry of the key goes.
  unfoldable pub erase : ℕ → List (ℕ × V) → List (ℕ × V)
  erase k [] = []
  erase k ((j, u) ∷ m) = let rest = erase k m in if j == k then rest else (j, u) ∷ rest

  pub find-insert :
      (k j : ℕ) (v : V) (m : List (ℕ × V))
      → find j (insert k v m) ≡ (if k == j then some v else find j m)
  unfolding find insert
  find-insert k j v [] = refl
  find-insert k j v ((i, u) ∷ m) = ground (arith, find-insert k j v m)

  pub find-erase :
      (k j : ℕ) (m : List (ℕ × V)) → find j (erase k m) ≡ (if k == j then none else find j m)
  unfolding find erase
  find-erase k j [] = ground arith
  find-erase k j ((i, u) ∷ m) = ground (arith, find-erase k j m)

  abbrev pub is_some : Option V → Bool
  is_some none = false
  is_some (some v) = true

  -- Whether a key has an entry.
  unfoldable pub contains : ℕ → List (ℕ × V) → Bool
  contains k m = is_some (find k m)

  pub contains-insert :
      (k j : ℕ) (v : V) (m : List (ℕ × V))
      → contains j (insert k v m) ≡ (if k == j then true else contains j m)
  unfolding contains
  contains-insert k j v m = ground (arith, find-insert k j v m)

  pub contains-erase :
      (k j : ℕ) (m : List (ℕ × V))
      → contains j (erase k m) ≡ (if k == j then false else contains j m)
  unfolding contains
  contains-erase k j m = ground (arith, find-erase k j m)

  pub contains-find : (k : ℕ) (m : List (ℕ × V)) (v : V) → find k m ≡ some v → contains k m ≡ true
  unfolding contains
  contains-find k m v e = ap is_some e

  -- A key with an entry can be looked up.
  pub find-contains :
      (k : ℕ) (m : List (ℕ × V)) → contains k m ≡ true → (v : V) × (find k m ≡ some v)
  unfolding contains
  find-contains k m e = elim (Option-cases (find k m)) [
    | inl gone ↦ absurd (cc (e, ap is_some gone))
    | inr got ↦ got
  ]

  pub contains_gone : (k : ℕ) (m : List (ℕ × V)) → find k m ≡ none → contains k m ≡ false
  unfolding contains
  contains_gone k m e = ap is_some e
