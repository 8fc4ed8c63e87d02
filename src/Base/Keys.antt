-- ===== src/Base/Keys.antt =====
-- std::map with std::string keys, as an association list: the first entry of a key counts.
use mathlib.Core.Path.{◌≡◌, refl, sym, ap, ◌∙◌}
use mathlib.Core.Logic.{inl, inr}
use mathlib.Core.Bool.{Bool, true, false}
use mathlib.Core.Option.{Option, none, some}
use mathlib.Core.List.{List, [], ◌∷◌}
use rws.Base.Tests.{Bool-cases, ltb, ◌==◌, if◌then◌else◌}
use rws.Base.Text.{Text, text_eq, text_eq_refl, text_eq→eq}

-- operator< of std::string.
unfoldable pub text_lt : Text → Text → Bool
text_lt s [] = false
text_lt [] (b ∷ t) = true
text_lt (a ∷ s) (b ∷ t) = if a == b then text_lt s t else ltb a b

flipped : (s t : Text) → text_eq t s ≡ false → text_eq s t ≡ false
flipped s t e = elim (Bool-cases (text_eq s t)) [
  | inl e' ↦
      let same : text_eq t s ≡ true = ap (λ i. text_eq t i) (text_eq→eq s t e') ∙ text_eq_refl t in
      cc
  | inr e' ↦ e'
]

module _ {V : Type 0} where
  unfoldable pub find_key : Text → List (Text × V) → Option V
  find_key k [] = none
  find_key k ((j, v) ∷ m) = if text_eq j k then some v else find_key k m

  unfoldable pub erase_key : Text → List (Text × V) → List (Text × V)
  erase_key k [] = []
  erase_key k ((j, v) ∷ m) = let rest = erase_key k m in if text_eq j k then rest else (j, v) ∷ rest

  -- operator[] and assignment, which keep the order of the keys.
  unfoldable pub insert_key : Text → V → List (Text × V) → List (Text × V)
  insert_key k v [] = (k, v) ∷ []
  insert_key k v ((j, u) ∷ m) =
      let rest = insert_key k v m in
      if text_eq j k then (k, v) ∷ m else if text_lt k j then (k, v) ∷ (j, u) ∷ m else (j, u) ∷ rest

  if_twice :
      (x y : V) (o : Option V) (b : Bool)
      → (if b then some x else o) ≡ (if b then some x else if b then some y else o)
  if_twice x y o true = refl
  if_twice x y o false = refl

  if_swap :
      (x y : V) (o : Option V) (b c : Bool)
      → (b ≡ true → c ≡ false)
      → (if b then some x else if c then some y else o)
        ≡ (if c then some y else if b then some x else o)
  if_swap x y o true true apart = let no : true ≡ false = apart refl in cc
  if_swap x y o true false apart = refl
  if_swap x y o false c apart = refl

  pub find_key-insert_key :
      (k l : Text) (v : V) (m : List (Text × V))
      → find_key l (insert_key k v m) ≡ (if text_eq k l then some v else find_key l m)
  unfolding find_key insert_key
  find_key-insert_key k l v [] = refl
  find_key-insert_key k l v ((j, u) ∷ m) = elim (Bool-cases (text_eq j k)) [
    | inl e ↦
        let same : text_eq j l ≡ text_eq k l = ap (λ i. text_eq i l) (text_eq→eq j k e) in
        rw (e, same) (if_twice v u (find_key l m) (text_eq k l))
    | inr e ↦
        let apart : text_eq j l ≡ true → text_eq k l ≡ false =
          λ e'. sym (ap (λ i. text_eq k i) (text_eq→eq j l e')) ∙ flipped k j e in
        rw e (
          by_place (text_lt k j) (
            ap (λ o. if text_eq j l then some u else o) (find_key-insert_key k l v m)
            ∙ if_swap u v (find_key l m) (text_eq j l) (text_eq k l) apart))
  ]
    where
      by_place :
          (b : Bool)
          → (if text_eq j l then some u else find_key l (insert_key k v m))
            ≡ (if text_eq k l then some v else if text_eq j l then some u else find_key l m)
          → find_key l (if b then (k, v) ∷ (j, u) ∷ m else (j, u) ∷ insert_key k v m)
            ≡ (if text_eq k l then some v else if text_eq j l then some u else find_key l m)
      by_place true e = refl
      by_place false e = e

  pub find_key-erase_key :
      (k l : Text) (m : List (Text × V))
      → find_key l (erase_key k m) ≡ (if text_eq k l then none else find_key l m)
  unfolding find_key erase_key
  find_key-erase_key k l [] = if_none (text_eq k l)
    where
      if_none : (b : Bool) → ◌≡◌ {A = Option V} none (if b then none else none)
      if_none true = refl
      if_none false = refl
  find_key-erase_key k l ((j, u) ∷ m) = elim (Bool-cases (text_eq j k)) [
    | inl e ↦
        let same : text_eq j l ≡ text_eq k l = ap (λ i. text_eq i l) (text_eq→eq j k e) in
        rw (e, same) (find_key-erase_key k l m ∙ if_gone (text_eq k l))
    | inr e ↦
        let apart : text_eq j l ≡ true → text_eq k l ≡ false =
          λ e'. sym (ap (λ i. text_eq k i) (text_eq→eq j l e')) ∙ flipped k j e in
        rw e (
          ap (λ o. if text_eq j l then some u else o) (find_key-erase_key k l m)
          ∙ if_kept (text_eq j l) (text_eq k l) apart)
  ]
    where
      if_gone :
          (b : Bool)
          → (if b then none else find_key l m)
            ≡ (if b then none else if b then some u else find_key l m)
      if_gone true = refl
      if_gone false = refl

      if_kept :
          (b c : Bool)
          → (b ≡ true → c ≡ false)
          → (if b then some u else if c then none else find_key l m)
            ≡ (if c then none else if b then some u else find_key l m)
      if_kept true true apart = let no : true ≡ false = apart refl in cc
      if_kept true false apart = refl
      if_kept false c apart = refl

  -- A new entry, taken away again.
  pub erase_key_gone : (k : Text) (m : List (Text × V)) → find_key k m ≡ none → erase_key k m ≡ m
  unfolding find_key erase_key
  erase_key_gone k [] e = refl
  erase_key_gone k ((j, v) ∷ m) e = elim (Bool-cases (text_eq j k)) [
    | inl hit ↦ absurd (cc (rw hit at e))
    | inr miss ↦ rw miss (ap (◌∷◌ (j, v)) (erase_key_gone k m (rw miss at e)))
  ]

  pub erase_key-insert_key :
      (k : Text) (v : V) (m : List (Text × V))
      → find_key k m ≡ none
      → erase_key k (insert_key k v m) ≡ m
  unfolding find_key erase_key insert_key
  erase_key-insert_key k v [] e = rw (text_eq_refl k) refl
  erase_key-insert_key k v ((j, u) ∷ m) e = elim (Bool-cases (text_eq j k)) [
    | inl hit ↦ absurd (cc (rw hit at e))
    | inr miss ↦
        let absent : find_key k m ≡ none = rw miss at e in
        rw miss (
          placed (text_lt k j) miss (erase_key_gone k m absent) (erase_key-insert_key k v m absent))
  ]
    where
      placed :
          (b : Bool)
          → text_eq j k ≡ false
          → erase_key k m ≡ m
          → erase_key k (insert_key k v m) ≡ m
          → erase_key k (if b then (k, v) ∷ (j, u) ∷ m else (j, u) ∷ insert_key k v m) ≡ (j, u) ∷ m
      placed true miss gone taken = rw (text_eq_refl k, miss) (ap (◌∷◌ (j, u)) gone)
      placed false miss gone taken = rw miss (ap (◌∷◌ (j, u)) taken)

  pub find_key_first : (k : Text) (v : V) (m : List (Text × V)) → find_key k ((k, v) ∷ m) ≡ some v
  unfolding find_key
  find_key_first k v m = rw (text_eq_refl k) refl

  -- Entries of other keys.
  pub find_key_cons :
      (k l : Text) (v u : V) (m : List (Text × V))
      → find_key k m ≡ none
      → find_key l m ≡ some u
      → find_key l ((k, v) ∷ m) ≡ some u
  unfolding find_key
  find_key_cons k l v u m new e = elim (Bool-cases (text_eq k l)) [
    | inl same ↦
        let alike : find_key k m ≡ find_key l m = ap (λ i. find_key i m) (text_eq→eq k l same) in
        let no : none ≡ some u = sym new ∙ alike ∙ e in absurd (cc no)
    | inr apart ↦ rw apart e
  ]

  pub find_key_kept :
      (k l : Text) (v u : V) (m : List (Text × V))
      → find_key k m ≡ some v
      → find_key l m ≡ some u
      → ¬ (v ≡ u)
      → find_key l (erase_key k m) ≡ some u
  find_key_kept k l v u m e f ne = elim (Bool-cases (text_eq k l)) [
    | inl same ↦
        let alike : find_key k m ≡ find_key l m = ap (λ i. find_key i m) (text_eq→eq k l same) in
        let both : some v ≡ some u = sym e ∙ alike ∙ f in absurd (ne (cc both))
    | inr apart ↦ find_key-erase_key k l m ∙ rw apart f
  ]
