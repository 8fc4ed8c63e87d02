-- ===== src/Translate/Sound.antt =====
-- Descriptors of messages that are read back as they are written, and that such a message always
-- has a value.
use rws.Base.{
  ℕ, zero, suc, ◌≤◌, ◌≡◌, ◌≢◌, refl, ap, Bool, true, false, not, some, List, [], ◌∷◌, if◌then◌else◌,
  length, length-append, All, arith,
}
use rws.Base.Result.{Result, ok, ◌>>=◌, >>=-eq-ok}
use rws.Base.Text.{Text, text_eq}
use rws.Cdr.Host.{four_bytes, Host}
use rws.Cdr.Ser as Ser
use rws.Cdr.Ser.{scalar}
use rws.Cdr.Deser.{Shape}
use rws.Members.{TypeId, type_shape, Arity, is_fixed, Members, end, plain, nested}
use rws.Json.{Json}
use rws.Translate.{placeholder, member_of, get_or_default, item_or_default}
use rws.Translate.Values.{
  Values, both, one, each, both-eq-ok, one-eq-ok, field_values, message_values,
}

abbrev pub names : Members → List Text
names end = []
names (plain name t a rest) = name ∷ names rest
names (nested name namespace msg_name sub a rest) = name ∷ names rest

abbrev pub is_empty : Members → Bool
is_empty end = true
is_empty (plain name t a rest) = false
is_empty (nested name namespace msg_name sub a rest) = false

-- The names differ, none is that of the member that stands for an empty message, the types are
-- known, and an array of messages has its get_function.
abbrev pub IsSound : Members → Type 0
IsSound end = Unit {0}
IsSound (plain name t a rest) =
    (text_eq name placeholder ≡ false)
    × All (λ other. name ≢ other) (names rest)
    × ((sh : Shape) × (type_shape t ≡ some sh))
    × IsSound rest
IsSound (nested name namespace msg_name sub a rest) =
    (text_eq name placeholder ≡ false)
    × All (λ other. name ≢ other) (names rest)
    × (a.get_function ≡ true)
    × (is_empty sub ≡ false)
    × IsSound sub
    × IsSound rest

-- Whenever it succeeds, it gives at least one value.
abbrev pub Gives : Values → Type 0
Gives m = (xs : List Ser.Value) → m ≡ ok xs → 1 ≤ length xs

Gives-both_left : (m n : Values) → Gives m → Gives (both m n)
Gives-both_left m n g xs e =
    let (us, ws, first, others, split) = both-eq-ok m n e in
    omega (arith, g us first, length-append us ws, ap length split)

Gives-one : (m : Result Ser.Value) → Gives (one m)
Gives-one m xs e = let (v, got, single) = one-eq-ok m e in omega (arith, ap length single)

Gives-counted : (n : ℕ) (m : Values) → Gives (both (ok (scalar four_bytes n ∷ [])) m)
Gives-counted n m =
    Gives-both_left (ok (scalar four_bytes n ∷ [])) m (Gives-one (ok (scalar four_bytes n)))

Gives-if : (b : Bool) (m n : Values) → Gives m → (b ≡ false → Gives n) → Gives (if b then m else n)
Gives-if true m n g g' = g
Gives-if false m n g g' = g' refl

pub length-each :
    (f : ℕ → Values)
    → ((i : ℕ) → Gives (f i))
    → (n i : ℕ) (xs : List Ser.Value) → each f n i ≡ ok xs
    → n ≤ length xs
unfolding each
length-each f g zero i xs e = omega arith
length-each f g (suc n) i xs e =
    let (us, ws, first, others, split) = both-eq-ok (f i) (each f n (suc i)) e in
    omega (
      arith,
      g i us first,
      length-each f g n (suc i) ws others,
      length-append us ws,
      ap length split,
    )

Gives-each : (f : ℕ → Values) (n : ℕ) → ((i : ℕ) → Gives (f i)) → 1 ≤ n → Gives (each f n 0)
Gives-each f n g some_items xs e = omega (arith, length-each f g n 0 xs e)

is_fixed-nonzero : (a : Arity) → is_fixed a ≡ true → 1 ≤ a.array_size
is_fixed-nonzero a e = ground arith

-- A single member, or an array of `f`, whose length is known or written first.
Gives-member :
    (a : Arity) (m : Values) (f : ℕ → Values) (count n : ℕ)
    → Gives m
    → ((i : ℕ) → Gives (f i))
    → Gives (
        if not a.is_array
        then m
        else if is_fixed a
        then each f a.array_size 0
        else both (ok (scalar four_bytes count ∷ [])) (each f n 0))
Gives-member a m f count n g g' =
    Gives-if (not a.is_array) _ _ g λ _. fixed (is_fixed a) (is_fixed-nonzero a)
  where
    fixed :
        (b : Bool)
        → (b ≡ true → 1 ≤ a.array_size)
        → Gives (
            if b
            then each f a.array_size 0
            else both (ok (scalar four_bytes count ∷ [])) (each f n 0))
    fixed true nonzero = Gives-each f a.array_size g' (nonzero refl)
    fixed false nonzero = Gives-counted count _

module _ (json : Json) (h : Host) where
  open json use {Value, size, item}

  pub Gives->>= :
      (m : Result Value) (p : Value → Values) → ((x : Value) → Gives (p x)) → Gives (m >>= p)
  Gives->>= m p g xs e = let (x, got, rest) = >>=-eq-ok m p e in g x xs rest

  field_values-Gives :
      (sh : Shape) (t : TypeId) (a : Arity) (x : Value) → Gives (field_values json h sh t a x)
  unfolding field_values
  field_values-Gives sh t a x =
      Gives-member a (one (get_or_default json h sh t x))
        (λ i. one (item_or_default json h sh t i x)) _ _ (Gives-one _) (λ i. Gives-one _)

  pub message_values-Gives :
      (ms : Members)
      → IsSound ms
      → is_empty ms ≡ false
      → (j : Value) → Gives (message_values json h ms j)
  unfolding message_values
  message_values-Gives end s e j = cc
  message_values-Gives (plain name t a rest) (named, others, (sh, typed), s) e j =
      rw (named, typed) (Gives-both_left _ _ (field_values-Gives sh t a (member_of json h name j)))
  message_values-Gives (nested name namespace msg_name sub a rest)
        (named, others, function, filled, s, s') e j =
      rw named (
        Gives-both_left _ _ (
          Gives-member a _ _ _ _ (message_values-Gives sub s filled (member_of json h name j)) λ i.
            Gives->>= (item i (member_of json h name j)) (message_values json h sub)
              (message_values-Gives sub s filled)))
