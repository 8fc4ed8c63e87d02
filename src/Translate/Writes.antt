-- ===== src/Translate/Writes.antt =====
-- json_to_serialized_message writes the layout of the values that the JSON gives.
use rws.Base.{
  ℕ, zero, suc, ◌+◌, ◌%◌, ◌^◌, ◌≡◌, refl, sym, ap, ◌∙◌, Bool, true, false, not, none, some, List,
  [], ◌∷◌, ◌++◌, if◌then◌else◌, length, length-append, append_assoc, append-nil, Option, arith,
}
use rws.Base.Result.{Result, ok, err, fault, unknown_type, ◌>>=◌, >>=_assoc}
use rws.Base.Text.{text_eq}
use rws.Cdr.Host.{four_bytes, Host}
use rws.Cdr.Ser as Ser
use rws.Cdr.Ser.{Cycser, insert, scalar}
use rws.Cdr.Ser.Layout.{
  layout, layout_all, IsOpen, extended, extended-IsOpen, extended-extended, insert-layout,
}
use rws.Cdr.Deser.{Shape}
use rws.Members.{TypeId, type_shape, Arity, is_fixed, Members, end, plain, nested}
use rws.Json.{Json}
use rws.Translate.{
  placeholder, member_of, get_or_default, item_or_default, sequence_size, serialize_items,
  serialize_field, serialize_messages, json_to_serialized_message,
}
use rws.Translate.Values.{Values, both, one, each, field_values, message_values}

pub layout_all-append :
    (h : Host) (xs ys : List Ser.Value) (off : ℕ)
    → layout_all h (xs ++ ys) off
      ≡ layout_all h xs off ++ layout_all h ys (off + length (layout_all h xs off))
unfolding layout_all
layout_all-append h [] ys off = ap (layout_all h ys) (omega arith)
layout_all-append h (x ∷ xs) ys off =
    let bs : List ℕ = layout h x off in
    let cs : List ℕ = layout_all h xs (off + length bs) in
    ap (◌++◌ bs) (layout_all-append h xs ys (off + length bs))
    ∙ sym (append_assoc bs cs _)
    ∙ ap (λ n. (bs ++ cs) ++ layout_all h ys n) (omega (arith, length-append bs cs))

module _ (json : Json) (h : Host) where
  open json use {Value, size, item}

  -- A serializing step appends the layout of these values, or throws what stands in their place.
  abbrev pub Writes : Values → (Cycser → Result Cycser) → Type 0
  Writes m f = (s : Cycser) → IsOpen s → f s ≡ (m >>= λ vs. ok (extended s (layout_all h vs s.off)))

  extended-nil : (s : Cycser) → extended s [] ≡ s
  extended-nil s =
      let same : s.off + 0 ≡ s.off = omega arith in
      λ i. record { dst = append-nil s.dst i; off = same i }

  Writes-nil : Writes (ok []) ok
  unfolding layout_all
  Writes-nil s o = ap ok (sym (extended-nil s))

  Writes-one : (m : Result Ser.Value) → Writes (one m) (λ s. m >>= λ v. insert h v s)
  unfolding layout_all
  Writes-one (ok v) s o =
      insert-layout h v s o ∙ ap (λ bs. ok (extended s bs)) (sym (append-nil (layout h v s.off)))
  Writes-one (err e) s o = refl
  Writes-one fault s o = refl

  Writes-both :
      (m n : Values) (f g : Cycser → Result Cycser)
      → Writes m f
      → Writes n g
      → Writes (both m n) (λ s. f s >>= g)
  Writes-both (ok xs) n f g w v s o =
      let bs : List ℕ = layout_all h xs s.off in
      rw (w s o) (rw (v (extended s bs) (extended-IsOpen s bs o)) (joined n))
    where
      joined :
          (n : Values)
          → (n >>= λ vs. ok (
              extended
                (extended s (layout_all h xs s.off))
                (layout_all h vs (s.off + length (layout_all h xs s.off)))))
            ≡ (both (ok xs) n >>= λ vs. ok (extended s (layout_all h vs s.off)))
      joined (ok ys) = ap ok (
          extended-extended s (layout_all h xs s.off) _
          ∙ ap (extended s) (sym (layout_all-append h xs ys s.off)))
      joined (err e) = refl
      joined fault = refl
  Writes-both (err e) n f g w v s o = rw (w s o) refl
  Writes-both fault n f g w v s o = rw (w s o) refl

  -- An item that may throw before it is written.
  Writes->>= :
      {A : Type 0} (m : Result A) (p : A → Values) (f : A → Cycser → Result Cycser)
      → ((a : A) → Writes (p a) (f a))
      → Writes (m >>= p) (λ s. m >>= λ a. f a s)
  Writes->>= (ok a) p f w s o = w a s o
  Writes->>= (err e) p f w s o = refl
  Writes->>= fault p f w s o = refl

  serialize_items-Writes :
      (sh : Shape) (t : TypeId) (n i : ℕ) (field : Value)
      → Writes
          (each (λ k. one (item_or_default json h sh t k field)) n i)
          (serialize_items json h sh t n i field)
  unfolding each serialize_items
  serialize_items-Writes sh t zero i field s o = Writes-nil s o
  serialize_items-Writes sh t (suc n) i field s o =
      let m = item_or_default json h sh t i field in
      >>=_assoc m (λ v. insert h v s) (serialize_items json h sh t n (suc i) field)
      ∙ Writes-both (one m) _ _ _ (Writes-one m) (serialize_items-Writes sh t n (suc i) field) s o

  serialize_messages-Writes :
      (p : Value → Values) (f : Value → Cycser → Result Cycser)
      → ((x : Value) → Writes (p x) (f x))
      → (n i : ℕ) (field : Value)
      → Writes (each (λ k. item k field >>= p) n i) (serialize_messages json h f n i field)
  unfolding each serialize_messages
  serialize_messages-Writes p f w zero i field s o = Writes-nil s o
  serialize_messages-Writes p f w (suc n) i field s o =
      >>=_assoc (item i field) (λ x. f x s) (serialize_messages json h f n (suc i) field)
      ∙ Writes-both (item i field >>= p) _ (λ s. item i field >>= λ x. f x s) _
          (Writes->>= (item i field) p f w) (serialize_messages-Writes p f w n (suc i) field) s o

  Writes-if :
      (b : Bool) (m n : Values) (f g : Cycser → Result Cycser)
      → Writes m f
      → Writes n g
      → Writes (if b then m else n) (λ s. if b then f s else g s)
  Writes-if true m n f g w v = w
  Writes-if false m n f g w v = v

  -- A length, and what is written behind it.
  Writes-counted :
      (n : ℕ) (m : Values) (f : Cycser → Result Cycser)
      → Writes m f
      → Writes
          (both (ok (scalar four_bytes n ∷ [])) m)
          (λ s. insert h (scalar four_bytes n) s >>= f)
  Writes-counted n m f w =
      Writes-both (ok (scalar four_bytes n ∷ [])) m _ f (Writes-one (ok (scalar four_bytes n))) w

  serialize_field-Writes :
      (sh : Shape) (t : TypeId) (a : Arity) (field : Value)
      → Writes (field_values json h sh t a field) (serialize_field json h sh t a field)
  unfolding field_values serialize_field
  serialize_field-Writes sh t a field =
      Writes-if (not a.is_array) _ _ _ _ (Writes-one (get_or_default json h sh t field)) (
        Writes-if (is_fixed a) _ _ _ _ (serialize_items-Writes sh t a.array_size 0 field) (
          Writes-counted (size field % 2 ^ 32) _ _
            (serialize_items-Writes sh t (size field % 2 ^ 32) 0 field)))

  -- The writer of a message.
  pub json_to_serialized_message-Writes :
      (ms : Members) (j : Value)
      → Writes (message_values json h ms j) (json_to_serialized_message json h ms j)
  unfolding message_values json_to_serialized_message
  json_to_serialized_message-Writes end j = Writes-nil
  json_to_serialized_message-Writes (plain name t a rest) j =
      Writes-both _ _ _ _
        (Writes-if (text_eq name placeholder) _ _ _ _ Writes-nil (typed (type_shape t)))
        (json_to_serialized_message-Writes rest j)
    where
      typed :
          (o : Option Shape)
          → Writes
              (elim o [
                | none ↦ err unknown_type
                | some sh ↦ field_values json h sh t a (member_of json h name j)
              ])
              (λ s. elim o [
                | none ↦ err unknown_type
                | some sh ↦ serialize_field json h sh t a (member_of json h name j) s
              ])
      typed none s o = refl
      typed (some sh) s o = serialize_field-Writes sh t a (member_of json h name j) s o
  json_to_serialized_message-Writes (nested name namespace msg_name sub a rest) j =
      let field = member_of json h name j in
      let inner = json_to_serialized_message-Writes sub in
      Writes-both _ _ _ _
        (Writes-if (text_eq name placeholder) _ _ _ _ Writes-nil (
          Writes-if (not a.is_array) _ _ _ _ (inner field) (
            Writes-if (is_fixed a) _ _ _ _
              (serialize_messages-Writes _ _ inner a.array_size 0 field)
              (Writes-counted (sequence_size json h field % 2 ^ 32) _ _
                (serialize_messages-Writes _ _ inner (sequence_size json h field) 0 field)))))
        (json_to_serialized_message-Writes rest j)
