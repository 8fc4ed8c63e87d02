-- ===== src/Translate/Fields.antt =====
-- A field that is not a message, written from JSON and read back into JSON.
use rws.Base.{
  ℕ, zero, suc, ◌+◌, ◌%◌, ◌^◌, ◌<◌, ◌≡◌, refl, sym, ap, ◌∙◌, Bool, true, false, not, ◌||◌, List, [],
  ◌∷◌, ◌++◌, if◌then◌else◌, some, arith,
}
use mathlib.Core.Path.{subst}
use rws.Base.Result.{Result, ok, ◌>>=◌, >>=-eq-ok}
use rws.Cdr.Host.{Width, one_byte, two_bytes, four_bytes, eight_bytes, Fits, Host}
use rws.Cdr.Ser as Ser
use rws.Cdr.Ser.{scalar}
use rws.Cdr.Deser.{Cycdeser, Shape, extract, deserialize}
use rws.Members.{TypeId, type_shape, default_value, Arity, is_fixed}
use rws.Json.{Json, JsonLaws, HasShape}
use rws.Translate.{get_or_default, item_or_default, deserialize_items, deserialize_field}
use rws.Translate.Values.{Values, both, one, each, both-eq-ok, one-eq-ok, field_values}
use rws.Translate.Reads.{
  Fit, Fit-append, Reads, Reads-eq, Reads-nil, Reads-map, Reads-append, Reads-extract, Reads-size,
}

default_value-HasShape : (h : Host) (sh : Shape) → HasShape h sh (default_value sh)
default_value-HasShape h Shape.boolean = (refl, tt)
default_value-HasShape h (Shape.scalar w) = (refl, small w)
  where
    small : (w : Width) → Fits w 0
    small one_byte = omega arith
    small two_bytes = omega arith
    small four_bytes = omega arith
    small eight_bytes = omega arith
default_value-HasShape h Shape.text = (refl, tt)
default_value-HasShape h Shape.wide_text = (refl, tt)

-- `h` reads what `k` has written.
module _ (json : Json) (h k : Host) (same : h.wchar ≡ k.wchar) (laws : JsonLaws json k) where
  open json use {Value, is_null, is_array, size, empty_array, item, set_item, to_json, get}

  -- What gives some values is read from them as something that gives them again.
  abbrev pub Restores : (Value → Values) → (Cycdeser → Result (Value × Cycdeser)) → Type 0
  Restores m f =
      (x : Value) (xs : List Ser.Value)
      → m x ≡ ok xs
      → Fit h k same xs
      → (y : Value) × Reads h k same xs f y × (m y ≡ ok xs)

  pub Restores-if :
      (b : Bool) (m n : Value → Values) (f g : Cycdeser → Result (Value × Cycdeser))
      → Restores m f
      → Restores n g
      → Restores (λ x. if b then m x else n x) (λ d. if b then f d else g d)
  Restores-if true m n f g r s = r
  Restores-if false m n f g r s = s

  pub is_array→or : (x : Value) → is_array x ≡ true → (is_null x || is_array x) ≡ true
  is_array→or x a = ground arith

  module _ (sh : Shape) (t : TypeId) (typed : type_shape t ≡ some sh) where
    get_or_default-HasShape :
        (x : Value) (v : Ser.Value) → get_or_default json k sh t x ≡ ok v → HasShape k sh v
    get_or_default-HasShape x v e = by_null (is_null x) e
      where
        by_null :
            (b : Bool) → (if b then ok (default_value sh) else get t x) ≡ ok v → HasShape k sh v
        by_null true e =
            let same_value : default_value sh ≡ v = cc in
            subst (HasShape k sh) same_value (default_value-HasShape k sh)
        by_null false e =
            let r = laws.get-HasType t x v e in
            let alike : r.0 ≡ sh = cc in subst (λ u. HasShape k u v) alike r.2

    get_or_default-to_json :
        (v : Ser.Value) → HasShape k sh v → get_or_default json k sh t (to_json t v) ≡ ok v
    get_or_default-to_json v s = let r = laws.get-to_json t v (sh, typed, s) in rw r.0 r.1

    one-Restores :
        Restores
          (λ x. one (get_or_default json k sh t x))
          (λ d. do (v, e) ← extract h sh d; ok (to_json t v, e))
    one-Restores x xs e fit =
        let (v, got, single) = one-eq-ok (get_or_default json k sh t x) e in
        let s = get_or_default-HasShape x v got in
        let good = subst (Fit h k same) (sym single) fit in
        (
          to_json t v,
          Reads-eq h k same (λ d. do (u, e) ← extract h sh d; ok (to_json t u, e)) (to_json t v)
              single
              (Reads-map h k same (v ∷ []) (extract h sh) (to_json t) v
                (Reads-extract h k same sh v s good)),
          ap one (get_or_default-to_json v s) ∙ ap ok single,
        )

    item_or_default-HasShape :
        (i : ℕ) (x : Value) (v : Ser.Value)
        → item_or_default json k sh t i x ≡ ok v
        → HasShape k sh v
    item_or_default-HasShape i x v e = by_null (is_null x) e
      where
        by_null :
            (b : Bool)
            → (if b then ok (default_value sh) else (do y ← item i x; get_or_default json k sh t y))
              ≡ ok v
            → HasShape k sh v
        by_null true e =
            let same_value : default_value sh ≡ v = cc in
            subst (HasShape k sh) same_value (default_value-HasShape k sh)
        by_null false e =
            let r = >>=-eq-ok (item i x) (get_or_default json k sh t) e in
            get_or_default-HasShape r.0 v r.2

    -- The loop, on an array that has the items before `i`.
    items-Restores :
        (n i : ℕ) (x arr : Value) (xs : List Ser.Value)
        → each (λ i. one (item_or_default json k sh t i x)) n i ≡ ok xs
        → Fit h k same xs
        → is_array arr ≡ true
        → size arr ≡ i
        → (y : Value) × Reads h k same xs (deserialize_items json h sh t n i arr) y
          × (is_array y ≡ true)
          × (size y ≡ i + n)
          × ((m : ℕ) → m < i → item m y ≡ item m arr)
          × (each (λ i. one (item_or_default json k sh t i y)) n i ≡ ok xs)
    unfolding each deserialize_items
    items-Restores zero i x arr xs e fit a s =
        let none_read : [] ≡ xs = cc in
        (
          arr,
          Reads-eq h k same (deserialize_items json h sh t zero i arr) arr none_read
              (Reads-nil h k same arr),
          a,
          omega (arith, s),
          (λ m l. refl),
          e,
        )
    items-Restores (suc n) i x arr xs e fit a s =
        let (us, ws, first, others, split) =
          both-eq-ok (one (item_or_default json k sh t i x))
            (each (λ i. one (item_or_default json k sh t i x)) n (suc i)) e in
        let (v, got, single) = one-eq-ok (item_or_default json k sh t i x) first in
        let shape = item_or_default-HasShape i x v got in
        let fits = Fit-append h k same us ws (subst (Fit h k same) (sym split) fit) in
        let good = subst (Fit h k same) (sym single) fits.0 in
        let put = laws.set_item-array i (to_json t v) arr (is_array→or arr a) s in
        let arr' : Value = set_item i (to_json t v) arr in
        let (y, read, array, sized, before, again) =
          items-Restores n (suc i) x arr' ws others fits.1 put.0 put.1 in
        let here : item_or_default json k sh t i y ≡ ok v =
          rw (laws.is_null-array y array)
            (rw (before i (omega arith) ∙ put.2) (get_or_default-to_json v shape)) in
        (
          y,
          Reads-eq h k same (deserialize_items json h sh t (suc n) i arr) y
              (ap (λ us. us ++ ws) single ∙ split)
              (Reads-append h k same (v ∷ []) ws (extract h sh) _ v y
                (Reads-extract h k same sh v shape good) read),
          array,
          omega (arith, sized),
          (λ m l.
              before m (omega arith)
              ∙ laws.item-set_item m i (to_json t v) arr (is_array→or arr a) s l),
          ap (λ o. both (one o) (each (λ i. one (item_or_default json k sh t i y)) n (suc i))) here
              ∙ ap (λ o. both (ok (v ∷ [])) o) again
              ∙ ap (λ us. ok (us ++ ws)) single
              ∙ ap ok split,
        )

    -- All three forms of a field.
    pub field-Restores :
        (a : Arity) → Restores (field_values json k sh t a) (deserialize_field json h sh t a)
    unfolding field_values deserialize_field
    field-Restores a = Restores-if (not a.is_array) _ _ _ _ one-Restores (
        Restores-if (is_fixed a) _ _ _ _
          (λ x xs e fit.
            let (e0, e1) = laws.array_lem in
            let (y, read, array, sized, before, again) =
              items-Restores a.array_size 0 x empty_array xs e fit e0 e1 in
            (y, read, again))
          counted)
      where
        counted :
            Restores
              (λ x.
                both
                  (ok (scalar four_bytes (size x % 2 ^ 32) ∷ []))
                  (each (λ i. one (item_or_default json k sh t i x)) (size x % 2 ^ 32) 0))
              (λ d. do
                (n, e) ← deserialize h four_bytes d
                deserialize_items json h sh t n 0 empty_array e)
        counted x xs e fit =
            let n : ℕ = size x % 2 ^ 32 in
            let (head, ys, written, items, split) =
              both-eq-ok (ok (scalar four_bytes n ∷ []))
                (each (λ i. one (item_or_default json k sh t i x)) n 0) e in
            let starts : scalar four_bytes n ∷ [] ≡ head = cc in
            let joined : scalar four_bytes n ∷ ys ≡ xs = ap (λ us. us ++ ys) starts ∙ split in
            let fits =
              Fit-append h k same (scalar four_bytes n ∷ []) ys
                (subst (Fit h k same) (sym joined) fit) in
            let (e0, e1) = laws.array_lem in
            let (y, read, array, sized, before, again) =
              items-Restores n 0 x empty_array ys items fits.1 e0 e1 in
            let same_size : size y % 2 ^ 32 ≡ n = omega (arith, sized) in
            (
              y,
              Reads-eq h k same
                  (λ d. do
                    (n, e) ← deserialize h four_bytes d
                    deserialize_items json h sh t n 0 empty_array e)
                  y joined
                  (Reads-append h k same (scalar four_bytes n ∷ []) ys (deserialize h four_bytes)
                    (λ n. deserialize_items json h sh t n 0 empty_array) n y
                    (Reads-size h k same n (omega arith)) read),
              rw same_size (rw again (ap ok joined)),
            )
