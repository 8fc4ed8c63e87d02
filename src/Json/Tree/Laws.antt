-- ===== src/Json/Tree/Laws.antt =====
-- Trees obey the documented behaviour of JSON values.
use rws.Base.{
  ℕ, suc, ◌%◌, ◌≤◌, ◌<◌, ◌≡◌, ◌≢◌, refl, sym, ap, true, false, ◌||◌, none, some, Option, List, [],
  ◌∷◌, map, All, Bool-cases, inl, inr, arith,
}
use mathlib.Core.Path.{ap₂, subst}
use rws.Base.Result.{Result, ok}
use rws.Base.Text.{Text, text_eq, text_eq_refl, text_eq→eq}
use rws.Cdr.Host.{Width, one_byte, two_bytes, four_bytes, eight_bytes, modulus, Fits, Host}
use rws.Cdr.Ser as Ser
use rws.Cdr.Deser.{Shape}
use rws.Members.{TypeId, type_shape}
use rws.Json.{JsonLaws, HasType, HasShape}
use rws.Json.Tree.{
  Tree, nothing, boolean, number, text, array, last, Fields, field, count, nth, put, lookup,
  members_of, is_null_tree, is_array_tree, items_of, nth_item, size_of, to_tree, of_tree, tree,
  nth_behind, put_end, nth-put,
}

narrow_Fits : (w : Width) (x : ℕ) → Fits w (x % modulus w)
narrow_Fits one_byte x = omega arith
narrow_Fits two_bytes x = omega arith
narrow_Fits four_bytes x = omega arith
narrow_Fits eight_bytes x = omega arith

narrow_id : (w : Width) (x : ℕ) → Fits w x → x % modulus w ≡ x
narrow_id one_byte x l = omega arith
narrow_id two_bytes x l = omega arith
narrow_id four_bytes x l = omega arith
narrow_id eight_bytes x l = omega arith

map-narrow_Fits : (w : Width) (x : List ℕ) → All (Fits w) (map (λ u. u % modulus w) x)
map-narrow_Fits w [] = tt
map-narrow_Fits w (u ∷ x) = (narrow_Fits w u, map-narrow_Fits w x)

map-narrow_id : (w : Width) (x : List ℕ) → All (Fits w) x → map (λ u. u % modulus w) x ≡ x
map-narrow_id w [] l = refl
map-narrow_id w (u ∷ x) l = ap₂ ◌∷◌ (narrow_id w u l.0) (map-narrow_id w x l.1)

of_ok :
    (h : Host) (sh : Shape) (u v : Ser.Value)
    → ◌≡◌ {A = Result Ser.Value} (ok u) (ok v)
    → HasShape h sh u
    → HasShape h sh v
of_ok h sh u v e s = let alike : u ≡ v = cc in subst (HasShape h sh) alike s

of_tree-HasType :
    (h : Host) (t : TypeId) (j : Tree) (v : Ser.Value)
    → of_tree h (type_shape t) j ≡ ok v
    → HasType h t v
of_tree-HasType h t j v e = known (type_shape t) refl e
  where
    shaped : (sh : Shape) (j : Tree) → of_tree h (some sh) j ≡ ok v → HasShape h sh v
    shaped Shape.boolean (boolean b) e = of_ok h Shape.boolean (Ser.boolean b) v e (refl, tt)
    shaped (Shape.scalar w) (number x) e =
        of_ok h (Shape.scalar w) (Ser.scalar w (x % modulus w)) v e (refl, narrow_Fits w x)
    shaped Shape.text (text x) e = of_ok h Shape.text (Ser.text x) v e (refl, tt)
    shaped Shape.wide_text (text x) e =
        of_ok h Shape.wide_text (Ser.wide_text (map (λ u. u % modulus h.wchar) x)) v e
          (refl, map-narrow_Fits h.wchar x)
    shaped sh j e = cc

    known : (o : Option Shape) → type_shape t ≡ o → of_tree h o j ≡ ok v → HasType h t v
    known none p e = cc
    known (some sh) p e = (sh, p, shaped sh j e)

of_tree-to_tree :
    (h : Host) (t : TypeId) (v : Ser.Value)
    → HasType h t v
    → (is_null_tree (to_tree v) ≡ false) × (of_tree h (type_shape t) (to_tree v) ≡ ok v)
of_tree-to_tree h t (Ser.boolean b) (sh, p, (s, r)) = (refl, rw (p, s) refl)
of_tree-to_tree h t (Ser.scalar w x) (sh, p, (s, r)) =
    (refl, rw (p, s) (ap (λ y. ok (Ser.scalar w y)) (narrow_id w x r)))
of_tree-to_tree h t (Ser.text x) (sh, p, (s, r)) = (refl, rw (p, s) refl)
of_tree-to_tree h t (Ser.wide_text x) (sh, p, (s, r)) =
    (refl, rw (p, s) (ap (λ y. ok (Ser.wide_text y)) (map-narrow_id h.wchar x r)))

pub tree-JsonLaws : (h : Host) → JsonLaws (tree h) h
unfolding lookup nth put count
tree-JsonLaws h = record {
  null_lem = (refl, refl, refl);
  find_member-null = λ k. refl;
  set-object = λ k v o e. refl;
  find_member-set = λ k v o e. rw (text_eq_refl k) refl;
  find_member-set_ne = λ j k v o e n. lookup_ne j k v (members_of o) n;
  array_lem = (refl, refl);
  is_null-array = is_null-array_tree;
  item-null = λ i. refl;
  item_behind = nth_item_behind;
  set_item-array = set_item_tree;
  item-set_item = item-set_item_tree;
  get-HasType = of_tree-HasType h;
  get-to_json = of_tree-to_tree h;
}
  where
    lookup_ne :
        (j k : Text) (v : Tree) (fs : Fields) → j ≢ k → lookup j (field k v fs) ≡ lookup j fs
    lookup_ne j k v fs n = elim (Bool-cases (text_eq k j)) [
      | inl e ↦ absurd (n (sym (text_eq→eq k j e)))
      | inr e ↦ rw e refl
    ]

    is_null-array_tree : (a : Tree) → is_array_tree a ≡ true → is_null_tree a ≡ false
    is_null-array_tree (array xs) e = refl
    is_null-array_tree a e = cc

    nth_item_behind :
        (i : ℕ) (a : Tree) → is_array_tree a ≡ true → size_of a ≤ i → nth_item i a ≡ ok nothing
    nth_item_behind i (array xs) e l = ap ok (nth_behind i xs l)
    nth_item_behind i a e l = cc

    set_item_tree :
        (n : ℕ) (v a : Tree)
        → (is_null_tree a || is_array_tree a) ≡ true
        → size_of a ≡ n
        → (true ≡ true)
          × (count (put n v (items_of a)) ≡ suc n)
          × (ok (nth n (put n v (items_of a))) ≡ ok v)
    set_item_tree n v nothing e s = let r = put_end n v last s in (refl, r.0, ap ok r.1)
    set_item_tree n v (array xs) e s = let r = put_end n v xs s in (refl, r.0, ap ok r.1)
    set_item_tree n v a e s = cc

    item-set_item_tree :
        (i n : ℕ) (v a : Tree)
        → (is_null_tree a || is_array_tree a) ≡ true
        → size_of a ≡ n
        → i < n
        → ok (nth i (put n v (items_of a))) ≡ nth_item i a
    item-set_item_tree i n v nothing e s l = absurd (omega arith)
    item-set_item_tree i n v (array xs) e s l = ap ok (nth-put i n v xs s l)
    item-set_item_tree i n v a e s l = cc
