-- ===== src/Translate/Arrays.antt =====
-- The loop that reads an array of messages into a member of a JSON object.
use rws.Base.{ℕ, zero, suc, ◌+◌, ◌<◌, ◌≡◌, refl, sym, ap, ◌∙◌, true, ◌||◌, List, [], ◌∷◌, arith}
use mathlib.Core.Path.{subst}
use rws.Base.Result.{ok, ◌>>=◌, >>=-eq-ok}
use rws.Base.Text.{Text}
use rws.Cdr.Host.{Host}
use rws.Cdr.Ser as Ser
use rws.Json.{Json, JsonLaws}
use rws.Translate.{or_null, member_of, sequence_size, deserialize_messages}
use rws.Translate.Values.{Values, each, both-eq-ok}
use rws.Translate.Reads.{Fit, Fit-append, Reads, Reads-eq, Reads-nil, Reads-append}
use rws.Translate.Fields.{Restores, is_array→or}
use rws.Translate.Parts.{Reader, IsOpen, Kept, object→or}

-- `h` reads what `k` has written.
module _ (json : Json) (h k : Host) (same : h.wchar ≡ k.wchar) (laws : JsonLaws json k) where
  open json use {Value, set, null, is_null, is_array, size, find_member, item, set_item}

  -- An array of `n` items; or null, which becomes an array, for 0.
  pub record IsPart (arr : Value) (n : ℕ) : Type 0 where
    pub fillable : (is_null arr || is_array arr) ≡ true
    pub sized : size arr ≡ n
    pub counted : sequence_size json k arr ≡ n
    pub behind : item n arr ≡ ok null

  pub IsPart-null : IsPart null 0
  IsPart-null =
      let (e0, e1, e2) = laws.null_lem in
      record { fillable = rw e0; sized = e1; counted = rw e2; behind = laws.item-null 0 }

  IsPart-array : (arr : Value) (n : ℕ) → is_array arr ≡ true → size arr ≡ n → IsPart arr n
  IsPart-array arr n a s = record {
    fillable = is_array→or json h k same laws arr a;
    sized = s;
    counted = rw a s;
    behind = laws.item_behind n arr a (omega (arith, s));
  }

  -- `p` gives what the reader `f` reads for one message.
  module _ (p : Value → Values) (f : Reader json h k same laws)
      (r : Restores json h k same laws p (f null)) (name : Text) where
    pub messages-Restores :
        (n i : ℕ) (field start : Value) (xs : List Ser.Value)
        → each (λ i. item i field >>= p) n i ≡ ok xs
        → Fit h k same xs
        → IsOpen json h k same laws start
        → IsPart (member_of json h name start) i
        → (j : Value) × Reads h k same xs (deserialize_messages json h f name n i start) j
          × IsOpen json h k same laws j
          × Kept json h k same laws (name ∷ []) start j
          × IsPart (member_of json h name j) (i + n)
          × ((m : ℕ)
              → m < i
              → item m (member_of json h name j) ≡ item m (member_of json h name start))
          × (each (λ i. item i (member_of json h name j) >>= p) n i ≡ ok xs)
    unfolding each deserialize_messages
    messages-Restores zero i field start xs e fit o part =
        let none_read : [] ≡ xs = cc in
        (
          start,
          Reads-eq h k same (deserialize_messages json h f name zero i start) start none_read
              (Reads-nil h k same start),
          o,
          (λ n away. refl),
          subst (IsPart (member_of json h name start)) (omega arith) part,
          (λ m l. refl),
          e,
        )
    messages-Restores (suc n) i field start zs e fit o part =
        let old : Value = member_of json h name start in
        let (xs, ys, first, others, split) =
          both-eq-ok (item i field >>= p) (each (λ i. item i field >>= p) n (suc i)) e in
        let fits = Fit-append h k same xs ys (subst (Fit h k same) (sym split) fit) in
        let (x, found, gives) = >>=-eq-ok (item i field) p first in
        let (v, read, again) = r x xs gives fits.0 in
        let arr : Value = set_item i v old in
        let next : Value = set name arr start in
        let (array, grown, put) = laws.set_item-array i v old part.fillable part.sized in
        let now : member_of json h name next ≡ arr =
          ap (or_null json h) (laws.find_member-set name arr start o) in
        let (j, more, oj, kept, whole, before, again') =
          messages-Restores n (suc i) field next ys others fits.1
            (object→or json h k same laws next (laws.set-object name arr start o))
            (subst (λ a. IsPart a (suc i)) (sym now) (IsPart-array arr (suc i) array grown)) in
        let here : item i (member_of json h name j) ≡ ok v =
          before i (omega arith) ∙ ap (item i) now ∙ put in
        (
          j,
          Reads-eq h k same (deserialize_messages json h f name (suc n) i start) j split (
              rw part.behind (
                Reads-append h k same xs ys (f null)
                  (λ v.
                    deserialize_messages json h f name n (suc i)
                      (set name (set_item i v old) start))
                  v j read more)),
          oj,
          (λ m away. kept m away ∙ laws.find_member-set_ne m name arr start o away.0),
          subst (IsPart (member_of json h name j)) (omega arith) whole,
          (λ m l.
              before m (omega arith)
              ∙ ap (item m) now
              ∙ laws.item-set_item m i v old part.fillable part.sized l),
          rw here (rw again (rw again' (ap ok split))),
        )
