-- ===== src/Translate/ReadBack.antt =====
-- serialized_message_to_json on the bytes that json_to_serialized_message has written.
use rws.Base.{
  ℕ, ◌%◌, ◌^◌, ◌≤◌, ◌<◌, ◌≡◌, refl, sym, ap, ◌∙◌, Bool, true, false, not, ◌&&◌, List, [], ◌∷◌, ◌++◌,
  ◌==◌, if◌then◌else◌, length, arith,
}
use mathlib.Core.Path.{subst}
use rws.Base.Result.{Result, ok, err, null_get_function, ◌>>=◌, ◌>>◌, >>=_assoc}
use rws.Base.Text.{Text}
use rws.Cdr.Host.{one_byte, four_bytes, Host}
use rws.Cdr.Ser.{scalar}
use rws.Cdr.Deser.{Cycdeser, deserialize_len}
use rws.Members.{Arity, is_fixed, Members, end, plain, nested}
use rws.Json.{Json, JsonLaws}
use rws.Translate.{
  or_null, member_of, sequence_size, message_count, check_function, deserialize_field,
  deserialize_messages, serialized_message_to_json,
}
use rws.Translate.Values.{Values, both, each, both-eq-ok, field_values, message_values}
use rws.Translate.Reads.{Fit, Fit-append, Reads-eq, Reads-len}
use rws.Translate.Fields.{Restores, field-Restores}
use rws.Translate.Sound.{names, IsSound, Gives, Gives->>=, length-each, message_values-Gives}
use rws.Translate.Parts.{
  Reader, IsOpen, Lacks, Agree, RestoresIn, RestoresIn-eq, RestoresIn-nil, RestoresIn-both,
  RestoresIn-set,
}
use rws.Translate.Arrays.{IsPart, IsPart-null, messages-Restores}

-- `h` reads what `k` has written.
module _ (json : Json) (h k : Host) (same : h.wchar ≡ k.wchar) (laws : JsonLaws json k) where
  open json use {Value, set, null, is_null, is_object, find_member, item}

  RestoresIn-if :
      (ns : List Text) (b : Bool) (m n : Value → Values) (f g : Reader json h k same laws)
      → RestoresIn json h k same laws ns m f
      → RestoresIn json h k same laws ns n g
      → RestoresIn json h k same laws ns
          (λ j. if b then m j else n j)
          (λ j d. if b then f j d else g j d)
  RestoresIn-if ns true m n f g r s = r
  RestoresIn-if ns false m n f g r s = s

  module _ (p : Value → Values) (f : Reader json h k same laws)
      (r : Restores json h k same laws p (f null)) (name : Text) where
    -- Arrays of a fixed length, and behind a length.
    fixed-Restores :
        (n : ℕ)
        → RestoresIn json h k same laws
            (name ∷ [])
            (λ j. each (λ i. item i (member_of json k name j) >>= p) n 0)
            (deserialize_messages json h f name n 0)
    fixed-Restores n j start xs e fit o lacks =
        let fresh : null ≡ member_of json h name start = sym (ap (or_null json h) lacks.0) in
        let (j', read, o', kept, part, before, again) =
          messages-Restores json h k same laws p f r name n 0 (member_of json k name j) start xs e
            fit o
            (subst (λ a. IsPart json h k same laws a 0) fresh (IsPart-null json h k same laws)) in
        (
          j',
          read,
          o',
          kept,
          (λ l agree. ap (λ o. each (λ i. item i (or_null json k o) >>= p) n 0) agree.0 ∙ again),
        )

    counted-Restores :
        ((x : Value) → Gives (p x))
        → RestoresIn json h k same laws
            (name ∷ [])
            (λ j.
              let field = member_of json k name j in
              both
                (ok (scalar four_bytes (sequence_size json k field % 2 ^ 32) ∷ []))
                (each (λ i. item i field >>= p) (sequence_size json k field) 0))
            (λ j d.
              deserialize_len h one_byte d >>= λ r. deserialize_messages json h f name r.0 0 j r.1)
    counted-Restores gives j start zs e fit o lacks =
        let field : Value = member_of json k name j in
        let n : ℕ = sequence_size json k field in
        let (head, ys, written, items, split) =
          both-eq-ok (ok (scalar four_bytes (n % 2 ^ 32) ∷ [])) (each (λ i. item i field >>= p) n 0)
            e in
        let starts : scalar four_bytes (n % 2 ^ 32) ∷ [] ≡ head = cc in
        let joined : scalar four_bytes (n % 2 ^ 32) ∷ ys ≡ zs =
          ap (λ us. us ++ ys) starts ∙ split in
        let fit' = subst (Fit h k same) (sym joined) fit in
        let fits = Fit-append h k same (scalar four_bytes (n % 2 ^ 32) ∷ []) ys fit' in
        let few : n ≤ length ys =
          length-each (λ i. item i field >>= p) (λ i. Gives->>= json k (item i field) p gives) n 0
            ys items in
        let small : n < 2 ^ 32 = omega (arith, fits.1.few) in
        let whole : n % 2 ^ 32 ≡ n = omega arith in
        let fresh : null ≡ member_of json h name start = sym (ap (or_null json h) lacks.0) in
        let (j', read, o', kept, part, before, again) =
          messages-Restores json h k same laws p f r name n 0 field start ys items fits.1 o
            (subst (λ a. IsPart json h k same laws a 0) fresh (IsPart-null json h k same laws)) in
        (
          j',
          Reads-eq h k same
              (λ d. deserialize_len h one_byte d >>= λ r.
                deserialize_messages json h f name r.0 0 start r.1)
              j' (ap (λ n. scalar four_bytes n ∷ ys) (sym whole) ∙ joined)
              (Reads-len h k same n ys (λ n. deserialize_messages json h f name n 0 start) j' small
                few read),
          o',
          kept,
          (λ l agree.
              let there : member_of json k name l ≡ member_of json h name j' =
                ap (or_null json k) agree.0 in
              let counted : sequence_size json k (member_of json h name j') ≡ n =
                omega (arith, part.counted) in
              rw (there, counted, again) (ap ok joined)),
        )

    -- The three forms of a member that is a message.
    nested-Restores :
        (a : Arity)
        → a.get_function ≡ true
        → ((x : Value) → Gives (p x))
        → RestoresIn json h k same laws
            (name ∷ [])
            (λ j.
              let field = member_of json k name j in
              if not a.is_array
              then p field
              else if is_fixed a
              then each (λ i. item i field >>= p) a.array_size 0
              else both
                  (ok (scalar four_bytes (sequence_size json k field % 2 ^ 32) ∷ []))
                  (each (λ i. item i field >>= p) (sequence_size json k field) 0))
            (λ j d.
              if not a.is_array
              then (do (v, e) ← f (member_of json h name j) d; ok (set name v j, e))
              else (do
                (array_size, e) ← message_count json h a d
                check_function json h a array_size
                deserialize_messages json h f name array_size 0 j e))
    nested-Restores a function gives =
        RestoresIn-if (name ∷ []) (not a.is_array) _ _ _ _
          (RestoresIn-set json h k same laws name p f r)
          (RestoresIn-eq json h k same laws (name ∷ []) _ _ _ _ (λ j. refl) checked
            (RestoresIn-if (name ∷ []) (is_fixed a) _ _ _ _ (fixed-Restores a.array_size)
              (counted-Restores gives)))
      where
        unchecked : (n : ℕ) → check_function json h a n ≡ ok tt
        unchecked n = by_function (n == 0) a.get_function function
          where
            by_function :
                (b c : Bool)
                → c ≡ true
                → (if not b && not c then err null_get_function else ok tt) ≡ ok (tt {0})
            by_function true c e = refl
            by_function false true e = refl
            by_function false false e = cc

        checked :
            (j : Value) (d : Cycdeser)
            → (if is_fixed a
                then deserialize_messages json h f name a.array_size 0 j d
                else (deserialize_len h one_byte d >>= λ r.
                    deserialize_messages json h f name r.0 0 j r.1))
              ≡ (do
                (array_size, e) ← message_count json h a d
                check_function json h a array_size
                deserialize_messages json h f name array_size 0 j e)
        checked j d = by_fixed (is_fixed a)
          where
            loop : ℕ × Cycdeser → Result (Value × Cycdeser)
            loop r = deserialize_messages json h f name r.0 0 j r.1

            behind_check : (r : ℕ × Cycdeser) → loop r ≡ (check_function json h a r.0 >> loop r)
            behind_check r = rw (unchecked r.0) refl

            by_fixed :
                (b : Bool)
                → (if b then loop (a.array_size, d) else (deserialize_len h one_byte d >>= loop))
                  ≡ ((if b then ok (a.array_size, d) else deserialize_len h one_byte d) >>= λ r.
                      check_function json h a r.0 >> loop r)
            by_fixed true = behind_check (a.array_size, d)
            by_fixed false = λ i. deserialize_len h one_byte d >>= λ r. behind_check r i

  -- From null.
  pub fresh-Restores :
      (ms : Members)
      → RestoresIn json h k same laws
          (names ms)
          (message_values json k ms)
          (serialized_message_to_json json h ms)
      → Restores json h k same laws
          (message_values json k ms)
          (serialized_message_to_json json h ms null)
  fresh-Restores ms r j xs e fit =
      let open_null : IsOpen json h k same laws null = rw (laws.null_lem).0 refl in
      let (j', read, o, kept, again) = r j null xs e fit open_null (nothing (names ms)) in
      (j', read, again j' (agree j' (names ms)))
    where
      nothing : (ns : List Text) → Lacks json h k same laws ns null
      nothing [] = tt
      nothing (n ∷ ns) = (laws.find_member-null n, nothing ns)

      agree : (j' : Value) (ns : List Text) → Agree json h k same laws ns j' j'
      agree j' [] = tt
      agree j' (n ∷ ns) = (refl, agree j' ns)

  -- A message.
  pub message-Restores :
      (ms : Members)
      → IsSound ms
      → RestoresIn json h k same laws
          (names ms)
          (message_values json k ms)
          (serialized_message_to_json json h ms)
  unfolding message_values serialized_message_to_json
  message-Restores end s = RestoresIn-nil json h k same laws
  message-Restores (plain name t a rest) (named, others, (sh, typed), s) =
      RestoresIn-eq json h k same laws (name ∷ names rest) _ _ _ _ (λ j. rw (named, typed) refl)
        (λ j d.
          rw (typed, serialized_message_to_json)
            (sym (
              >>=_assoc (deserialize_field json h sh t a d) (λ r. ok (set name r.0 j, r.1))
                (λ r. serialized_message_to_json json h rest r.0 r.1))))
        (RestoresIn-both json h k same laws name (names rest) _ _ _ _ others
          (RestoresIn-set json h k same laws name (field_values json k sh t a)
            (λ v. deserialize_field json h sh t a) (field-Restores json h k same laws sh t typed a))
          (message-Restores rest s))
  message-Restores (nested name namespace msg_name sub a rest)
        (named, others, function, filled, s, s') =
      RestoresIn-eq json h k same laws (name ∷ names rest) _ _ _ _ (λ j. rw named refl)
        (λ j d. refl)
        (RestoresIn-both json h k same laws name (names rest) _ _ _ _ others
          (nested-Restores (message_values json k sub) (serialized_message_to_json json h sub)
            (fresh-Restores sub (message-Restores sub s)) name a function
            (message_values-Gives json k sub s filled))
          (message-Restores rest s'))
