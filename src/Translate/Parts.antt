-- ===== src/Translate/Parts.antt =====
-- A message that is read back member by member: what the reader puts into the JSON object, and what
-- the writer finds there again.
use rws.Base.{◌≡◌, ◌≢◌, refl, sym, ap, ◌∙◌, true, ◌||◌, none, List, [], ◌∷◌, All, arith}
use mathlib.Core.Path.{subst, transport}
use rws.Base.Result.{Result, ok, ◌>>=◌}
use rws.Base.Text.{Text}
use rws.Cdr.Host.{Host}
use rws.Cdr.Ser as Ser
use rws.Cdr.Deser.{Cycdeser}
use rws.Json.{Json, JsonLaws}
use rws.Translate.{or_null, member_of}
use rws.Translate.Values.{Values, both, both-eq-ok}
use rws.Translate.Reads.{Fit, Fit-append, Reads, Reads-eq, Reads-nil, Reads-map, Reads-append}
use rws.Translate.Fields.{Restores}

All-zip {ℓ} :
    {A : Type ℓ} {P Q R : A → Type 0}
    → ((a : A) → P a → Q a → R a)
    → (xs : List A) → All P xs
    → All Q xs
    → All R xs
All-zip f [] p q = tt
All-zip f (x ∷ xs) p q = (f x p.0 q.0, All-zip f xs p.1 q.1)

-- `h` reads what `k` has written.
module _ (json : Json) (h k : Host) (same : h.wchar ≡ k.wchar) (laws : JsonLaws json k) where
  open json use {Value, set, null, is_null, is_object, find_member}

  abbrev pub Reader : Type 0
  Reader = Value → Cycdeser → Result (Value × Cycdeser)

  -- An object, or null, which becomes one.
  abbrev pub IsOpen : Value → Type 0
  IsOpen j = (is_null j || is_object j) ≡ true

  abbrev pub Lacks : List Text → Value → Type 0
  Lacks ns j = All (λ n. find_member n j ≡ none) ns

  -- The members of other names stay.
  abbrev pub Kept : List Text → Value → Value → Type 0
  Kept ns j j' = (n : Text) → All (λ m. n ≢ m) ns → find_member n j' ≡ find_member n j

  abbrev pub Agree : List Text → Value → Value → Type 0
  Agree ns j j' = All (λ n. find_member n j' ≡ find_member n j) ns

  pub object→or : (x : Value) → is_object x ≡ true → IsOpen x
  object→or x a = ground arith

  -- What `m` gives for a JSON value is read, into an object without the members `ns`, as an object
  -- whose members `ns` give it again.
  abbrev pub RestoresIn : List Text → (Value → Values) → Reader → Type 0
  RestoresIn ns m f =
      (j start : Value) (xs : List Ser.Value)
      → m j ≡ ok xs
      → Fit h k same xs
      → IsOpen start
      → Lacks ns start
      → (j' : Value) × Reads h k same xs (f start) j'
        × IsOpen j'
        × Kept ns start j'
        × ((l : Value) → Agree ns j' l → m l ≡ ok xs)

  -- Other ways to write the same functions.
  pub RestoresIn-eq :
      (ns : List Text) (m m' : Value → Values) (f f' : Reader)
      → ((j : Value) → m j ≡ m' j)
      → ((j : Value) (d : Cycdeser) → f j d ≡ f' j d)
      → RestoresIn ns m f
      → RestoresIn ns m' f'
  RestoresIn-eq ns m m' f f' p q = transport (λ i. RestoresIn ns (λ j. p j i) (λ j d. q j d i))

  pub RestoresIn-nil : RestoresIn [] (λ j. ok []) (λ j d. ok (j, d))
  RestoresIn-nil j start xs e fit o lacks =
      let nothing : [] ≡ xs = cc in
      (
        start,
        Reads-eq h k same (λ d. ok (start, d)) start nothing (Reads-nil h k same start),
        o,
        (λ n away. refl),
        (λ l agree. e),
      )

  -- One member before the others.
  pub RestoresIn-both :
      (name : Text) (ns : List Text) (m n : Value → Values) (f g : Reader)
      → All (λ other. name ≢ other) ns
      → RestoresIn (name ∷ []) m f
      → RestoresIn ns n g
      → RestoresIn (name ∷ ns) (λ j. both (m j) (n j)) (λ j d. f j d >>= λ r. g r.0 r.1)
  RestoresIn-both name ns m n f g differ r s j start zs e fit o lacks =
      let (xs, ys, first, others, split) = both-eq-ok (m j) (n j) e in
      let fits = Fit-append h k same xs ys (subst (Fit h k same) (sym split) fit) in
      let (a, read, oa, kept, again) = r j start xs first fits.0 o (lacks.0, tt) in
      let still =
        All-zip (λ other away absent. kept other ((λ e. away (sym e)), tt) ∙ absent) ns differ
          lacks.1 in
      let (b, more, ob, kept', again') = s j a ys others fits.1 oa still in
      (
        b,
        Reads-eq h k same (λ d. f start d >>= λ r. g r.0 r.1) b split
            (Reads-append h k same xs ys (f start) g a b read more),
        ob,
        (λ other away. kept' other away.1 ∙ kept other (away.0, tt)),
        (λ l agree.
            let here = again l (agree.0 ∙ kept' name differ, tt) in
            rw here (rw (again' l agree.1) (ap ok split))),
      )

  -- The member `name` set at once, to what is read into the value that it had.
  pub RestoresIn-set :
      (name : Text) (m : Value → Values) (f : Reader)
      → Restores json h k same laws m (f null)
      → RestoresIn
          (name ∷ [])
          (λ j. m (member_of json k name j))
          (λ j d. f (member_of json h name j) d >>= λ r. ok (set name r.0 j, r.1))
  RestoresIn-set name m f r j start xs e fit o lacks =
      let (x, read, again) = r (member_of json k name j) xs e fit in
      let fresh : null ≡ member_of json h name start = sym (ap (or_null json h) lacks.0) in
      let full = laws.find_member-set name x start o in
      (
        set name x start,
        Reads-map h k same xs (f (member_of json h name start)) (λ x. set name x start) x
            (subst (λ v. Reads h k same xs (f v) x) fresh read),
        object→or (set name x start) (laws.set-object name x start o),
        (λ n away. laws.find_member-set_ne n name x start o away.0),
        (λ l agree. ap (λ o. m (or_null json k o)) (agree.0 ∙ full) ∙ again),
      )
