-- ===== src/Typesupport/Cached.antt =====
-- A library is loaded once.
use rws.Base.{
  ◌≡◌, refl, sym, ap, ◌∙◌, none, some, List, [], ◌∷◌, ◌++◌, Option-cases, Bool-cases, inl, inr,
}
use rws.Base.Keys.{find_key, find_key-insert_key}
use rws.Base.Result.{Result, ok, err, fault}
use rws.Base.Text.{Text, text_eq, text_eq→eq, text_eq_refl}
use rws.Typesupport.{Loader, Shared, stored, get_typesupport_library}

module _ {World Library : Type 0} (loader : Loader World Library) where
  abbrev Holds : Text → Library → Shared loader → Type 0
  Holds type_id library s = find_key type_id s.0 ≡ some library

  stored-kept :
      (t type_id : Text) (library : Library) (libs : List (Text × Library))
      (r : World × Result Library)
      → find_key type_id libs ≡ none
      → find_key t libs ≡ some library
      → find_key t (stored loader type_id libs r).0.0 ≡ some library
  stored-kept t type_id library libs (w, ok l) new e = elim (Bool-cases (text_eq type_id t)) [
    | inl same ↦
        let alike : find_key type_id libs ≡ find_key t libs =
          ap (λ i. find_key i libs) (text_eq→eq type_id t same) in
        let no : none ≡ some library = sym new ∙ alike ∙ e in absurd (cc no)
    | inr apart ↦ find_key-insert_key type_id t l libs ∙ rw apart e
  ]
  stored-kept t type_id library libs (w, err x) new e = e
  stored-kept t type_id library libs (w, fault) new e = e

  stored-gained :
      (type_id : Text) (libs : List (Text × Library)) (r : World × Result Library)
      (library : Library)
      → (stored loader type_id libs r).1 ≡ ok library
      → find_key type_id (stored loader type_id libs r).0.0 ≡ some library
  stored-gained type_id libs (w, ok l) library e =
      let same : l ≡ library = cc e in
      find_key-insert_key type_id type_id l libs ∙ rw (text_eq_refl type_id) (ap some same)
  stored-gained type_id libs (w, err x) library e = absurd (cc e)
  stored-gained type_id libs (w, fault) library e = absurd (cc e)

  module _ (type identifier : Text) where
    hit :
        (s : Shared loader) (library : Library)
        → Holds (type ++ identifier) library s
        → get_typesupport_library loader type identifier s ≡ (s, ok library)
    unfolding get_typesupport_library
    hit s library e = rw (e, get_typesupport_library) refl

    kept :
        (s : Shared loader) (t : Text) (library : Library)
        → Holds t library s
        → Holds t library (get_typesupport_library loader type identifier s).0
    unfolding get_typesupport_library
    kept s t library e = elim (Option-cases (find_key (type ++ identifier) s.0)) [
      | inl new ↦
          rw (new, get_typesupport_library) (stored-kept t (type ++ identifier) library s.0 _ new e)
      | inr (l, old) ↦ rw (old, get_typesupport_library) e
    ]

    gained :
        (s : Shared loader) (library : Library)
        → (get_typesupport_library loader type identifier s).1 ≡ ok library
        → Holds (type ++ identifier) library (get_typesupport_library loader type identifier s).0
    unfolding get_typesupport_library
    gained s library e = elim (Option-cases (find_key (type ++ identifier) s.0)) [
      | inl new ↦
          rw (new, get_typesupport_library)
            (stored-gained (type ++ identifier) s.0 _ library
              (rw (new, get_typesupport_library) at e))
      | inr (l, old) ↦
          let same : l ≡ library = cc (rw (old, get_typesupport_library) at e) in
          rw (old, get_typesupport_library) (old ∙ ap some same)
    ]

  -- The state behind calls with these types and identifiers.
  abbrev pub calls : List (Text × Text) → Shared loader → Shared loader
  calls [] s = s
  calls (c ∷ cs) s = calls cs (get_typesupport_library loader c.0 c.1 s).0

  calls-kept :
      (cs : List (Text × Text)) (s : Shared loader) (t : Text) (library : Library)
      → Holds t library s
      → Holds t library (calls cs s)
  calls-kept [] s t library e = e
  calls-kept (c ∷ cs) s t library e = calls-kept cs _ t library (kept c.0 c.1 s t library e)

  -- A library that has been returned once: behind any further calls, whether they return or throw,
  -- a call for the same type and identifier returns the same library, and neither loads one nor
  -- changes the state.
  pub get_typesupport_library-calls :
      (type identifier : Text) (s : Shared loader) (library : Library) (cs : List (Text × Text))
      → (get_typesupport_library loader type identifier s).1 ≡ ok library
      → let later = calls cs (get_typesupport_library loader type identifier s).0 in
        get_typesupport_library loader type identifier later ≡ (later, ok library)
  get_typesupport_library-calls type identifier s library cs e =
      hit type identifier _ library
        (calls-kept cs _ (type ++ identifier) library (gained type identifier s library e))
