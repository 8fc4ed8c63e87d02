-- ===== src/Names/Split.antt =====
-- extract_type_identifier and split_ns_node_name: they take apart what a slash has joined.
use rws.Base.{
  ℕ, suc, ◌+◌, ◌-◌, ◌≡◌, ◌≢◌, ◌<◌, refl, sym, ap, ◌∙◌, none, some, true, false, ◌||◌, [], ◌∷◌, ◌++◌,
  length, take, drop, take-append, drop-append, drop-drop, length-append, arith, append_assoc, ltb,
  ◌==◌,
}
use rws.Base.Result.{ok}
use rws.Base.Text.{Text}
use rws.Names.{
  find_first_of, find_last_of, slash, substr, extract_type_identifier, split_ns_node_name,
}
use rws.Names.Find.{find_last_of-append, find_first_of-append}

drop_behind : (i : ℕ) (xs ys : Text) → i ≡ length xs → drop (i + 1) (xs ++ slash ∷ ys) ≡ ys
drop_behind i xs ys e = drop-drop i 1 (i + 1) _ refl ∙ ap (drop 1) (drop-append i xs (slash ∷ ys) e)

-- split_ns_node_name takes a namespace and a node name without a slash apart again.
pub split_ns_node_name-append :
    (ns node : Text)
    → find_last_of slash node ≡ none
    → split_ns_node_name (ns ++ slash ∷ node) ≡ ok (ns, node)
unfolding split_ns_node_name
split_ns_node_name-append ns node e =
    rw (find_last_of-append ns node e, split_ns_node_name)
      (rw (take-append (length ns) ns (slash ∷ node) refl, drop_behind (length ns) ns node refl)
        refl)

filled_length : (xs : Text) → xs ≢ [] → 0 < length xs
filled_length [] f = absurd (f refl)
filled_length (x ∷ xs) f = omega arith

-- extract_type_identifier takes a name of three parts apart again, if the package and the type have
-- no slash in them and the type is not empty; the middle part may have slashes.
pub extract_type_identifier-append :
    (package_name middle type : Text)
    → find_first_of slash package_name ≡ none
    → find_last_of slash type ≡ none
    → type ≢ []
    → extract_type_identifier (package_name ++ slash ∷ (middle ++ slash ∷ type))
      ≡ ok (package_name, middle, type)
unfolding extract_type_identifier
extract_type_identifier-append package_name middle type p q filled =
    let head : Text = package_name ++ slash ∷ middle in
    let whole : Text = package_name ++ slash ∷ (middle ++ slash ∷ type) in
    let joined : head ++ slash ∷ type ≡ whole =
      append_assoc package_name (slash ∷ middle) (slash ∷ type) in
    let back : find_last_of slash whole ≡ some (length head) =
      ap (find_last_of slash) (sym joined) ∙ find_last_of-append head type q in
    let front : find_first_of slash whole ≡ some (length package_name) =
      find_first_of-append package_name (middle ++ slash ∷ type) p in
    let sizes : length head ≡ length package_name + suc (length middle) =
      length-append package_name (slash ∷ middle) in
    let total : length whole ≡ length head + suc (length type) =
      ap length (sym joined) ∙ length-append head (slash ∷ type) in
    let inner : (length head == 0 || length head == length whole - 1) ≡ false =
      ground (arith, sizes, total, filled_length type filled) in
    let between : ltb 0 (length head - length package_name) ≡ true = ground (arith, sizes) in
    let behind : drop (length package_name + 1) whole ≡ middle ++ slash ∷ type =
      drop_behind (length package_name) package_name (middle ++ slash ∷ type) refl in
    let mid : substr (length package_name + 1) (length head - length package_name - 1) whole
        ≡ middle =
      ap (take (length head - length package_name - 1)) behind
      ∙ take-append (length head - length package_name - 1) middle (slash ∷ type)
          (omega (arith, sizes)) in
    let last : drop (length head + 1) whole ≡ type =
      ap (drop (length head + 1)) (sym joined) ∙ drop_behind (length head) head type refl in
    let first : take (length package_name) whole ≡ package_name =
      take-append (length package_name) package_name _ refl in
    rw (back, front, extract_type_identifier) (rw (inner, between) (rw (first, mid, last) refl))
