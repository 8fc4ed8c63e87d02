-- ===== src/Names/Find.antt =====
-- Where a pattern is found.
use rws.Base.{
  ℕ, suc, ◌+◌, ◌≡◌, refl, ap, sym, ◌∙◌, false, none, some, [], ◌∷◌, ◌++◌, ◌==◌, length, take, drop,
  Option-cases, Bool-cases, ◌⊎◌, ==_iff, inl, inr, arith,
}
use rws.Base.Text.{Text}
use rws.Names.{starts_with, find_text, find_first_of, find_last_of, slash, msg, replace}

drop_later : (j n b : ℕ) (s : Text) → drop (suc j + n) (b ∷ s) ≡ drop (j + n) s
drop_later j n b s =
    let later : suc j + n ≡ suc (j + n) = omega arith in ap (λ k. drop k (b ∷ s)) later

-- A slash is found here or further on.
slash_at :
    (b : ℕ) (s : Text) (i : ℕ)
    → find_text (slash ∷ []) (b ∷ s) ≡ some i
    → ((i ≡ 0) × (b ≡ slash))
      ⊎ ((j : ℕ) × (i ≡ suc j) × ((slash == b) ≡ false) × (find_text (slash ∷ []) s ≡ some j))
unfolding find_text starts_with
slash_at b s i e = elim (Bool-cases (slash == b)) [
  | inl hit ↦ inl (cc (rw hit at e), sym ((==_iff slash b).0 hit))
  | inr miss ↦ elim (Option-cases (find_text (slash ∷ []) s)) [
    | inl gone ↦ absurd (ground (arith, e, miss, gone))
    | inr (j, got) ↦ inr (j, ground (arith, e, miss, got), miss, got)
  ]
]

-- The text around the first slash.
pub find_text-slash :
    (s : Text) (i : ℕ)
    → find_text (slash ∷ []) s ≡ some i
    → (length (take i s) ≡ i) × (take i s ++ slash ∷ drop (i + 1) s ≡ s)
unfolding find_text
find_text-slash [] i e = cc
find_text-slash (b ∷ s) i e = elim (slash_at b s i e) [
  | inl (z, here) ↦ rw z (refl, ap (λ c. c ∷ s) (sym here))
  | inr (j, z, miss, later) ↦
      let rest = find_text-slash s j later in
      rw z
        (ap suc rest.0, ap (◌∷◌ b) (ap (λ t. take j s ++ slash ∷ t) (drop_later j 1 b s) ∙ rest.1))
]

-- The replaced slash is where "/msg/" is found first.
pub find_text-msg :
    (s : Text) (i : ℕ)
    → find_text (slash ∷ []) s ≡ some i
    → find_text msg (replace i 1 msg s) ≡ some i
unfolding find_text starts_with
find_text-msg [] i e = cc
find_text-msg (b ∷ s) i e = elim (slash_at b s i e) [
  | inl (z, here) ↦ rw z refl
  | inr (j, z, miss, later) ↦
      rw z (rw (drop_later j 1 b s) (rw (miss, find_text-msg s j later) refl))
]

pub find_text_no_slash : (s : Text) → find_text (slash ∷ []) s ≡ none → find_text msg s ≡ none
unfolding find_text starts_with
find_text_no_slash [] e = refl
find_text_no_slash (b ∷ s) e = elim (Bool-cases (slash == b)) [
  | inl hit ↦ absurd (cc (rw hit at e))
  | inr miss ↦ elim (Option-cases (find_text (slash ∷ []) s)) [
    | inl gone ↦ rw (miss, find_text_no_slash s gone) refl
    | inr (j, got) ↦ absurd (ground (arith, e, miss, got))
  ]
]

-- The last slash, where none stands behind it, and the first, where none stands in front.
pub find_last_of-append :
    (xs ys : Text)
    → find_last_of slash ys ≡ none
    → find_last_of slash (xs ++ slash ∷ ys) ≡ some (length xs)
unfolding find_last_of
find_last_of-append [] ys e = rw e refl
find_last_of-append (b ∷ xs) ys e = rw (find_last_of-append xs ys e) refl

pub find_first_of-append :
    (xs ys : Text)
    → find_first_of slash xs ≡ none
    → find_first_of slash (xs ++ slash ∷ ys) ≡ some (length xs)
unfolding find_first_of
find_first_of-append [] ys e = refl
find_first_of-append (b ∷ xs) ys e = elim (Bool-cases (b == slash)) [
  | inl hit ↦ absurd (cc (rw hit at e))
  | inr miss ↦ elim (Option-cases (find_first_of slash xs)) [
    | inl gone ↦ rw (miss, find_first_of-append xs ys gone) refl
    | inr (j, got) ↦ absurd (ground (arith, e, miss, got))
  ]
]
