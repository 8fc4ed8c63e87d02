-- ===== src/Meta/Decimal.antt =====
-- The digits of a number stand for it, so the recursion goes as deep as the number needs.
use rws.Base.{
  ℕ, zero, suc, ◌+◌, ◌-◌, ◌*◌, ◌/◌, ◌%◌, ◌<◌, ◌≡◌, ◌∙◌, ap, [], ◌∷◌, ltb, Bool-cases, inl, inr,
  arith,
}
use rws.Base.Text.{Text}
use rws.Meta.{digits, to_string}

unfoldable pub read_from : ℕ → Text → ℕ
read_from n [] = n
read_from n (c ∷ s) = read_from (n * 10 + (c - 48)) s

read_from-digits :
    (fuel n : ℕ) (more : Text) → n < fuel → read_from 0 (digits fuel n more) ≡ read_from n more
unfolding digits read_from
read_from-digits zero n more l = absurd (omega arith)
read_from-digits (suc fuel) n more l = elim (Bool-cases (ltb n 10)) [
  | inl e ↦ rw e (ap (λ m. read_from m more) (omega arith))
  | inr e ↦ rw e (
      read_from-digits fuel (n / 10) ((48 + n % 10) ∷ more) (ground arith)
      ∙ ap (λ m. read_from m more) (omega arith))
]

pub read_from-to_string : (n : ℕ) → read_from 0 (to_string n) ≡ n
unfolding read_from
read_from-to_string n = read_from-digits (suc n) n [] (omega arith)
