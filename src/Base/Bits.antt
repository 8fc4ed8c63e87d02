-- ===== src/Base/Bits.antt =====
-- The native bit operations as arithmetic, at every width. They mean a recursion on binary digits,
-- `digits`, with the left operand as fuel; each lemma is proved for any larger fuel.
use Prim.Native.Nat.{min, max, digits, bit_and-bitwise, bit_or-bitwise}
use Prim.Native.Nat.{ℕ, zero, suc, ◌+◌, ◌-◌, ◌*◌, ◌/◌, ◌^◌, ◌≤◌, ◌<◌, bit_and, bit_or}
use mathlib.Core.Path.{◌≡◌, refl, ap, ◌∙◌}
use native.Mathlib.Omega.{arith}
use native.Mathlib.Nat.{le_refl, pow-suc, one-le-pow}

-- A field of bits one place higher up.
double_pow : (q k : ℕ) → q * 2 ^ suc k ≡ 2 * (q * 2 ^ k)
double_pow q k = omega (arith, ap (λ (t : ℕ). q * t) (pow-suc 2 k))

or_high :
    (k fuel r q : ℕ) → r ≤ fuel → r < 2 ^ k → digits (λ y. y) max fuel r (q * 2 ^ k) ≡ r + q * 2 ^ k
or_high k zero zero q le fits = omega arith
or_high k zero (suc r) q le fits = absurd (omega arith)
or_high k (suc fuel) zero q le fits = omega arith
or_high zero (suc fuel) (suc r) q le fits = absurd (omega arith)
or_high (suc k) (suc fuel) (suc r) q le fits =
    ground (arith, double_pow q k, pow-suc 2 k, or_high k fuel (suc r / 2) q (omega arith))

-- `r | (q << k)` is a sum where `r` fits `k` bits.
pub bit_or_high : (k r q : ℕ) → r < 2 ^ k → bit_or r (q * 2 ^ k) ≡ r + q * 2 ^ k
bit_or_high k r q fits = bit_or-bitwise r (q * 2 ^ k) ∙ or_high k r r q (le_refl r) fits

and_zero : (fuel a : ℕ) → digits (λ y. 0) min fuel a 0 ≡ 0
and_zero zero a = refl
and_zero (suc fuel) zero = refl
and_zero (suc fuel) (suc a) = omega (arith, and_zero fuel (suc a / 2))

and_low :
    (j fuel a q r : ℕ)
    → a ≤ fuel
    → r < 2 ^ j
    → a ≡ q * 2 ^ j + r
    → digits (λ y. 0) min fuel a (2 ^ j - 1) ≡ r
and_low j zero zero q r le fits e = omega (arith, e)
and_low j zero (suc a) q r le fits e = absurd (omega arith)
and_low j (suc fuel) zero q r le fits e = omega (arith, e)
and_low zero (suc fuel) (suc a) q r le fits e = omega (arith, and_zero fuel (suc a / 2))
and_low (suc j) (suc fuel) (suc a) q r le fits e = ground (
  arith,
  e,
  pow-suc 2 j,
  one-le-pow j 2,
  double_pow q j,
  and_low j fuel (suc a / 2) q (r / 2) (omega arith),
)

and_field :
    (k j fuel a hi mid lo : ℕ)
    → a ≤ fuel
    → mid < 2 ^ j
    → lo < 2 ^ k
    → a ≡ (hi * 2 ^ j + mid) * 2 ^ k + lo
    → digits (λ y. 0) min fuel a ((2 ^ j - 1) * 2 ^ k) ≡ mid * 2 ^ k
and_field zero j fuel a hi mid lo le hm hl e =
    ap (digits (λ y. 0) min fuel a) (omega arith)
    ∙ and_low j fuel a hi mid le hm (omega arith)
    ∙ omega arith
and_field (suc k) j zero a hi mid lo le hm hl e = omega (arith, e)
and_field (suc k) j (suc fuel) zero hi mid lo le hm hl e = omega (arith, e)
and_field (suc k) j (suc fuel) (suc a) hi mid lo le hm hl e = ground (
  arith,
  double_pow (2 ^ j - 1) k,
  double_pow (hi * 2 ^ j + mid) k,
  double_pow mid k,
  pow-suc 2 k,
  and_field k j fuel (suc a / 2) hi mid (lo / 2) (omega arith),
)

-- A mask of `j` ones, `k` places up, takes the field of `j` bits that starts at bit `k`.
pub bit_and_field :
    (k j hi mid lo : ℕ)
    → mid < 2 ^ j
    → lo < 2 ^ k
    → bit_and ((hi * 2 ^ j + mid) * 2 ^ k + lo) ((2 ^ j - 1) * 2 ^ k) ≡ mid * 2 ^ k
bit_and_field k j hi mid lo hm hl =
    let a = (hi * 2 ^ j + mid) * 2 ^ k + lo in
    bit_and-bitwise a ((2 ^ j - 1) * 2 ^ k) ∙ and_field k j a a hi mid lo (le_refl a) hm hl refl

or_zero : (fuel a : ℕ) → a ≤ fuel → digits (λ y. y) max fuel a 0 ≡ a
or_zero zero a le = omega arith
or_zero (suc fuel) zero le = refl
or_zero (suc fuel) (suc a) le = omega (arith, or_zero fuel (suc a / 2) (omega arith))

or_low :
    (k fuel a q r : ℕ)
    → a ≤ fuel
    → r < 2 ^ k
    → a ≡ q * 2 ^ k
    → digits (λ y. y) max fuel a r ≡ q * 2 ^ k + r
or_low zero fuel a q zero le fits e = omega (arith, e, or_zero fuel a le)
or_low zero fuel a q (suc r) le fits e = absurd (omega arith)
or_low (suc k) zero a q r le fits e = omega (arith, e)
or_low (suc k) (suc fuel) zero q r le fits e = omega (arith, e)
or_low (suc k) (suc fuel) (suc a) q r le fits e =
    ground (arith, double_pow q k, pow-suc 2 k, or_low k fuel (suc a / 2) q (r / 2) (omega arith))

-- `(q << k) | r` is a sum where `r` fits `k` bits.
pub bit_or_low : (k q r : ℕ) → r < 2 ^ k → bit_or (q * 2 ^ k) r ≡ q * 2 ^ k + r
bit_or_low k q r fits =
    bit_or-bitwise (q * 2 ^ k) r ∙ or_low k (q * 2 ^ k) (q * 2 ^ k) q r (le_refl _) fits refl
