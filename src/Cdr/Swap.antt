-- ===== src/Cdr/Swap.antt =====
-- The byte swaps of cycdeserbase reverse the bytes of a scalar, and representations are faithful.
use rws.Base.{
  ℕ, zero, suc, ◌+◌, ◌*◌, ◌/◌, ◌%◌, ◌^◌, ◌<◌, bit_and, ◌≡◌, refl, ap, ◌∙◌, sym, Bool, reverse,
  length, length-reverse, if◌then◌else◌, arith,
}
use rws.Base.Bits.{bit_or_high, bit_or_low, bit_and_field}
use rws.Cdr.Host.{
  Width, one_byte, two_bytes, four_bytes, eight_bytes, sizeof, Fits, Host, low_bytes, of_low_bytes,
  to_memory, of_memory, shr, shl, bswap2u, bswap4u, bswap8u, fn_swap,
}
use mathlib.Core.List.{reverse-reverse}
use rws.Cdr.Deser.{differ, swapped}

bswap2u_bytes : (a b : ℕ) → a < 256 → b < 256 → bswap2u (a + 256 * b) ≡ b + 256 * a
unfolding bswap2u
bswap2u_bytes a b ha hb =
    let e : shr (a + 256 * b) 8 ≡ b = omega arith in
    rw (e, bit_or_high 8 b (a + 256 * b) hb) (omega arith)

bswap4u_bytes :
    (a b c d : ℕ)
    → a < 256
    → b < 256
    → c < 256
    → d < 256
    → bswap4u (a + 256 * (b + 256 * (c + 256 * d))) ≡ d + 256 * (c + 256 * (b + 256 * a))
unfolding bswap4u
bswap4u_bytes a b c d ha hb hc hd =
    let x = a + 256 * (b + 256 * (c + 256 * d)) in
    let e1 : shr x 24 ≡ d = omega arith in
    let e2 : shr x 8 ≡ (d * 2 ^ 8 + c) * 2 ^ 8 + b = omega arith in
    let e3 : shl 32 x 8 ≡ (c * 2 ^ 8 + b) * 2 ^ 16 + a * 2 ^ 8 = omega arith in
    let e4 : shl 32 x 24 ≡ a * 2 ^ 24 = omega arith in
    let f2 : bit_and (shr x 8) 0xff00 ≡ c * 2 ^ 8 =
      ap (λ (t : ℕ). bit_and t 0xff00) e2 ∙ bit_and_field 8 8 d c b hc hb in
    let f3 : bit_and (shl 32 x 8) 0xff0000 ≡ b * 2 ^ 16 =
      ap (λ (t : ℕ). bit_and t 0xff0000) e3 ∙ bit_and_field 16 8 c b (a * 2 ^ 8) hb (omega arith) in
    rw (e1, f2, f3, e4, bit_or_high 8 d c hd)
      (rw (bit_or_high 16 (d + c * 2 ^ 8) b (omega arith))
        (rw (bit_or_high 24 (d + c * 2 ^ 8 + b * 2 ^ 16) a (omega arith)) (omega arith)))

-- Four bytes as a number.
abbrev quad : ℕ → ℕ → ℕ → ℕ → ℕ
quad a b c d = a + 256 * (b + 256 * (c + 256 * d))

bswap8u_bytes :
    (a b c d e f g k : ℕ)
    → (a < 256) × (b < 256) × (c < 256) × (d < 256)
    → (e < 256) × (f < 256) × (g < 256) × (k < 256)
    → bswap8u (quad a b c d + 2 ^ 32 * quad e f g k) ≡ quad k g f e + 2 ^ 32 * quad d c b a
unfolding bswap8u
bswap8u_bytes a b c d e f g k (ha, hb, hc, hd) (he, hf, hg, hk) =
    let x = quad a b c d + 2 ^ 32 * quad e f g k in
    let lo : x % 2 ^ 32 ≡ quad a b c d = omega arith in
    let hi : shr x 32 % 2 ^ 32 ≡ quad e f g k = omega arith in
    let top : shl 64 (quad d c b a) 32 ≡ quad d c b a * 2 ^ 32 = omega arith in
    rw (lo, hi, bswap4u_bytes a b c d ha hb hc hd, bswap4u_bytes e f g k he hf hg hk)
      (rw (top, bit_or_low 32 (quad d c b a) (quad k g f e) (omega arith)) (omega arith))

pub length-low_bytes : (n x : ℕ) → length (low_bytes n x) ≡ n
unfolding low_bytes
length-low_bytes zero x = refl
length-low_bytes (suc n) x = ap suc (length-low_bytes n (x / 256))

pub of_low_bytes-low_bytes :
    (w : Width) (x : ℕ) → Fits w x → of_low_bytes (low_bytes (sizeof w) x) ≡ x
unfolding of_low_bytes low_bytes
of_low_bytes-low_bytes one_byte x h = omega arith
of_low_bytes-low_bytes two_bytes x h = omega arith
of_low_bytes-low_bytes four_bytes x h = omega arith
of_low_bytes-low_bytes eight_bytes x h = omega arith

-- Byte `i` of a number.
abbrev byte : ℕ → ℕ → ℕ
byte zero x = x % 256
byte (suc i) x = byte i (x / 256)

-- The swap that DESER applies to a pattern of its width is the number that the bytes of the pattern
-- stand for in the opposite order.
pub of_low_bytes-reverse :
    (w : Width) (x : ℕ) → Fits w x → of_low_bytes (reverse (low_bytes (sizeof w) x)) ≡ fn_swap w x
unfolding of_low_bytes low_bytes
of_low_bytes-reverse one_byte x h = omega arith
of_low_bytes-reverse two_bytes x h = sym (
    ap bswap2u (omega arith)
    ∙ bswap2u_bytes (byte 0 x) (byte 1 x) (omega arith) (omega arith)
    ∙ omega arith)
of_low_bytes-reverse four_bytes x h = sym (
    ap bswap4u (omega arith)
    ∙ bswap4u_bytes (byte 0 x) (byte 1 x) (byte 2 x) (byte 3 x) (omega arith) (omega arith)
        (omega arith) (omega arith)
    ∙ omega arith)
of_low_bytes-reverse eight_bytes x h = sym (
    ap bswap8u (omega arith)
    ∙ bswap8u_bytes (byte 0 x) (byte 1 x) (byte 2 x) (byte 3 x) (byte 4 x) (byte 5 x) (byte 6 x)
        (byte 7 x) (omega arith) (omega arith)
    ∙ omega arith)

fn_swap-Fits : (w : Width) (x : ℕ) → Fits w x → Fits w (fn_swap w x)
unfolding of_low_bytes low_bytes
fn_swap-Fits one_byte x h = h
fn_swap-Fits two_bytes x h = omega (arith, sym (of_low_bytes-reverse two_bytes x h))
fn_swap-Fits four_bytes x h = omega (arith, sym (of_low_bytes-reverse four_bytes x h))
fn_swap-Fits eight_bytes x h = omega (arith, sym (of_low_bytes-reverse eight_bytes x h))

-- On every pattern of its width, each of the swaps is its own inverse.
pub fn_swap-fn_swap : (w : Width) (x : ℕ) → Fits w x → fn_swap w (fn_swap w x) ≡ x
unfolding of_low_bytes low_bytes
fn_swap-fn_swap one_byte x h = refl
fn_swap-fn_swap two_bytes x h =
    ap bswap2u (sym (of_low_bytes-reverse two_bytes x h) ∙ omega arith)
    ∙ bswap2u_bytes (byte 1 x) (byte 0 x) (omega arith) (omega arith)
    ∙ omega arith
fn_swap-fn_swap four_bytes x h =
    ap bswap4u (sym (of_low_bytes-reverse four_bytes x h) ∙ omega arith)
    ∙ bswap4u_bytes (byte 3 x) (byte 2 x) (byte 1 x) (byte 0 x) (omega arith) (omega arith)
        (omega arith) (omega arith)
    ∙ omega arith
fn_swap-fn_swap eight_bytes x h =
    ap bswap8u (sym (of_low_bytes-reverse eight_bytes x h) ∙ omega arith)
    ∙ bswap8u_bytes (byte 7 x) (byte 6 x) (byte 5 x) (byte 4 x) (byte 3 x) (byte 2 x) (byte 1 x)
        (byte 0 x) (omega arith) (omega arith)
    ∙ omega arith

-- Whether two hosts store numbers alike.
abbrev pub unlike : Host → Host → Bool
unlike h k = differ h.little_endian k.little_endian

pub length-to_memory : (h : Host) (w : Width) (x : ℕ) → length (to_memory h w x) ≡ sizeof w
unfolding to_memory
length-to_memory h w x =
    ground (arith, length-low_bytes (sizeof w) x, length-reverse (low_bytes (sizeof w) x))

-- What host `h` reads from the memory that host `k` wrote.
pub of_memory-to_memory :
    (h k : Host) (w : Width) (x : ℕ)
    → Fits w x
    → of_memory h (to_memory k w x) ≡ (if unlike h k then fn_swap w x else x)
unfolding of_memory to_memory
of_memory-to_memory h k w x fits = ground (
  arith,
  of_low_bytes-low_bytes w x fits,
  of_low_bytes-reverse w x fits,
  reverse-reverse (low_bytes (sizeof w) x),
)

-- So the reader that swaps exactly when the hosts differ gets the number back.
pub swapped_back :
    (h k : Host) (w : Width) (x : ℕ)
    → Fits w x
    → swapped (unlike h k) w (of_memory h (to_memory k w x)) ≡ x
swapped_back h k w x fits =
    ground (arith, of_memory-to_memory h k w x fits, fn_swap-fn_swap w x fits)
