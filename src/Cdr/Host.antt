-- ===== src/Cdr/Host.antt =====
-- How a host lays out a scalar in memory, and the byte swaps of cycdeserbase (src/serdes.hpp).
-- A scalar is its bit pattern, a number below 2 ^ (8 * sizeof w): the sign and the floating point
-- formats play no part in serdes.hpp, which moves patterns only.
use rws.Base.{
  ℕ, zero, suc, ◌+◌, ◌*◌, ◌/◌, ◌%◌, ◌^◌, ◌<◌, bit_and, bit_or, Bool, List, [], ◌∷◌, reverse,
  if◌then◌else◌,
}

-- The sizes of the scalar types: 1, 2, 4 and 8 bytes.
pub data Width : Type 0 where
  one_byte two_bytes four_bytes eight_bytes : Width

abbrev pub sizeof : Width → ℕ
sizeof one_byte = 1
sizeof two_bytes = 2
sizeof four_bytes = 4
sizeof eight_bytes = 8

-- A pattern of this width: it is below 2 ^ (8 * sizeof w).
abbrev pub modulus : Width → ℕ
modulus one_byte = 2 ^ 8
modulus two_bytes = 2 ^ 16
modulus four_bytes = 2 ^ 32
modulus eight_bytes = 2 ^ 64

abbrev pub Fits : Width → ℕ → Type 0
Fits w x = x < modulus w

-- What the code depends on of the machine: DDSRT_ENDIAN and sizeof(wchar_t).
pub record Host : Type 0 where
  pub little_endian : Bool
  pub wchar : Width

-- The `n` low bytes of `x`, lowest first, and back.
unfoldable pub low_bytes : ℕ → ℕ → List ℕ
low_bytes zero x = []
low_bytes (suc n) x = (x % 256) ∷ low_bytes n (x / 256)

unfoldable pub of_low_bytes : List ℕ → ℕ
of_low_bytes [] = 0
of_low_bytes (b ∷ bs) = b + 256 * of_low_bytes bs

-- The object representation of a scalar, and the scalar that a representation stands for.
unfoldable pub to_memory : Host → Width → ℕ → List ℕ
to_memory h w x =
    if h.little_endian then low_bytes (sizeof w) x else reverse (low_bytes (sizeof w) x)

unfoldable pub of_memory : Host → List ℕ → ℕ
of_memory h bs = if h.little_endian then of_low_bytes bs else of_low_bytes (reverse bs)

-- `x >> k` and, on uint32_t and uint64_t, `x << k`.
abbrev pub shr : ℕ → ℕ → ℕ
shr x k = x / 2 ^ k

abbrev pub shl : ℕ → ℕ → ℕ → ℕ
shl bits x k = x * 2 ^ k % 2 ^ bits

-- `x` is promoted to int, so that only the cast to uint16_t cuts the shifted value.
unfoldable pub bswap2u : ℕ → ℕ
bswap2u x = bit_or (shr x 8) (x * 2 ^ 8) % 2 ^ 16

unfoldable pub bswap4u : ℕ → ℕ
bswap4u x =
    bit_or (bit_or (bit_or (shr x 24) (bit_and (shr x 8) 0xff00)) (bit_and (shl 32 x 8) 0xff0000))
      (shl 32 x 24)

unfoldable pub bswap8u : ℕ → ℕ
bswap8u x =
    let newhi = bswap4u (x % 2 ^ 32) in
    let newlo = bswap4u (shr x 32 % 2 ^ 32) in bit_or (shl 64 newhi 32) newlo

-- The swap that DESER and DESER_A name for a type of this size; none for one byte.
-- The signed versions are the same on patterns.
abbrev pub fn_swap : Width → ℕ → ℕ
fn_swap one_byte x = x
fn_swap two_bytes x = bswap2u x
fn_swap four_bytes x = bswap4u x
fn_swap eight_bytes x = bswap8u x
