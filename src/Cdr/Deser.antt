-- ===== src/Cdr/Deser.antt =====
-- The classes cycdeserbase and cycdeser of src/serdes.hpp and src/serdes.cpp. A read outside the
-- buffer is a `fault`. size_t arithmetic that can wrap is written out.
pub mod At
pub mod Reads
pub mod Safety
pub mod Arrays
use rws.Base.{
  ℕ, zero, suc, ◌+◌, ◌-◌, ◌*◌, ◌/◌, ◌%◌, ◌^◌, Bool, true, false, not, none, some, List, [], ◌∷◌,
  ltb, leb, ◌==◌, if◌then◌else◌, length, get_elem?, take, drop, map,
}
use rws.Base.Result.{
  Result, ok, err, fault, invalid_align, invalid_size, not_null_terminated, ◌>>=◌, ◌>>◌,
}
use rws.Cdr.Host.{Width, one_byte, four_bytes, sizeof, Host, of_memory, fn_swap}
use rws.Cdr.Ser.{Value}

-- `bytes` is the buffer from `data` on, which the constructor moves past the header.
pub record Cycdeser : Type 0 where
  pub bytes : List ℕ
  pub pos : ℕ
  pub lim : ℕ
  pub swap_bytes : Bool

-- a - b of size_t, for a and b below 2 ^ 64.
abbrev pub sub_size : ℕ → ℕ → ℕ
sub_size a b = (a + 2 ^ 64 - b) % 2 ^ 64

-- A load of `n` bytes at `pos`.
unfoldable pub load : List ℕ → ℕ → ℕ → Result (List ℕ)
load bytes pos n = if leb (pos + n) (length bytes) then ok (take n (drop pos bytes)) else fault

unfoldable pub load_byte : List ℕ → ℕ → Result ℕ
load_byte bytes i = elim (get_elem? bytes i) [ none ↦ fault | some b ↦ ok b ]

abbrev pub differ : Bool → Bool → Bool
differ true b = not b
differ false b = b

-- cycdeserbase::cycdeserbase on a buffer of `length buffer` bytes.
unfoldable pub cycdeser : Host → List ℕ → Result Cycdeser
cycdeser h buffer = do
  endianness ← load_byte buffer 1
  ok (record {
    bytes = drop 4 buffer;
    pos = 0;
    lim = sub_size (length buffer) 4;
    swap_bytes = differ h.little_endian (endianness == 1);
  })

unfoldable pub align : ℕ → Cycdeser → Result Cycdeser
align a d =
    let pos = d.pos + (a - d.pos % a) in
    if d.pos % a == 0
    then ok d
    else if ltb d.lim pos
    then err invalid_align
    else ok (record d { pos = pos })

-- The assertion on `sz` holds for every Width.
unfoldable pub validate_size : ℕ → Width → Cycdeser → Result (Unit {0})
validate_size count sz d =
    if ltb (sub_size d.lim d.pos / sizeof sz) count then err invalid_size else ok tt

unfoldable pub validate_str : ℕ → Cycdeser → Result (Unit {0})
validate_str sz d =
    if ltb 0 sz
    then (do
      last ← load_byte d.bytes (d.pos + sz - 1)
      if last == 0 then ok tt else err not_null_terminated)
    else ok tt

abbrev pub swapped : Bool → Width → ℕ → ℕ
swapped swap w x = if swap then fn_swap w x else x

-- The load, swap and `pos += sizeof(x)` that end DESER(T, fn_swap).
unfoldable pub load_scalar : Host → Width → Cycdeser → Result (ℕ × Cycdeser)
load_scalar h w d = do
  bs ← load d.bytes d.pos (sizeof w)
  ok (swapped d.swap_bytes w (of_memory h bs), record d { pos = d.pos + sizeof w })

-- DESER(T, fn_swap)
unfoldable pub deserialize : Host → Width → Cycdeser → Result (ℕ × Cycdeser)
deserialize h w d = do e ← align (sizeof w) d; validate_size 1 w e; load_scalar h w e

unfoldable pub deserialize_bool : Host → Cycdeser → Result (Bool × Cycdeser)
deserialize_bool h d = do (z, e) ← deserialize h one_byte d; ok (not (z == 0), e)

unfoldable pub deserialize_len : Host → Width → Cycdeser → Result (ℕ × Cycdeser)
deserialize_len h el_sz d = do
  (sz, e) ← deserialize h four_bytes d
  validate_size sz el_sz e
  ok (sz, e)

unfoldable pub deserialize_string : Host → Cycdeser → Result (List ℕ × Cycdeser)
deserialize_string h d = do
  (sz, e) ← deserialize_len h one_byte d
  if sz == 0 then ok ([], record e { pos = e.pos + sz }) else (do
    validate_str sz e
    x ← load e.bytes e.pos (sz - 1)
    ok (x, record e { pos = e.pos + sz }))

-- The memory of `n` scalars, read as an array; nothing is swapped here.
unfoldable pub of_memories : Host → Width → ℕ → List ℕ → List ℕ
of_memories h w zero bs = []
of_memories h w (suc n) bs =
    of_memory h (take (sizeof w) bs) ∷ of_memories h w n (drop (sizeof w) bs)

unfoldable pub deserialize_wstring : Host → Cycdeser → Result (List ℕ × Cycdeser)
deserialize_wstring h d = do
  (sz, e) ← deserialize_len h h.wchar d
  bs ← load e.bytes e.pos (sz * sizeof h.wchar)
  ok (of_memories h h.wchar sz bs, record e { pos = e.pos + sz * sizeof h.wchar })

-- The loop of DESER_A on a reader that swaps.
unfoldable pub load_scalars : Host → Width → ℕ → Cycdeser → Result (List ℕ × Cycdeser)
load_scalars h w zero d = ok ([], d)
load_scalars h w (suc cnt) d = do
  (x, e) ← load_scalar h w d
  (xs, f) ← load_scalars h w cnt e
  ok (x ∷ xs, f)

-- DESER_A(T, fn_swap)
unfoldable pub deserialize_array : Host → Width → ℕ → Cycdeser → Result (List ℕ × Cycdeser)
deserialize_array h w cnt d =
    if ltb 0 cnt
    then (do
      e ← align (sizeof w) d
      validate_size cnt w e
      if e.swap_bytes then load_scalars h w cnt e else (do
        bs ← load e.bytes e.pos (cnt * sizeof w)
        ok (of_memories h w cnt bs, record e { pos = e.pos + cnt * sizeof w })))
    else ok ([], d)

-- The template deserializeA, for an element type with a deserialize of its own.
unfoldable pub deserialize_each {ℓ} :
    {A : Type ℓ} → (Cycdeser → Result (A × Cycdeser)) → ℕ → Cycdeser → Result (List A × Cycdeser)
deserialize_each f zero d = ok ([], d)
deserialize_each f (suc cnt) d = do (x, e) ← f d; (xs, g) ← deserialize_each f cnt e; ok (x ∷ xs, g)

unfoldable pub deserialize_vector : Host → Width → Cycdeser → Result (List ℕ × Cycdeser)
deserialize_vector h w d = do (sz, e) ← deserialize_len h one_byte d; deserialize_array h w sz e

unfoldable pub deserialize_bool_vector : Host → Cycdeser → Result (List Bool × Cycdeser)
deserialize_bool_vector h d = do
  (sz, e) ← deserialize_len h one_byte d
  bs ← load e.bytes e.pos sz
  ok (map (λ b. not (b == 0)) bs, record e { pos = e.pos + sz })

-- deserialize of a std::array of `size` scalars.
unfoldable pub deserialize_fixed : Host → Width → ℕ → Cycdeser → Result (List ℕ × Cycdeser)
deserialize_fixed h w size d = deserialize_array h w size d

-- operator>> of a std::vector and of a std::array of scalars.
unfoldable pub extract_vector : Host → Width → Cycdeser → Result (List ℕ × Cycdeser)
extract_vector h w d = deserialize_vector h w d

unfoldable pub extract_array : Host → Width → ℕ → Cycdeser → Result (List ℕ × Cycdeser)
extract_array h w size d = deserialize_fixed h w size d

-- The type of the variable that a `>>` reads into.
pub data Shape : Type 0 where
  boolean : Shape
  scalar : Width → Shape
  text : Shape
  wide_text : Shape

abbrev given : {A : Type 0} → (A → Value) → Result (A × Cycdeser) → Result (Value × Cycdeser)
given f r = do (x, d) ← r; ok (f x, d)

-- The overloads of operator>>.
unfoldable pub extract : Host → Shape → Cycdeser → Result (Value × Cycdeser)
extract h boolean d = given Value.boolean (deserialize_bool h d)
extract h (scalar w) d = given (Value.scalar w) (deserialize h w d)
extract h text d = given Value.text (deserialize_string h d)
extract h wide_text d = given Value.wide_text (deserialize_wstring h d)

unfoldable pub extract_all : Host → List Shape → Cycdeser → Result (List Value × Cycdeser)
extract_all h [] d = ok ([], d)
extract_all h (t ∷ ts) d = do (v, e) ← extract h t d; (vs, f) ← extract_all h ts e; ok (v ∷ vs, f)
