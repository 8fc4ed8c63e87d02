-- ===== src/Cdr/Print.antt =====
-- Class cycprint of src/serdes.hpp and src/serdes.cpp: the values of a buffer as text, in memory of a
-- given size. A write outside the memory is a `fault`, and the text that a printf directive makes of
-- a number is a parameter; what it makes of the other values is written out.
pub mod Cut
pub mod Bounds
pub mod Shown
mod Tests
use rws.Base.{
  ℕ, zero, suc, ◌+◌, ◌-◌, ◌*◌, ◌^◌, ◌≤◌, Bool, true, false, Option, none, some, List, [], ◌∷◌, ◌++◌,
  ltb, leb, ◌==◌, if◌then◌else◌, length, take, drop, replicate,
}
use rws.Base.Result.{Result, ok, fault, ◌>>=◌, ◌>>◌}
use rws.Base.Text.{Text, bytes}
use rws.Cdr.Host.{Width, one_byte, four_bytes, sizeof, Host}
use rws.Cdr.Deser.{
  Cycdeser, cycdeser, load, deserialize, deserialize_len, of_memories, validate_str,
}

-- The types that are printed as numbers; `floating` is for float and double.
pub data Directive : Type 0 where
  character : Directive
  signed unsigned floating : Width → Directive

-- The types that have a print of their own, and what operator>> takes: one value, a std::vector with
-- `size` elements, or a std::array of `size` elements.
pub data Kind : Type 0 where
  boolean string wstring : Kind
  directive : Directive → Kind

pub data Item : Type 0 where
  one : Kind → Item
  vector array : Kind → ℕ → Item

-- vsnprintf of the C library: what it writes for a number and for a wide text (none is an encoding
-- error), and what a failed call leaves of the bytes that it may write to.
pub record Printf : Type 0 where
  pub number : Directive → ℕ → Text
  pub wide : List ℕ → Option Text
  pub left : ℕ → List ℕ
  pub left_le : (n : ℕ) → length (left n) ≤ n

-- The memory that the constructor is given, and the members buf (from its start) and bufsize.
pub record Out : Type 0 where
  pub memory : List ℕ
  pub buf : ℕ
  pub bufsize : ℕ

-- A write of bytes to the memory.
unfoldable pub store : ℕ → List ℕ → List ℕ → Result (List ℕ)
store pos bs memory =
    if leb (pos + length bs) (length memory)
    then ok (take pos memory ++ (bs ++ drop (pos + length bs) memory))
    else fault

pub record Cycprint : Type 0 where
  pub reader : Cycdeser
  pub out : Out

unfoldable pub cycprint : Host → ℕ → List ℕ → List ℕ → Result Cycprint
cycprint h bufsize memory buffer = do
  reader ← cycdeser h buffer
  ok (record { reader = reader; out = record { memory = memory; buf = 0; bufsize = bufsize } })

-- vsnprintf counts in an int: a longer text is an error.
abbrev pub counted : Option Text → Option Text
counted none = none
counted (some text) = if ltb (length text) (2 ^ 31) then some text else none

abbrev pub zero_terminated : List ℕ → List ℕ
zero_terminated [] = []
zero_terminated (u ∷ us) = let rest = zero_terminated us in if u == 0 then [] else u ∷ rest

module _ (printf : Printf) where
  open printf use {number, wide, left}

  -- What is left to do once vsnprintf has returned; `n` is its result.
  abbrev pub advance : ℕ → Out → List ℕ → Out
  advance n out memory =
      if leb n out.bufsize
      then record { memory = memory; buf = out.buf + n; bufsize = out.bufsize - n }
      else record { memory = memory; buf = out.buf + out.bufsize; bufsize = 0 }

  abbrev pub write : Option Text → Out → Result Out
  write none out = do
    spoilt ← store out.buf (left out.bufsize) out.memory
    memory ← store out.buf (0 ∷ []) spoilt
    ok (record out { memory = memory })
  write (some text) out = do
    memory ← store out.buf (take (out.bufsize - 1) text ++ 0 ∷ []) out.memory
    ok (advance (length text) out memory)

  -- What it returns is not used.
  unfoldable pub prtf : Option Text → Out → Result Out
  prtf text out = if out.bufsize == 0 then ok out else write (counted text) out

  abbrev pub with_out : Cycdeser → Result Out → Result Cycprint
  with_out reader r = do out ← r; ok (record { reader = reader; out = out })

  unfoldable pub print_constant : Text → Cycprint → Result Cycprint
  print_constant x p = with_out p.reader (prtf (some x) p.out)

  abbrev pub sizeof_directive : Directive → Width
  sizeof_directive character = one_byte
  sizeof_directive (signed w) = w
  sizeof_directive (unsigned w) = w
  sizeof_directive (floating w) = w

  -- PRNT(T, F, fn_swap), and the overloads for float and double.
  unfoldable pub print_number : Host → Directive → Cycprint → Result Cycprint
  print_number h t p = do
    (x, reader) ← deserialize h (sizeof_directive t) p.reader
    with_out reader (prtf (some (number t x)) p.out)

  -- A byte, as it is.
  abbrev pub print_bool : Host → Cycprint → Result Cycprint
  print_bool h p = print_number h (unsigned one_byte) p

  abbrev pub int32_max : ℕ
  int32_max = 2 ^ 31 - 1

  abbrev pub text_length : ℕ → ℕ
  text_length sz = if sz == 0 then 0 else if ltb int32_max sz then int32_max else sz - 1

  -- `"%*.*s"` with the same width and precision: the bytes before the first zero, behind spaces.
  abbrev pub quoted : ℕ → List ℕ → Text
  quoted len bs =
      let shown = zero_terminated bs in
      bytes "\"" ++ (replicate (len - length shown) 32 ++ (shown ++ bytes "\""))

  unfoldable pub print_string : Host → Cycprint → Result Cycprint
  print_string h p = do
    (sz, e) ← deserialize_len h one_byte p.reader
    validate_str sz e
    bs ← load e.bytes e.pos (text_length sz)
    with_out (record e { pos = e.pos + sz }) (prtf (some (quoted (text_length sz) bs)) p.out)

  abbrev pub quoted_wide : Option Text → Option Text
  quoted_wide none = none
  quoted_wide (some text) = some (bytes "\"" ++ (text ++ bytes "\""))

  unfoldable pub print_wstring : Host → Cycprint → Result Cycprint
  print_wstring h p = do
    (sz, e) ← deserialize_len h h.wchar p.reader
    bs ← load e.bytes e.pos (sz * sizeof h.wchar)
    let x = of_memories h h.wchar sz bs
    with_out (record e { pos = e.pos + sz * sizeof h.wchar })
        (prtf (quoted_wide (wide (zero_terminated x))) p.out)

  -- The elements of printA behind the first.
  unfoldable pub print_others : (Cycprint → Result Cycprint) → ℕ → Cycprint → Result Cycprint
  print_others print zero p = ok p
  print_others print (suc n) p = do
    q ← print_constant (bytes ",") p
    r ← print q
    print_others print n r

  unfoldable pub print_elements : (Cycprint → Result Cycprint) → ℕ → Cycprint → Result Cycprint
  print_elements print zero p = ok p
  print_elements print (suc n) p = do q ← print p; print_others print n q

  -- printA, for an element type with a print of its own. Every element is read into the first one,
  -- which is there if `has_first`.
  unfoldable pub print_each : (Cycprint → Result Cycprint) → Bool → ℕ → Cycprint → Result Cycprint
  print_each print has_first cnt p = do
    q ← print_constant (bytes "{") p
    r ← if cnt == 0 then ok q else if has_first then print_elements print cnt q else fault
    print_constant (bytes "}") r

  -- print of a std::vector that has `size` elements before.
  unfoldable pub print_vector : Host → (Cycprint → Result Cycprint) → ℕ → Cycprint → Result Cycprint
  print_vector h print size p = do
    (sz, e) ← deserialize_len h one_byte p.reader
    print_each print (ltb 0 size) sz (record p { reader = e })

  unfoldable pub print_array : (Cycprint → Result Cycprint) → ℕ → Cycprint → Result Cycprint
  print_array print size p = print_each print (ltb 0 size) size p

  -- operator>> of a Kind.
  unfoldable pub print : Host → Kind → Cycprint → Result Cycprint
  print h boolean p = print_bool h p
  print h string p = print_string h p
  print h wstring p = print_wstring h p
  print h (directive t) p = print_number h t p

  unfoldable pub print_item : Host → Item → Cycprint → Result Cycprint
  print_item h (one k) p = print h k p
  print_item h (vector k size) p = print_vector h (print h k) size p
  print_item h (array k size) p = print_array (print h k) size p

  -- A sequence of `>>`.
  unfoldable pub print_all : Host → List Item → Cycprint → Result Cycprint
  print_all h [] p = ok p
  print_all h (i ∷ is) p = do q ← print_item h i p; print_all h is q
