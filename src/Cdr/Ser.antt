-- ===== src/Cdr/Ser.antt =====
-- The class cycser of src/serdes.hpp. A write outside the buffer is a `fault`; lengths and offsets
-- of a buffer in memory are below 2 ^ 63 and do not wrap.
pub mod Layout
pub mod Arrays
use rws.Base.{
  ℕ, zero, suc, ◌+◌, ◌-◌, ◌*◌, ◌%◌, ◌^◌, Bool, true, false, List, [], ◌∷◌, ◌++◌, ltb, ◌==◌,
  if◌then◌else◌, length, replicate,
}
use rws.Base.Result.{Result, ok, fault, ◌>>=◌}
use rws.Cdr.Host.{Width, one_byte, four_bytes, sizeof, Host, to_memory}

pub record Cycser : Type 0 where
  pub dst : List ℕ
  pub off : ℕ

-- std::vector::resize: cut, or fill up with zeros.
unfoldable pub resize : List ℕ → ℕ → List ℕ
resize [] n = replicate n 0
resize (b ∷ bs) zero = []
resize (b ∷ bs) (suc n) = b ∷ resize bs n

-- memcpy to, or a store through a pointer at, the position `i` of a vector.
unfoldable pub store : List ℕ → ℕ → List ℕ → Result (List ℕ)
store dst zero [] = ok dst
store [] zero (b ∷ bs) = fault
store (d ∷ dst) zero (b ∷ bs) = do rest ← store dst zero bs; ok (b ∷ rest)
store [] (suc i) bs = fault
store (d ∷ dst) (suc i) bs = do rest ← store dst i bs; ok (d ∷ rest)

-- cycser::cycser, on a vector that may hold bytes already.
unfoldable pub cycser : Host → List ℕ → Cycser
cycser h dst = record { dst = dst ++ 0 ∷ (if h.little_endian then 1 else 0) ∷ 0 ∷ 0 ∷ []; off = 0 }

abbrev pub aligned : ℕ → ℕ → ℕ
aligned n off = if off % n == 0 then off else off + (n - off % n)

-- resize(off + n); then a store of `bs`, of `n` bytes, at data() + off; off += n.
unfoldable pub append_at : Cycser → ℕ → ℕ → List ℕ → Result Cycser
append_at s off n bs = do
  dst ← store (resize s.dst (off + n + 4)) (off + 4) bs
  ok (record { dst = dst; off = off + n })

-- SER(T)
unfoldable pub serialize : Host → Width → ℕ → Cycser → Result Cycser
serialize h w x s = append_at s (aligned (sizeof w) s.off) (sizeof w) (to_memory h w x)

abbrev pub bool_byte : Bool → ℕ
bool_byte true = 1
bool_byte false = 0

unfoldable pub serialize_bool : Host → Bool → Cycser → Result Cycser
serialize_bool h x = serialize h one_byte (bool_byte x)

-- std::string: x.c_str() has a terminating null, which is written too.
unfoldable pub serialize_string : Host → List ℕ → Cycser → Result Cycser
serialize_string h x s = do
  let sz = length x + 1
  t ← serialize h four_bytes (sz % 2 ^ 32) s
  append_at t t.off sz (x ++ 0 ∷ [])

-- The memory of an array of scalars.
unfoldable pub to_memories : Host → Width → List ℕ → List ℕ
to_memories h w [] = []
to_memories h w (x ∷ xs) = to_memory h w x ++ to_memories h w xs

unfoldable pub serialize_wstring : Host → List ℕ → Cycser → Result Cycser
serialize_wstring h x s = do
  let sz = length x
  t ← serialize h four_bytes (sz % 2 ^ 32) s
  append_at t t.off (sz * sizeof h.wchar) (to_memories h h.wchar x)

-- SER_A(T): one aligned copy of the whole array.
unfoldable pub serialize_array : Host → Width → List ℕ → Cycser → Result Cycser
serialize_array h w xs s =
    if ltb 0 (length xs)
    then append_at s (aligned (sizeof w) s.off) (length xs * sizeof w) (to_memories h w xs)
    else ok s

-- The template serializeA, for an element type with a serialize of its own.
unfoldable pub serialize_each {ℓ} :
    {A : Type ℓ} → (A → Cycser → Result Cycser) → List A → Cycser → Result Cycser
serialize_each f [] s = ok s
serialize_each f (x ∷ xs) s = do t ← f x s; serialize_each f xs t

-- serialize(const std::vector<T> &) of scalars, and of bool.
unfoldable pub serialize_vector : Host → Width → List ℕ → Cycser → Result Cycser
serialize_vector h w xs s = do
  t ← serialize h four_bytes (length xs % 2 ^ 32) s
  serialize_array h w xs t

unfoldable pub serialize_bool_vector : Host → List Bool → Cycser → Result Cycser
serialize_bool_vector h xs s = do
  t ← serialize h four_bytes (length xs % 2 ^ 32) s
  serialize_each (serialize_bool h) xs t

-- What one `<<` takes: a bool, a char, integer, float or double by its pattern, or a text.
pub data Value : Type 0 where
  boolean : Bool → Value
  scalar : Width → ℕ → Value
  text : List ℕ → Value
  wide_text : List ℕ → Value

-- The overloads of operator<<.
unfoldable pub insert : Host → Value → Cycser → Result Cycser
insert h (boolean b) = serialize_bool h b
insert h (scalar w x) = serialize h w x
insert h (text x) = serialize_string h x
insert h (wide_text x) = serialize_wstring h x

unfoldable pub insert_all : Host → List Value → Cycser → Result Cycser
insert_all h [] s = ok s
insert_all h (v ∷ vs) s = do t ← insert h v s; insert_all h vs t

-- The template serializeS: a count and as many elements behind a pointer.
unfoldable pub serialize_counted : Host → Width → List ℕ → Cycser → Result Cycser
serialize_counted h w xs s = do
  t ← serialize h four_bytes (length xs % 2 ^ 32) s
  serialize_array h w xs t

-- operator<< of a std::vector and of a std::array of scalars.
unfoldable pub insert_vector : Host → Width → List ℕ → Cycser → Result Cycser
insert_vector h w xs = serialize_vector h w xs

unfoldable pub insert_array : Host → Width → List ℕ → Cycser → Result Cycser
insert_array h w xs = serialize_array h w xs
