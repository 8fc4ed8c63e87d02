-- ===== src/Cdr/Ser/Arrays.antt =====
-- The bulk copies of SER_A write what element by element serialization writes.
use rws.Base.{
  ℕ, map, ◌^◌, ◌+◌, ◌-◌, ◌*◌, ◌%◌, ◌≡◌, refl, sym, ap, ◌∙◌, List, [], ◌∷◌, ◌++◌, ltb, length,
  replicate, true, length-append, length-replicate, append_assoc, append-nil, arith,
}
use rws.Base.Result.{ok, ◌>>=◌}
use rws.Cdr.Host.{Width, one_byte, two_bytes, four_bytes, eight_bytes, sizeof, Host, to_memory}
use rws.Cdr.Swap.{length-to_memory}
use rws.Cdr.Ser.{
  Cycser, scalar, insert, insert_all, serialize_vector, insert_vector, aligned, serialize,
  to_memories, serialize_array, serialize_each,
}
use rws.Cdr.Ser.Layout.{
  padding, scalar_at, IsOpen, extended, extended-IsOpen, extended-extended, append_at_lem,
  serialize-layout, length-to_memories, aligned_pad,
}

none_left : (w : Width) (off : ℕ) → off % sizeof w ≡ 0 → (sizeof w - off % sizeof w) % sizeof w ≡ 0
none_left one_byte off e = ground arith
none_left two_bytes off e = ground arith
none_left four_bytes off e = ground arith
none_left eight_bytes off e = ground arith

pub padding_none : (w : Width) (off : ℕ) → off % sizeof w ≡ 0 → padding (sizeof w) off ≡ []
padding_none w off e = ap (λ k. replicate k 0) (none_left w off e)

aligned_multiple : (w : Width) (off : ℕ) → (aligned (sizeof w) off + sizeof w) % sizeof w ≡ 0
aligned_multiple one_byte off = ground arith
aligned_multiple two_bytes off = ground arith
aligned_multiple four_bytes off = ground arith
aligned_multiple eight_bytes off = ground arith

scalar_ends :
    (h : Host) (w : Width) (x off : ℕ)
    → off + length (scalar_at h w x off) ≡ aligned (sizeof w) off + sizeof w
scalar_ends h w x off = omega (
  arith,
  length-append (padding (sizeof w) off) (to_memory h w x),
  length-replicate {A = ℕ} ((sizeof w - off % sizeof w) % sizeof w) 0,
  length-to_memory h w x,
  aligned_pad w off,
)

-- Behind a scalar the next one of its width needs no padding.
padding_behind :
    (h : Host) (w : Width) (x off : ℕ)
    → padding (sizeof w) (off + length (scalar_at h w x off)) ≡ []
padding_behind h w x off =
    padding_none w _ (ap (λ n. n % sizeof w) (scalar_ends h w x off) ∙ aligned_multiple w off)

-- The scalars one behind the other.
serialize_each-layout :
    (h : Host) (w : Width) (x : ℕ) (xs : List ℕ) (s : Cycser)
    → IsOpen s
    → serialize_each (serialize h w) (x ∷ xs) s
      ≡ ok (extended s (padding (sizeof w) s.off ++ to_memories h w (x ∷ xs)))
unfolding serialize_each to_memories
serialize_each-layout h w x [] s o = rw (serialize-layout h w x s o, append-nil (to_memory h w x))
serialize_each-layout h w x (y ∷ ys) s o =
    let first : List ℕ = scalar_at h w x s.off in
    let t : Cycser = extended s first in
    let more : List ℕ = to_memories h w (y ∷ ys) in
    rw (serialize-layout h w x s o) (
      serialize_each-layout h w y ys t (extended-IsOpen s first o)
      ∙ ap (λ z. ok (extended t (z ++ more))) (padding_behind h w x s.off)
      ∙ ap ok (extended-extended s first more)
      ∙ ap (λ bs. ok (extended s bs))
          (append_assoc (padding (sizeof w) s.off) (to_memory h w x) more))

-- For every array of scalars and every serializer whose buffer ends at its offset, the one copy of
-- serializeA leaves the buffer and offset that serializing the elements one by one leaves.
pub serialize_array-serialize_each :
    (h : Host) (w : Width) (xs : List ℕ) (s : Cycser)
    → IsOpen s
    → serialize_array h w xs s ≡ serialize_each (serialize h w) xs s
unfolding serialize_array
serialize_array-serialize_each h w [] s o = unfold serialize_each in refl
serialize_array-serialize_each h w (x ∷ xs) s o =
    let positive : ltb 0 (length (x ∷ xs)) ≡ true = ground arith in
    rw positive (
      append_at_lem s ((sizeof w - s.off % sizeof w) % sizeof w) (length (x ∷ xs) * sizeof w) _
        (to_memories h w (x ∷ xs)) o (aligned_pad w s.off) (sym (length-to_memories h w (x ∷ xs)))
      ∙ sym (serialize_each-layout h w x xs s o))

serialize_each-insert_all :
    (h : Host) (w : Width) (xs : List ℕ) (s : Cycser)
    → serialize_each (serialize h w) xs s ≡ insert_all h (map (scalar w) xs) s
unfolding serialize_each insert_all insert
serialize_each-insert_all h w [] s = refl
serialize_each-insert_all h w (x ∷ xs) s =
    ap (λ k. serialize h w x s >>= k) (λ i t. serialize_each-insert_all h w xs t i)

-- For every vector of scalars and every serializer whose buffer ends at its offset, operator<< of
-- the vector leaves what operator<< of its length, as a uint32_t, and then of each element in turn
-- leaves.
pub insert_vector-insert_all :
    (h : Host) (w : Width) (xs : List ℕ) (s : Cycser)
    → IsOpen s
    → insert_vector h w xs s
      ≡ insert_all h (scalar four_bytes (length xs % 2 ^ 32) ∷ map (scalar w) xs) s
unfolding insert_vector serialize_vector insert_all insert
insert_vector-insert_all h w xs s o =
    let count : ℕ = length xs % 2 ^ 32 in
    rw (serialize-layout h four_bytes count s o) (
      serialize_array-serialize_each h w xs _
        (extended-IsOpen s (scalar_at h four_bytes count s.off) o)
      ∙ serialize_each-insert_all h w xs _)
