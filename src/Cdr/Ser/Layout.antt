-- ===== src/Cdr/Ser/Layout.antt =====
-- What cycser writes, as bytes appended to the buffer: an independent description of the format, and
-- the proof that every `<<` follows it and stays inside the buffer.
use rws.Base.{
  ℕ, zero, suc, ◌+◌, ◌-◌, ◌*◌, ◌%◌, ◌^◌, ◌≡◌, refl, sym, ap, ◌∙◌, List, [], ◌∷◌, ◌++◌, length,
  replicate, length-append, length-replicate, replicate-add, append_assoc, append-nil, arith,
}
use rws.Base.Result.{ok}
use rws.Cdr.Host.{Width, one_byte, two_bytes, four_bytes, eight_bytes, sizeof, Host, to_memory}
use rws.Cdr.Swap.{length-to_memory}
use rws.Cdr.Ser.{
  Cycser, Value, boolean, scalar, text, wide_text, resize, store, aligned, append_at, serialize,
  serialize_bool, serialize_string, serialize_wstring, to_memories, bool_byte, insert, insert_all,
}

-- The zeros before a field of `n` bytes at offset `off`: as many as the offset lacks to the next
-- multiple of `n`.
abbrev pub padding : ℕ → ℕ → List ℕ
padding n off = replicate ((n - off % n) % n) 0

abbrev pub scalar_at : Host → Width → ℕ → ℕ → List ℕ
scalar_at h w x off = padding (sizeof w) off ++ to_memory h w x

-- The bytes of one value at offset `off`: padding to its own size, then a scalar; or a length and
-- the units of a text, of which only a narrow one ends in a null that the length counts.
unfoldable pub layout : Host → Value → ℕ → List ℕ
layout h (boolean b) off = scalar_at h one_byte (bool_byte b) off
layout h (scalar w x) off = scalar_at h w x off
layout h (text x) off = scalar_at h four_bytes ((length x + 1) % 2 ^ 32) off ++ (x ++ 0 ∷ [])
layout h (wide_text x) off =
    scalar_at h four_bytes (length x % 2 ^ 32) off ++ to_memories h h.wchar x

unfoldable pub layout_all : Host → List Value → ℕ → List ℕ
layout_all h [] off = []
layout_all h (v ∷ vs) off = let bs = layout h v off in bs ++ layout_all h vs (off + length bs)

-- The buffer holds the header and the bytes up to the offset, and no more.
abbrev pub IsOpen : Cycser → Type 0
IsOpen s = length s.dst ≡ s.off + 4

-- The serializer with these bytes behind what it holds.
abbrev pub extended : Cycser → List ℕ → Cycser
extended s bs = record { dst = s.dst ++ bs; off = s.off + length bs }

pub extended-extended :
    (s : Cycser) (xs bs : List ℕ) → extended (extended s xs) bs ≡ extended s (xs ++ bs)
extended-extended s xs bs =
    let e : (s.dst ++ xs) ++ bs ≡ s.dst ++ (xs ++ bs) = append_assoc s.dst xs bs in
    let f : s.off + length xs + length bs ≡ s.off + length (xs ++ bs) =
      omega (arith, length-append xs bs) in
    cc

pub extended-IsOpen : (s : Cycser) (bs : List ℕ) → IsOpen s → IsOpen (extended s bs)
extended-IsOpen s bs o = omega (arith, length-append s.dst bs)

resize_grow : (bs : List ℕ) (k n : ℕ) → n ≡ length bs + k → resize bs n ≡ bs ++ replicate k 0
unfolding resize
resize_grow [] k n e = ap (λ m. replicate m 0) (omega (arith, e))
resize_grow (b ∷ bs) k zero e = absurd (omega arith)
resize_grow (b ∷ bs) k (suc n) e = ap (◌∷◌ b) (resize_grow bs k n (omega arith))

store_over : (mid bs : List ℕ) → length mid ≡ length bs → store mid 0 bs ≡ ok bs
unfolding store
store_over [] [] e = refl
store_over [] (b ∷ bs) e = absurd (omega arith)
store_over (m ∷ mid) [] e = absurd (omega arith)
store_over (m ∷ mid) (b ∷ bs) e = rw (store_over mid bs (omega arith))

store_end :
    (front mid bs : List ℕ) (i : ℕ)
    → i ≡ length front
    → length mid ≡ length bs
    → store (front ++ mid) i bs ≡ ok (front ++ bs)
unfolding store
store_end [] mid bs zero e h = store_over mid bs h
store_end [] mid bs (suc i) e h = absurd (omega arith)
store_end (f ∷ front) mid bs zero e h = absurd (omega arith)
store_end (f ∷ front) mid bs (suc i) e h = rw (store_end front mid bs i (omega arith) h)

-- A store behind the end, after `pad` zeros.
pub append_at_lem :
    (s : Cycser) (pad n off : ℕ) (bs : List ℕ)
    → IsOpen s
    → off ≡ s.off + pad
    → n ≡ length bs
    → append_at s off n bs ≡ ok (extended s (replicate pad 0 ++ bs))
unfolding append_at
append_at_lem s pad n off bs o e l =
    let z : List ℕ = replicate pad 0 in
    let front : List ℕ = s.dst ++ z in
    let sized : resize s.dst (off + n + 4) ≡ front ++ replicate n 0 =
      resize_grow s.dst (pad + n) (off + n + 4) (omega (arith, o))
      ∙ ap (◌++◌ s.dst) (replicate-add pad n 0)
      ∙ sym (append_assoc s.dst z (replicate n 0)) in
    let stored : store (front ++ replicate n 0) (off + 4) bs ≡ ok (front ++ bs) =
      store_end front (replicate n 0) bs (off + 4)
        (omega (arith, o, length-append s.dst z, length-replicate {A = ℕ} pad 0))
        (length-replicate {A = ℕ} n 0 ∙ l) in
    let ends : off + n ≡ s.off + length (z ++ bs) =
      omega (arith, l, length-append z bs, length-replicate {A = ℕ} pad 0) in
    rw (sized, stored) (ap ok (λ i. record { dst = append_assoc s.dst z bs i; off = ends i }))

-- The serializer goes to the next multiple of the width.
pub aligned_pad :
    (w : Width) (off : ℕ) → aligned (sizeof w) off ≡ off + (sizeof w - off % sizeof w) % sizeof w
aligned_pad one_byte off = ground arith
aligned_pad two_bytes off = ground arith
aligned_pad four_bytes off = ground arith
aligned_pad eight_bytes off = ground arith

pub serialize-layout :
    (h : Host) (w : Width) (x : ℕ) (s : Cycser)
    → IsOpen s
    → serialize h w x s ≡ ok (extended s (scalar_at h w x s.off))
unfolding serialize
serialize-layout h w x s o =
    append_at_lem s ((sizeof w - s.off % sizeof w) % sizeof w) (sizeof w) _ (to_memory h w x) o
      (aligned_pad w s.off) (sym (length-to_memory h w x))

pub length-to_memories :
    (h : Host) (w : Width) (xs : List ℕ) → length (to_memories h w xs) ≡ length xs * sizeof w
unfolding to_memories
length-to_memories h w [] = omega arith
length-to_memories h w (x ∷ xs) = grind (
  arith,
  length-append (to_memory h w x) (to_memories h w xs),
  length-to_memory h w x,
  length-to_memories h w xs,
)

-- Bytes right behind the end.
append_here :
    (s : Cycser) (n : ℕ) (bs : List ℕ)
    → IsOpen s
    → n ≡ length bs
    → append_at s s.off n bs ≡ ok (extended s bs)
append_here s n bs o l = append_at_lem s 0 n s.off bs o (omega arith) l

-- Every `<<` succeeds, writes inside the buffer, and appends its layout.
pub insert-layout :
    (h : Host) (v : Value) (s : Cycser)
    → IsOpen s
    → insert h v s ≡ ok (extended s (layout h v s.off))
unfolding insert layout serialize_bool serialize_string serialize_wstring
insert-layout h (boolean b) s o = serialize-layout h one_byte (bool_byte b) s o
insert-layout h (scalar w x) s o = serialize-layout h w x s o
insert-layout h (text x) s o =
    let head : List ℕ = scalar_at h four_bytes ((length x + 1) % 2 ^ 32) s.off in
    rw (serialize-layout h four_bytes ((length x + 1) % 2 ^ 32) s o) (
      append_here (extended s head) (length x + 1) (x ++ 0 ∷ []) (extended-IsOpen s head o)
        (omega (arith, length-append x (0 ∷ [])))
      ∙ ap ok (extended-extended s head (x ++ 0 ∷ [])))
insert-layout h (wide_text x) s o =
    let head : List ℕ = scalar_at h four_bytes (length x % 2 ^ 32) s.off in
    let units : List ℕ = to_memories h h.wchar x in
    rw (serialize-layout h four_bytes (length x % 2 ^ 32) s o) (
      append_here (extended s head) (length x * sizeof h.wchar) units (extended-IsOpen s head o)
        (sym (length-to_memories h h.wchar x))
      ∙ ap ok (extended-extended s head units))

-- For every sequence of `<<` on a serializer whose buffer ends at its offset: none writes outside
-- the buffer, and they append the bytes of the format, each scalar padded to its own size and each
-- text behind its length, at the offsets that they reach.
pub insert_all-layout_all :
    (h : Host) (vs : List Value) (s : Cycser)
    → IsOpen s
    → insert_all h vs s ≡ ok (extended s (layout_all h vs s.off))
unfolding insert_all layout_all
insert_all-layout_all h [] s o =
    let same : s.off ≡ s.off + 0 = omega arith in
    ap ok (λ i. record { dst = sym (append-nil s.dst) i; off = same i })
insert_all-layout_all h (v ∷ vs) s o =
    let bs : List ℕ = layout h v s.off in
    rw (insert-layout h v s o) (
      insert_all-layout_all h vs (extended s bs) (extended-IsOpen s bs o)
      ∙ ap ok (extended-extended s bs (layout_all h vs (s.off + length bs))))
