-- ===== src/Cdr/Deser/Arrays.antt =====
-- The bulk reads of DESER_A return what element by element deserialization returns.
use rws.Base.{
  ℕ, zero, suc, ◌+◌, ◌*◌, ◌/◌, ◌%◌, ◌≤◌, ◌≡◌, refl, sym, ap, ◌∙◌, true, false, List, [], ◌∷◌, ltb,
  if◌then◌else◌, length, take, drop, take-take, drop-take, drop-drop, Bool-cases, inl, inr, arith,
}
use mathlib.Core.Path.{ap₂}
use rws.Base.Result.{Result-cases, ok, err, invalid_size, ◌>>=◌, ◌>>◌}
use rws.Cdr.Host.{Width, one_byte, two_bytes, four_bytes, eight_bytes, sizeof, Host, of_memory}
use rws.Cdr.Deser.{
  Cycdeser, sub_size, load, align, validate_size, swapped, load_scalar, deserialize, of_memories,
  load_scalars, deserialize_array, deserialize_each,
}
use rws.Cdr.Deser.Safety.{IsSane}

-- A reader at a place where a scalar of the width may stand.
record IsAligned (w : Width) (d : Cycdeser) : Type 0 where
  sane : IsSane d
  even : d.pos % sizeof w ≡ 0

align_aligned : (w : Width) (d : Cycdeser) → IsAligned w d → align (sizeof w) d ≡ ok d
unfolding align
align_aligned w d a = ground (arith, a.even)

-- One scalar further on.
abbrev behind : Width → Cycdeser → Cycdeser
behind w d = record d { pos = d.pos + sizeof w }

load_scalar-value :
    (h : Host) (w : Width) (d : Cycdeser)
    → d.pos + sizeof w ≤ length d.bytes
    → load_scalar h w d
      ≡ ok (swapped d.swap_bytes w (of_memory h (take (sizeof w) (drop d.pos d.bytes))), behind w d)
unfolding load_scalar load
load_scalar-value h w d room = ground arith

-- How many scalars are left.
abbrev left : Width → Cycdeser → ℕ
left w d = sub_size d.lim d.pos / sizeof w

left-behind :
    (w : Width) (d : Cycdeser)
    → IsAligned w d
    → 1 ≤ left w d
    → (d.pos + sizeof w ≤ length d.bytes)
      × IsAligned w (behind w d)
      × (left w d ≡ suc (left w (behind w d)))
left-behind one_byte d a h = omega arith
left-behind two_bytes d a h = omega arith
left-behind four_bytes d a h = omega arith
left-behind eight_bytes d a h = omega arith

deserialize-aligned :
    (h : Host) (w : Width) (d : Cycdeser)
    → IsAligned w d
    → deserialize h w d ≡ (if ltb (left w d) 1 then err invalid_size else load_scalar h w d)
unfolding deserialize validate_size
deserialize-aligned h w d a = rw (align_aligned w d a) (ground arith)

-- Element by element: as many checks as elements are one check of all.
deserialize_each-aligned :
    (h : Host) (w : Width) (cnt : ℕ) (d : Cycdeser)
    → IsAligned w d
    → deserialize_each (deserialize h w) cnt d
      ≡ (if ltb (left w d) cnt then err invalid_size else load_scalars h w cnt d)
unfolding deserialize_each load_scalars
deserialize_each-aligned h w zero d a = ground arith
deserialize_each-aligned h w (suc cnt) d a = elim (Bool-cases (ltb (left w d) 1)) [
  | inl short ↦
      let all_short : ltb (left w d) (suc cnt) ≡ true = ground arith in
      rw (deserialize-aligned h w d a) (rw (short, all_short))
  | inr enough ↦
      let (room, next, less) = left-behind w d a (ground arith) in
      let same : ltb (left w d) (suc cnt) ≡ ltb (left w (behind w d)) cnt = ground arith in
      rw (deserialize-aligned h w d a) (
        rw (enough, same, load_scalar-value h w d room)
          (rw (deserialize_each-aligned h w cnt (behind w d) next) (ground arith)))
]

-- One copy of the memory holds what the loop loads.
of_memories-suc :
    (h : Host) (w : Width) (cnt : ℕ) (xs : List ℕ)
    → of_memories h w (suc cnt) (take (suc cnt * sizeof w) xs)
      ≡ of_memory h (take (sizeof w) xs)
        ∷ of_memories h w cnt (take (cnt * sizeof w) (drop (sizeof w) xs))
unfolding of_memories
of_memories-suc h w cnt xs =
    let total : suc cnt * sizeof w ≡ sizeof w + cnt * sizeof w = grind arith in
    ap₂ (λ b bs. of_memory h b ∷ of_memories h w cnt bs)
      (take-take (sizeof w) (suc cnt * sizeof w) xs (omega (arith, total)))
      (drop-take (sizeof w) (cnt * sizeof w) (suc cnt * sizeof w) xs total)

load_scalars-copied :
    (h : Host) (w : Width) (cnt : ℕ) (d : Cycdeser)
    → IsAligned w d
    → cnt ≤ left w d
    → d.swap_bytes ≡ false
    → load_scalars h w cnt d
      ≡ ok (
        of_memories h w cnt (take (cnt * sizeof w) (drop d.pos d.bytes)),
        record d { pos = d.pos + cnt * sizeof w },
      )
unfolding load_scalars
load_scalars-copied h w zero d a room plain =
    unfold of_memories in ap (λ n. ok ([], record d { pos = n })) (omega arith)
load_scalars-copied h w (suc cnt) d a room plain =
    let (here, next, less) = left-behind w d a (omega (arith, room)) in
    let total : d.pos + sizeof w + cnt * sizeof w ≡ d.pos + suc cnt * sizeof w = grind arith in
    rw (load_scalar-value h w d here) (
      rw (load_scalars-copied h w cnt (behind w d) next (omega (arith, room, less)) plain) (
        ap₂ (λ xs n. ok (xs, record d { pos = n }))
          (ap₂ ◌∷◌
              (ap (λ b. swapped b w (of_memory h (take (sizeof w) (drop d.pos d.bytes)))) plain)
              (ap (λ bs. of_memories h w cnt (take (cnt * sizeof w) bs))
                (drop-drop d.pos (sizeof w) (d.pos + sizeof w) d.bytes refl))
            ∙ sym (of_memories-suc h w cnt (drop d.pos d.bytes)))
          total))

-- The bytes of `cnt` scalars are in the buffer.
left_room :
    (w : Width) (cnt : ℕ) (d : Cycdeser)
    → IsAligned w d
    → cnt ≤ left w d
    → d.pos + cnt * sizeof w ≤ length d.bytes
left_room one_byte cnt d a h = omega arith
left_room two_bytes cnt d a h = omega arith
left_room four_bytes cnt d a h = omega arith
left_room eight_bytes cnt d a h = omega arith

align-IsAligned :
    (w : Width) (d e : Cycdeser) → IsSane d → align (sizeof w) d ≡ ok e → IsAligned w e
unfolding align
align-IsAligned one_byte d e s h = record { sane = ground arith; even = ground arith }
align-IsAligned two_bytes d e s h = record { sane = ground arith; even = ground arith }
align-IsAligned four_bytes d e s h = record { sane = ground arith; even = ground arith }
align-IsAligned eight_bytes d e s h = record { sane = ground arith; even = ground arith }

-- The first element brings the reader to the alignment of all.
deserialize-align :
    (h : Host) (w : Width) (d : Cycdeser)
    → IsSane d
    → deserialize h w d ≡ (align (sizeof w) d >>= λ e. deserialize h w e)
deserialize-align h w d s = elim (Result-cases (align (sizeof w) d)) [
  | inl (e, aligns) ↦
      unfold deserialize in rw aligns (rw (align_aligned w e (align-IsAligned w d e s aligns)))
  | inr (inl (x, fails)) ↦ unfold deserialize in rw fails
  | inr (inr faults) ↦ unfold deserialize in rw faults
]

array_aligned :
    (h : Host) (w : Width) (cnt : ℕ) (e : Cycdeser)
    → IsAligned w e
    → (validate_size cnt w e
        >> (if e.swap_bytes
            then load_scalars h w cnt e
            else (load e.bytes e.pos (cnt * sizeof w) >>= λ bs.
                ok (of_memories h w cnt bs, record e { pos = e.pos + cnt * sizeof w }))))
      ≡ deserialize_each (deserialize h w) cnt e
unfolding validate_size load
array_aligned h w cnt e a = ground (
  arith,
  deserialize_each-aligned h w cnt e a,
  load_scalars-copied h w cnt e a,
  left_room w cnt e a,
)

-- For every reader on a buffer below 2 ^ 63 bytes that stands inside it, and every element width
-- and count, the bulk read of deserializeA (one alignment, one size check, then a swapping loop or
-- a copy) and reading the elements one by one return the same values and the same reader, or throw
-- the same exception.
pub deserialize_array-deserialize_each :
    (h : Host) (w : Width) (cnt : ℕ) (d : Cycdeser)
    → IsSane d
    → deserialize_array h w cnt d ≡ deserialize_each (deserialize h w) cnt d
unfolding deserialize_array
deserialize_array-deserialize_each h w zero d s = unfold deserialize_each in refl
deserialize_array-deserialize_each h w (suc cnt) d s =
    let positive : ltb 0 (suc cnt) ≡ true = ground arith in
    rw positive (elim (Result-cases (align (sizeof w) d)) [
      | inl (e, aligns) ↦ rw aligns (
          array_aligned h w (suc cnt) e (align-IsAligned w d e s aligns)
          ∙ unfold deserialize_each in rw (deserialize-align h w d s) (rw aligns))
      | inr (inl (x, fails)) ↦
          rw fails (unfold deserialize_each in rw (deserialize-align h w d s) (rw fails))
      | inr (inr faults) ↦
          rw faults (unfold deserialize_each in rw (deserialize-align h w d s) (rw faults))
    ])
