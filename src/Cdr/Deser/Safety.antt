-- ===== src/Cdr/Deser/Safety.antt =====
-- cycdeser on any buffer that holds the header: it never reads outside the buffer.
use rws.Base.{
  ℕ, zero, suc, ◌+◌, ◌-◌, ◌*◌, ◌/◌, ◌^◌, ◌≤◌, ◌<◌, ◌≡◌, ◌≢◌, refl, ap, ◌∙◌, Bool, true, false, List,
  [], ◌∷◌, ◌==◌, ltb, if◌then◌else◌, length, drop, length-take, length-drop, ltb→lt, arith,
}
use rws.Base.Result.{Result, ok, err, fault, ◌>>=◌}
use rws.Cdr.Host.{Width, one_byte, two_bytes, four_bytes, eight_bytes, sizeof, Host}
use rws.Cdr.Deser.{
  Cycdeser, Shape, sub_size, load, load_byte, cycdeser, align, validate_size, validate_str,
  load_scalar, deserialize, deserialize_bool, deserialize_len, deserialize_string,
  deserialize_wstring, extract, extract_all,
}

-- The result is no undefined behaviour, and a value that is returned has the property.
abbrev pub Safe : {A : Type 0} → (A → Type 0) → Result A → Type 0
Safe P (ok a) = P a
Safe P (err e) = Unit
Safe P fault = ⊥

-- The limit is the end of the buffer, and the position has not passed it.
pub record IsSane (d : Cycdeser) : Type 0 where
  pub ends : d.lim ≡ length d.bytes
  pub inside : d.pos ≤ d.lim
  pub bounded : d.lim < 2 ^ 63

pub Safe->>= :
    {A B : Type 0} (P : A → Type 0) (Q : B → Type 0) (m : Result A) (f : A → Result B)
    → Safe P m
    → ((a : A) → m ≡ ok a → P a → Safe Q (f a))
    → Safe Q (m >>= f)
Safe->>= P Q (ok a) f s next = next a refl s
Safe->>= P Q (err e) f s next = tt
Safe->>= P Q fault f s next = s

pub Safe-ne-fault : {A : Type 0} (P : A → Type 0) (r : Result A) → Safe P r → r ≢ fault
Safe-ne-fault P (ok a) s = λ e. cc
Safe-ne-fault P (err e) s = λ e. cc
Safe-ne-fault P fault s = absurd s

pub Safe-if :
    {A : Type 0} (P : A → Type 0) (b : Bool) (x y : Result A)
    → (b ≡ true → Safe P x)
    → (b ≡ false → Safe P y)
    → Safe P (if b then x else y)
Safe-if P true x y s t = s refl
Safe-if P false x y s t = t refl

-- The reader that an operation leaves: on the same buffer, and not behind where it was.
pub record IsAfter (d e : Cycdeser) : Type 0 where
  pub sane : IsSane e
  pub same_bytes : e.bytes ≡ d.bytes
  pub onward : d.pos ≤ e.pos

align-Safe : (w : Width) (d : Cycdeser) → IsSane d → Safe (IsAfter d) (align (sizeof w) d)
unfolding align
align-Safe w d s = ground arith

-- Where the size check passes, the bytes are there.
fits_div : (w : Width) (count n : ℕ) → ltb (n / sizeof w) count ≡ false → count * sizeof w ≤ n
fits_div one_byte count n h = ground arith
fits_div two_bytes count n h = ground arith
fits_div four_bytes count n h = ground arith
fits_div eight_bytes count n h = ground arith

validate_size-Safe :
    (count : ℕ) (w : Width) (d : Cycdeser)
    → IsSane d
    → Safe (λ _. d.pos + count * sizeof w ≤ length d.bytes) (validate_size count w d)
unfolding validate_size
validate_size-Safe count w d s =
    let left : sub_size d.lim d.pos ≡ d.lim - d.pos = omega arith in
    ground (arith, left, fits_div w count (sub_size d.lim d.pos))

pub load-Safe :
    (bytes : List ℕ) (pos n : ℕ)
    → pos + n ≤ length bytes
    → Safe (λ bs. length bs ≡ n) (load bytes pos n)
unfolding load
load-Safe bytes pos n h = ground (arith, length-take n (drop pos bytes), length-drop pos bytes)

load_byte-Safe :
    (bytes : List ℕ) (i : ℕ) → i < length bytes → Safe (λ _. Unit {0}) (load_byte bytes i)
unfolding load_byte
load_byte-Safe [] i h = absurd (omega arith)
load_byte-Safe (b ∷ bytes) zero h = tt
load_byte-Safe (b ∷ bytes) (suc i) h = load_byte-Safe bytes i (omega arith)

pub validate_str-Safe :
    (sz : ℕ) (d : Cycdeser) → d.pos + sz ≤ length d.bytes → Safe (λ _. Unit {0}) (validate_str sz d)
unfolding validate_str
validate_str-Safe sz d h =
    Safe-if _ (ltb 0 sz) _ _
      (λ pos.
        Safe->>= _ _ (load_byte d.bytes (d.pos + sz - 1)) _
          (load_byte-Safe d.bytes (d.pos + sz - 1) (omega (arith, h, ltb→lt 0 sz pos)))
          λ last _ _. Safe-if _ (last == 0) _ _ (λ _. tt) (λ _. tt))
      (λ _. tt)

pub moved :
    (d : Cycdeser) (n : ℕ)
    → IsSane d
    → d.pos + n ≤ length d.bytes
    → IsAfter d (record d { pos = d.pos + n })
moved d n s h = record {
  sane = record { ends = s.ends; inside = omega (arith, s.ends); bounded = s.bounded };
  same_bytes = refl;
  onward = omega arith;
}

pub IsAfter-trans : {c d e : Cycdeser} → IsAfter c d → IsAfter d e → IsAfter c e
IsAfter-trans p q = record {
  sane = q.sane;
  same_bytes = q.same_bytes ∙ p.same_bytes;
  onward = omega (arith, p.onward, q.onward);
}

-- A value with the reader behind it.
abbrev pub Reads : {A : Type 0} → Cycdeser → Result (A × Cycdeser) → Type 0
Reads d = Safe (λ r. IsAfter d r.1)

pub later :
    {A : Type 0} {d e : Cycdeser}
    → IsAfter d e
    → (r : Result (A × Cycdeser)) → Reads e r
    → Reads d r
later p (ok r) q = IsAfter-trans p q
later p (err x) q = tt
later p fault q = q

load_scalar-Reads :
    (h : Host) (w : Width) (d : Cycdeser)
    → IsSane d
    → d.pos + sizeof w ≤ length d.bytes
    → Reads d (load_scalar h w d)
unfolding load_scalar
load_scalar-Reads h w d s room =
    Safe->>= _ _ (load d.bytes d.pos (sizeof w)) _ (load-Safe d.bytes d.pos (sizeof w) room)
      λ bs _ _. moved d (sizeof w) s room

pub deserialize-Reads :
    (h : Host) (w : Width) (d : Cycdeser) → IsSane d → Reads d (deserialize h w d)
unfolding deserialize
deserialize-Reads h w d s = Safe->>= _ _ (align (sizeof w) d) _ (align-Safe w d s) λ e _ p.
    Safe->>= _ _ (validate_size 1 w e) _ (validate_size-Safe 1 w e p.sane)
      λ _ _ room. later p _ (load_scalar-Reads h w e p.sane (omega (arith, room)))

deserialize_bool-Reads : (h : Host) (d : Cycdeser) → IsSane d → Reads d (deserialize_bool h d)
unfolding deserialize_bool
deserialize_bool-Reads h d s =
    Safe->>= _ _ (deserialize h one_byte d) _ (deserialize-Reads h one_byte d s) λ _ _ p. p

-- A length that passes its check counts elements that are there.
pub deserialize_len-Safe :
    (h : Host) (w : Width) (d : Cycdeser)
    → IsSane d
    → Safe
        (λ r. IsAfter d r.1 × (r.1.pos + r.0 * sizeof w ≤ length d.bytes))
        (deserialize_len h w d)
unfolding deserialize_len
deserialize_len-Safe h w d s =
    Safe->>= _ _ (deserialize h four_bytes d) _ (deserialize-Reads h four_bytes d s) λ r _ p.
      Safe->>= _ _ (validate_size r.0 w r.1) _ (validate_size-Safe r.0 w r.1 p.sane)
        λ _ _ room. (p, omega (arith, room, ap length p.same_bytes))

deserialize_string-Reads : (h : Host) (d : Cycdeser) → IsSane d → Reads d (deserialize_string h d)
unfolding deserialize_string
deserialize_string-Reads h d s =
    Safe->>= _ _ (deserialize_len h one_byte d) _ (deserialize_len-Safe h one_byte d s) λ r _ q.
      let room : r.1.pos + r.0 ≤ length r.1.bytes = omega (arith, q.1, ap length q.0.same_bytes) in
      Safe-if _ (r.0 == 0) _ _ (λ _. IsAfter-trans q.0 (moved r.1 r.0 q.0.sane room))
        λ _. Safe->>= _ _ (validate_str r.0 r.1) _ (validate_str-Safe r.0 r.1 room) λ _ _ _.
          Safe->>= _ _ (load r.1.bytes r.1.pos (r.0 - 1)) _
            (load-Safe r.1.bytes r.1.pos (r.0 - 1) (omega (arith, room)))
            λ x _ _. IsAfter-trans q.0 (moved r.1 r.0 q.0.sane room)

deserialize_wstring-Reads : (h : Host) (d : Cycdeser) → IsSane d → Reads d (deserialize_wstring h d)
unfolding deserialize_wstring
deserialize_wstring-Reads h d s =
    Safe->>= _ _ (deserialize_len h h.wchar d) _ (deserialize_len-Safe h h.wchar d s) λ r _ q.
      let room : r.1.pos + r.0 * sizeof h.wchar ≤ length r.1.bytes =
        omega (arith, q.1, ap length q.0.same_bytes) in
      Safe->>= _ _ (load r.1.bytes r.1.pos (r.0 * sizeof h.wchar)) _
        (load-Safe r.1.bytes r.1.pos (r.0 * sizeof h.wchar) room)
        λ bs _ _. IsAfter-trans q.0 (moved r.1 (r.0 * sizeof h.wchar) q.0.sane room)

-- On any bytes, a `>>` returns or throws; it does not read outside the buffer, and moves forward.
pub extract-Reads : (h : Host) (t : Shape) (d : Cycdeser) → IsSane d → Reads d (extract h t d)
unfolding extract
extract-Reads h Shape.boolean d s =
    Safe->>= _ _ (deserialize_bool h d) _ (deserialize_bool-Reads h d s) λ _ _ p. p
extract-Reads h (Shape.scalar w) d s =
    Safe->>= _ _ (deserialize h w d) _ (deserialize-Reads h w d s) λ _ _ p. p
extract-Reads h Shape.text d s =
    Safe->>= _ _ (deserialize_string h d) _ (deserialize_string-Reads h d s) λ _ _ p. p
extract-Reads h Shape.wide_text d s =
    Safe->>= _ _ (deserialize_wstring h d) _ (deserialize_wstring-Reads h d s) λ _ _ p. p

pub extract_all-Reads :
    (h : Host) (ts : List Shape) (d : Cycdeser) → IsSane d → Reads d (extract_all h ts d)
unfolding extract_all
extract_all-Reads h [] d s = record { sane = s; same_bytes = refl; onward = omega arith }
extract_all-Reads h (t ∷ ts) d s = Safe->>= _ _ (extract h t d) _ (extract-Reads h t d s) λ r _ p.
    Safe->>= _ _ (extract_all h ts r.1) _ (extract_all-Reads h ts r.1 p.sane)
      λ q _ p'. IsAfter-trans p p'

-- The constructor accepts any buffer that holds the four bytes of the header.
pub cycdeser-Safe :
    (h : Host) (buffer : List ℕ)
    → 4 ≤ length buffer
    → length buffer < 2 ^ 63
    → Safe (λ d. IsSane d × (d.pos ≡ 0) × (d.bytes ≡ drop 4 buffer)) (cycdeser h buffer)
unfolding cycdeser
cycdeser-Safe h buffer lo hi =
    Safe->>= _ _ (load_byte buffer 1) _ (load_byte-Safe buffer 1 (omega (arith, lo))) λ b _ _. (
      record {
        ends = omega (arith, length-drop 4 buffer);
        inside = omega arith;
        bounded = omega arith;
      },
      refl,
      refl,
    )
