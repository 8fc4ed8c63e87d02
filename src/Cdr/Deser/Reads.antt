-- ===== src/Cdr/Deser/Reads.antt =====
-- cycdeser on what cycser wrote: each `>>` reads one layout and stops behind it.
use rws.Base.{
  ℕ, ◌+◌, ◌*◌, ◌%◌, ◌^◌, ◌≤◌, ◌<◌, ◌≡◌, refl, sym, ap, ◌∙◌, Bool, true, false, List, [], ◌∷◌, ◌++◌,
  ◌==◌, if◌then◌else◌, length, length-append, drop-append, take-append, map, append_assoc, All,
  arith,
}
use mathlib.Core.Path.{subst, ap₂}
use rws.Base.Result.{ok}
use rws.Cdr.Host.{Width, one_byte, four_bytes, sizeof, Fits, Host, to_memory, of_memory, fn_swap}
use rws.Cdr.Swap.{unlike, length-to_memory, swapped_back, of_memory-to_memory}
use rws.Cdr.Ser.{Value, to_memories}
use rws.Cdr.Ser.Layout.{padding, scalar_at, layout, layout_all, length-to_memories}
use rws.Cdr.Deser.{
  Cycdeser, Shape, swapped, load_scalar, deserialize, deserialize_bool, deserialize_len,
  deserialize_string, of_memories, deserialize_wstring, extract, extract_all,
}
use rws.Cdr.Deser.At.{
  IsAt, advanced, advance, load_mid, align-padding, validate_size_fits, advanced-advanced,
  read_text,
}

-- `h` reads, `k` has written; `swap_bytes` says whether they differ.
module _ (h k : Host) where
  pub deserialize-scalar_at :
      (w : Width) (x : ℕ) (d : Cycdeser) (front rest : List ℕ)
      → Fits w x
      → d.swap_bytes ≡ unlike h k
      → IsAt d front (scalar_at k w x (length front) ++ rest)
      → deserialize h w d ≡ ok (x, advanced d (length (scalar_at k w x (length front))))
  unfolding deserialize load_scalar
  deserialize-scalar_at w x d front rest fits swap p =
      let pad : List ℕ = padding (sizeof w) (length front) in
      let mem : List ℕ = to_memory k w x in
      let q : IsAt d front (pad ++ (mem ++ rest)) =
        subst (IsAt d front) (append_assoc pad mem rest) p in
      let e : Cycdeser = advanced d (length pad) in
      let r : IsAt e (front ++ pad) (mem ++ rest) = advance pad (mem ++ rest) q in
      rw (align-padding w d front (mem ++ rest) q) (
        rw
          (validate_size_fits 1 w r (omega (arith, length-append mem rest, length-to_memory k w x)))
          (rw (load_mid mem rest r (sizeof w) (sym (length-to_memory k w x))) (
            ap₂ (λ v n. ok (v, record d { pos = n }))
              (ap (λ b. swapped b w (of_memory h mem)) swap ∙ swapped_back h k w x fits)
              (omega (arith, length-append pad mem, length-to_memory k w x)))))

  pub deserialize_len-scalar_at :
      (el_sz : Width) (sz : ℕ) (d : Cycdeser) (front rest : List ℕ)
      → sz < 2 ^ 32
      → sz * sizeof el_sz ≤ length rest
      → d.swap_bytes ≡ unlike h k
      → IsAt d front (scalar_at k four_bytes sz (length front) ++ rest)
      → deserialize_len h el_sz d
        ≡ ok (sz, advanced d (length (scalar_at k four_bytes sz (length front))))
  unfolding deserialize_len
  deserialize_len-scalar_at el_sz sz d front rest fits room swap p =
      let head : List ℕ = scalar_at k four_bytes sz (length front) in
      rw (deserialize-scalar_at four_bytes sz d front rest fits swap p)
        (rw (validate_size_fits sz el_sz (advance head rest p) room))

  deserialize_string-layout :
      (x : List ℕ) (d : Cycdeser) (front rest : List ℕ)
      → length x + 1 < 2 ^ 32
      → d.swap_bytes ≡ unlike h k
      → IsAt d front (layout k (Value.text x) (length front) ++ rest)
      → deserialize_string h d
        ≡ ok (x, advanced d (length (layout k (Value.text x) (length front))))
  unfolding deserialize_string layout
  deserialize_string-layout x d front rest fits swap p =
      let small : (length x + 1) % 2 ^ 32 ≡ length x + 1 = omega arith in
      let head : List ℕ = scalar_at k four_bytes (length x + 1) (length front) in
      let units : List ℕ = x ++ 0 ∷ [] in
      let size : length units ≡ length x + 1 = omega (arith, length-append x (0 ∷ [])) in
      let q : IsAt d front (head ++ (units ++ rest)) =
        subst (IsAt d front)
          (ap (λ n. (scalar_at k four_bytes n (length front) ++ units) ++ rest) small
            ∙ append_assoc head units rest)
          p in
      let r : IsAt (advanced d (length head)) (front ++ head) (units ++ rest) =
        advance head (units ++ rest) q in
      let nonzero : (length x + 1 == 0) ≡ false = ground arith in
      let step =
        deserialize_len-scalar_at one_byte (length x + 1) d front (units ++ rest) fits
          (omega (arith, length-append units rest, size)) swap q in
      let (checked, loaded) = read_text x (front ++ head) rest r in
      rw (step, nonzero, checked, loaded, small)
        (ap (λ n. ok (x, record d { pos = n })) (omega (arith, length-append head units, size)))

  -- A unit of a wide text as the reader sees it: nothing is swapped there.
  abbrev pub seen : Width → ℕ → ℕ
  seen w x = if unlike h k then fn_swap w x else x

  of_memories-to_memories :
      (w : Width) (xs : List ℕ)
      → All (Fits w) xs
      → of_memories h w (length xs) (to_memories k w xs) ≡ map (seen w) xs
  unfolding of_memories to_memories
  of_memories-to_memories w [] fits = refl
  of_memories-to_memories w (x ∷ xs) fits =
      let len = sym (length-to_memory k w x) in
      rw (take-append (sizeof w) (to_memory k w x) (to_memories k w xs) len) (
        rw (drop-append (sizeof w) (to_memory k w x) (to_memories k w xs) len)
          (ap₂ ◌∷◌ (of_memory-to_memory h k w x fits.0) (of_memories-to_memories w xs fits.1)))

  deserialize_wstring-layout :
      (x : List ℕ) (d : Cycdeser) (front rest : List ℕ)
      → length x < 2 ^ 32
      → All (Fits h.wchar) x
      → h.wchar ≡ k.wchar
      → d.swap_bytes ≡ unlike h k
      → IsAt d front (layout k (Value.wide_text x) (length front) ++ rest)
      → deserialize_wstring h d
        ≡ ok (
          map (seen h.wchar) x,
          advanced d (length (layout k (Value.wide_text x) (length front))),
        )
  unfolding deserialize_wstring layout
  deserialize_wstring-layout x d front rest fits units_fit same swap p =
      let small : length x % 2 ^ 32 ≡ length x = omega arith in
      let head : List ℕ = scalar_at k four_bytes (length x) (length front) in
      let units : List ℕ = to_memories k k.wchar x in
      let units_same : units ≡ to_memories k h.wchar x = ap (λ w. to_memories k w x) (sym same) in
      let size : length units ≡ length x * sizeof h.wchar =
        length-to_memories k k.wchar x ∙ ap (λ w. length x * sizeof w) (sym same) in
      let q : IsAt d front (head ++ (units ++ rest)) =
        subst (IsAt d front)
          (ap (λ n. (scalar_at k four_bytes n (length front) ++ units) ++ rest) small
            ∙ append_assoc head units rest)
          p in
      let r : IsAt (advanced d (length head)) (front ++ head) (units ++ rest) =
        advance head (units ++ rest) q in
      let step =
        deserialize_len-scalar_at h.wchar (length x) d front (units ++ rest) fits
          (omega (arith, length-append units rest, size)) swap q in
      let loaded = load_mid units rest r (length x * sizeof h.wchar) (sym size) in
      rw (step, loaded, small)
        (ap₂ (λ v n. ok (v, record d { pos = n }))
          (ap (of_memories h h.wchar (length x)) units_same
            ∙ of_memories-to_memories h.wchar x units_fit)
          (omega (arith, length-append head units, size)))

  deserialize_bool-layout :
      (b : Bool) (d : Cycdeser) (front rest : List ℕ)
      → d.swap_bytes ≡ unlike h k
      → IsAt d front (layout k (Value.boolean b) (length front) ++ rest)
      → deserialize_bool h d
        ≡ ok (b, advanced d (length (layout k (Value.boolean b) (length front))))
  unfolding deserialize_bool layout
  deserialize_bool-layout true d front rest swap p =
      rw (deserialize-scalar_at one_byte 1 d front rest (omega arith) swap p)
  deserialize_bool-layout false d front rest swap p =
      rw (deserialize-scalar_at one_byte 0 d front rest (omega arith) swap p)

-- The type to read a value back into.
abbrev pub shape_of : Value → Shape
shape_of (Value.boolean b) = Shape.boolean
shape_of (Value.scalar w x) = Shape.scalar w
shape_of (Value.text x) = Shape.text
shape_of (Value.wide_text x) = Shape.wide_text

-- What the format can carry: a scalar of its width, and texts whose length fits uint32_t.
abbrev pub IsCarried : Host → Value → Type 0
IsCarried h (Value.boolean b) = Unit {0}
IsCarried h (Value.scalar w x) = Fits w x
IsCarried h (Value.text x) = length x + 1 < 2 ^ 32
IsCarried h (Value.wide_text x) = (length x < 2 ^ 32) × All (Fits h.wchar) x

-- The value that host `h` reads where host `k` has written one.
abbrev pub received : Host → Host → Value → Value
received h k (Value.boolean b) = Value.boolean b
received h k (Value.scalar w x) = Value.scalar w x
received h k (Value.text x) = Value.text x
received h k (Value.wide_text x) = Value.wide_text (map (seen h k h.wchar) x)

module _ (h k : Host) (same : h.wchar ≡ k.wchar) where
  -- Every `>>` reads the layout of a value of its type, and stops right behind it.
  pub extract-layout :
      (v : Value) (d : Cycdeser) (front rest : List ℕ)
      → IsCarried h v
      → d.swap_bytes ≡ unlike h k
      → IsAt d front (layout k v (length front) ++ rest)
      → extract h (shape_of v) d
        ≡ ok (received h k v, advanced d (length (layout k v (length front))))
  unfolding extract
  extract-layout (Value.boolean b) d front rest fits swap p =
      rw (deserialize_bool-layout h k b d front rest swap p)
  extract-layout (Value.scalar w x) d front rest fits swap p =
      unfold layout in rw (deserialize-scalar_at h k w x d front rest fits swap p)
  extract-layout (Value.text x) d front rest fits swap p =
      rw (deserialize_string-layout h k x d front rest fits swap p)
  extract-layout (Value.wide_text x) d front rest (fits, units_fit) swap p =
      rw (deserialize_wstring-layout h k x d front rest fits units_fit same swap p)

  pub extract_all-layout_all :
      (vs : List Value) (d : Cycdeser) (front rest : List ℕ)
      → All (IsCarried h) vs
      → d.swap_bytes ≡ unlike h k
      → IsAt d front (layout_all k vs (length front) ++ rest)
      → extract_all h (map shape_of vs) d
        ≡ ok (map (received h k) vs, advanced d (length (layout_all k vs (length front))))
  unfolding extract_all layout_all
  extract_all-layout_all [] d front rest fits swap p =
      ap (λ n. ok ([], record d { pos = n })) (omega arith)
  extract_all-layout_all (v ∷ vs) d front rest fits swap p =
      let bs : List ℕ = layout k v (length front) in
      let more : List ℕ = layout_all k vs (length front + length bs) in
      let q : IsAt d front (bs ++ (more ++ rest)) =
        subst (IsAt d front) (append_assoc bs more rest) p in
      let e : Cycdeser = advanced d (length bs) in
      let len : length (front ++ bs) ≡ length front + length bs = length-append front bs in
      let r : IsAt e (front ++ bs) (layout_all k vs (length (front ++ bs)) ++ rest) =
        subst (λ n. IsAt e (front ++ bs) (layout_all k vs n ++ rest)) (sym len)
          (advance bs (more ++ rest) q) in
      rw (extract-layout v d front (more ++ rest) fits.0 swap q) (
        rw (extract_all-layout_all vs e (front ++ bs) rest fits.1 swap r) (
          rw len (
            ap (λ e. ok (received h k v ∷ map (received h k) vs, e))
              (advanced-advanced d bs more))))
