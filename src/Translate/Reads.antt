-- ===== src/Translate/Reads.antt =====
-- Readers of values that one host has written and another reads, and how they are put together.
use rws.Base.{
  ℕ, ◌+◌, ◌%◌, ◌^◌, ◌≤◌, ◌<◌, ◌≡◌, sym, ap, ◌∙◌, List, [], ◌∷◌, ◌++◌, length, length-append,
  append_assoc, append-nil, All, arith,
}
use mathlib.Core.Path.{subst}
use rws.Base.Result.{Result, ok, ◌>>=◌}
use rws.Cdr.Host.{Width, one_byte, two_bytes, four_bytes, eight_bytes, sizeof, Host, to_memory}
use rws.Cdr.Swap.{unlike, length-to_memory}
use rws.Cdr.Ser as Ser
use rws.Cdr.Ser.{scalar, bool_byte, to_memories}
use rws.Cdr.Ser.Layout.{layout, layout_all, padding, scalar_at}
use rws.Cdr.Deser.{Cycdeser, Shape, extract, deserialize, deserialize_len}
use rws.Cdr.Deser.At.{IsAt, advanced, advance, advanced-advanced}
use rws.Cdr.Deser.Reads.{
  IsCarried, extract-layout, deserialize-scalar_at, deserialize_len-scalar_at,
}
use rws.Cdr.RoundTrip.{Survives, received-Survives}
use rws.Json.{HasShape}
use rws.Translate.Writes.{layout_all-append}

filled_scalar : (k : Host) (w : Width) (x off : ℕ) → 1 ≤ length (scalar_at k w x off)
filled_scalar k w x off =
    let pad : List ℕ = padding (sizeof w) off in
    omega (arith, length-append pad (to_memory k w x), length-to_memory k w x, size w)
  where
    size : (w : Width) → 1 ≤ sizeof w
    size one_byte = omega arith
    size two_bytes = omega arith
    size four_bytes = omega arith
    size eight_bytes = omega arith

filled_more :
    (k : Host) (w : Width) (x off : ℕ) (more : List ℕ) → 1 ≤ length (scalar_at k w x off ++ more)
filled_more k w x off more =
    let bs : List ℕ = scalar_at k w x off in
    omega (arith, length-append bs more, filled_scalar k w x off)

filled : (k : Host) (v : Ser.Value) (off : ℕ) → 1 ≤ length (layout k v off)
unfolding layout
filled k (Ser.Value.boolean b) off = filled_scalar k one_byte (bool_byte b) off
filled k (Ser.Value.scalar w x) off = filled_scalar k w x off
filled k (Ser.Value.text x) off =
    filled_more k four_bytes ((length x + 1) % 2 ^ 32) off (x ++ 0 ∷ [])
filled k (Ser.Value.wide_text x) off =
    filled_more k four_bytes (length x % 2 ^ 32) off (to_memories k k.wchar x)

-- Every value takes a byte at least.
pub length-le-layout_all :
    (k : Host) (vs : List Ser.Value) (off : ℕ) → length vs ≤ length (layout_all k vs off)
unfolding layout_all
length-le-layout_all k [] off = omega arith
length-le-layout_all k (v ∷ vs) off =
    let bs : List ℕ = layout k v off in
    omega (
      arith,
      filled k v off,
      length-le-layout_all k vs (off + length bs),
      length-append bs (layout_all k vs (off + length bs)),
    )

-- `h` reads, `k` has written.
module _ (h k : Host) (same : h.wchar ≡ k.wchar) where
  -- The values fit the format and survive between the hosts, and a uint32_t counts them.
  pub record Fit (vs : List Ser.Value) : Type 0 where
    pub carried : All (IsCarried h) vs
    pub survive : All (Survives h k) vs
    pub few : length vs < 2 ^ 32

  All-split :
      (P : Ser.Value → Type 0) (xs ys : List Ser.Value) → All P (xs ++ ys) → All P xs × All P ys
  All-split P [] ys a = (tt, a)
  All-split P (x ∷ xs) ys a = let r = All-split P xs ys a.1 in ((a.0, r.0), r.1)

  pub Fit-append : (xs ys : List Ser.Value) → Fit (xs ++ ys) → Fit xs × Fit ys
  Fit-append xs ys f =
      let c = All-split (IsCarried h) xs ys f.carried in
      let s = All-split (Survives h k) xs ys f.survive in
      let n = length-append xs ys in
      (
        record { carried = c.0; survive = s.0; few = omega (arith, f.few, n) },
        record { carried = c.1; survive = s.1; few = omega (arith, f.few, n) },
      )

  -- Wherever these values have been written, the reader returns `a` and stops behind them.
  abbrev pub Reads : {A : Type 0} → List Ser.Value → (Cycdeser → Result (A × Cycdeser)) → A → Type 0
  Reads vs f a =
      (d : Cycdeser) (front rest : List ℕ)
      → d.swap_bytes ≡ unlike h k
      → IsAt d front (layout_all k vs (length front) ++ rest)
      → f d ≡ ok (a, advanced d (length (layout_all k vs (length front))))

  pub Reads-eq :
      {A : Type 0} {vs ws : List Ser.Value} (f : Cycdeser → Result (A × Cycdeser)) (a : A)
      → vs ≡ ws
      → Reads vs f a
      → Reads ws f a
  Reads-eq f a e = subst (λ vs. Reads vs f a) e

  pub Reads-nil : {A : Type 0} (a : A) → Reads [] (λ d. ok (a, d)) a
  unfolding layout_all
  Reads-nil a d front rest swap p =
      let stays : d.pos ≡ d.pos + 0 = omega arith in ap (λ n. ok (a, record d { pos = n })) stays

  pub Reads-map :
      {A B : Type 0} (xs : List Ser.Value) (f : Cycdeser → Result (A × Cycdeser)) (φ : A → B)
      (a : A)
      → Reads xs f a
      → Reads xs (λ d. f d >>= λ r. ok (φ r.0, r.1)) (φ a)
  Reads-map xs f φ a r d front rest swap p =
      ap (λ o. o >>= λ r. ok (φ r.0, r.1)) (r d front rest swap p)

  -- The same, where at least `n` bytes follow.
  abbrev ReadsBefore :
      {A : Type 0} → ℕ → List Ser.Value → (Cycdeser → Result (A × Cycdeser)) → A → Type 0
  ReadsBefore n vs f a =
      (d : Cycdeser) (front rest : List ℕ)
      → n ≤ length rest
      → d.swap_bytes ≡ unlike h k
      → IsAt d front (layout_all k vs (length front) ++ rest)
      → f d ≡ ok (a, advanced d (length (layout_all k vs (length front))))

  ReadsBefore-append :
      {A B : Type 0} (xs ys : List Ser.Value) (f : Cycdeser → Result (A × Cycdeser))
      (g : A → Cycdeser → Result (B × Cycdeser)) (a : A) (b : B)
      → ReadsBefore (length ys) xs f a
      → Reads ys (g a) b
      → Reads (xs ++ ys) (λ d. f d >>= λ r. g r.0 r.1) b
  ReadsBefore-append xs ys f g a b r q d front rest swap p =
      let off : ℕ = length front in
      let bs : List ℕ = layout_all k xs off in
      let cs : List ℕ = layout_all k ys (off + length bs) in
      let split : layout_all k (xs ++ ys) off ≡ bs ++ cs = layout_all-append k xs ys off in
      let start : IsAt d front (bs ++ (cs ++ rest)) =
        subst (IsAt d front) (ap (λ t. t ++ rest) split ∙ append_assoc bs cs rest) p in
      let e : Cycdeser = advanced d (length bs) in
      let len : length (front ++ bs) ≡ off + length bs = length-append front bs in
      let next : IsAt e (front ++ bs) (layout_all k ys (length (front ++ bs)) ++ rest) =
        subst (λ n. IsAt e (front ++ bs) (layout_all k ys n ++ rest)) (sym len)
          (advance bs (cs ++ rest) start) in
      let room : length ys ≤ length (cs ++ rest) =
        omega (arith, length-append cs rest, length-le-layout_all k ys (off + length bs)) in
      rw (r d front (cs ++ rest) room swap start) (
        q e (front ++ bs) rest swap next
        ∙ ap (λ n. ok (b, advanced e (length (layout_all k ys n)))) len
        ∙ ap (λ d. ok (b, d)) (advanced-advanced d bs cs)
        ∙ ap (λ t. ok (b, advanced d (length t))) (sym split))

  pub Reads-append :
      {A B : Type 0} (xs ys : List Ser.Value) (f : Cycdeser → Result (A × Cycdeser))
      (g : A → Cycdeser → Result (B × Cycdeser)) (a : A) (b : B)
      → Reads xs f a
      → Reads ys (g a) b
      → Reads (xs ++ ys) (λ d. f d >>= λ r. g r.0 r.1) b
  Reads-append xs ys f g a b r =
      ReadsBefore-append xs ys f g a b (λ d front rest room. r d front rest)

  -- One value.
  pub Reads-extract :
      (sh : Shape) (v : Ser.Value)
      → HasShape k sh v
      → Fit (v ∷ [])
      → Reads (v ∷ []) (extract h sh) v
  unfolding layout_all
  Reads-extract sh v s f d front rest swap p =
      let bs : List ℕ = layout k v (length front) in
      let q : IsAt d front (bs ++ rest) = subst (λ t. IsAt d front (t ++ rest)) (append-nil bs) p in
      ap (λ t. extract h t d) s.0
      ∙ extract-layout h k same v d front rest f.carried.0 swap q
      ∙ ap (λ u. ok (u, advanced d (length bs))) (received-Survives h k v f.survive.0)
      ∙ ap (λ t. ok (v, advanced d (length t))) (sym (append-nil bs))

  -- A length, and how much of it is checked.
  pub Reads-size :
      (n : ℕ) → n < 2 ^ 32 → Reads (scalar four_bytes n ∷ []) (deserialize h four_bytes) n
  unfolding layout_all layout
  Reads-size n small d front rest swap p =
      let bs : List ℕ = scalar_at k four_bytes n (length front) in
      let q : IsAt d front (bs ++ rest) = subst (λ t. IsAt d front (t ++ rest)) (append-nil bs) p in
      deserialize-scalar_at h k four_bytes n d front rest small swap q
      ∙ ap (λ t. ok (n, advanced d (length t))) (sym (append-nil bs))

  pub Reads-len :
      {B : Type 0} (n : ℕ) (xs : List Ser.Value) (g : ℕ → Cycdeser → Result (B × Cycdeser)) (b : B)
      → n < 2 ^ 32
      → n ≤ length xs
      → Reads xs (g n) b
      → Reads (scalar four_bytes n ∷ xs) (λ d. deserialize_len h one_byte d >>= λ r. g r.0 r.1) b
  unfolding layout_all layout
  Reads-len n xs g b small few r =
      ReadsBefore-append (scalar four_bytes n ∷ []) xs (deserialize_len h one_byte) g n b
        (λ d front rest room swap p.
          let bs : List ℕ = scalar_at k four_bytes n (length front) in
          let q : IsAt d front (bs ++ rest) =
            subst (λ t. IsAt d front (t ++ rest)) (append-nil bs) p in
          deserialize_len-scalar_at h k one_byte n d front rest small (omega arith) swap q
          ∙ ap (λ t. ok (n, advanced d (length t))) (sym (append-nil bs)))
        r
