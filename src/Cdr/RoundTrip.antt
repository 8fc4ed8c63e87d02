-- ===== src/Cdr/RoundTrip.antt =====
-- Between two hosts: what cycser writes on one, cycdeser reads on the other.
use rws.Base.{
  ℕ, ◌+◌, ◌-◌, ◌^◌, ◌≤◌, ◌<◌, ◌≡◌, ◌≢◌, refl, sym, ap, ◌∙◌, Bool, true, false, List, [], ◌∷◌, ◌++◌,
  ◌==◌, map, length, All, append-nil, arith,
}
use mathlib.Core.Path.{ap₂}
use rws.Base.Result.{Result, ok, fault, ◌>>=◌}
use rws.Cdr.Host.{Width, one_byte, two_bytes, four_bytes, eight_bytes, Host, fn_swap}
use rws.Cdr.Swap.{unlike}
use rws.Cdr.Ser.{Value, cycser, insert_all}
use rws.Cdr.Ser.Layout.{layout_all, insert_all-layout_all}
use rws.Cdr.Deser.{
  Cycdeser, Shape, differ, load_byte, cycdeser, extract, extract_all, deserialize, align,
  validate_size, load_scalar, load,
}
use rws.Cdr.Deser.At.{IsAt}
use rws.Cdr.Deser.Reads.{shape_of, IsCarried, received, seen, extract_all-layout_all}
use rws.Cdr.Deser.Safety.{Safe->>=, Safe-ne-fault, cycdeser-Safe, extract_all-Reads}

-- The buffer that a fresh cycser has after a sequence of `<<`, as translate.cpp makes it.
unfoldable pub encode : Host → List Value → Result (List ℕ)
encode k vs = do s ← insert_all k vs (cycser k []); ok s.dst

-- A fresh cycdeser on a buffer: what a sequence of `>>` reads, and the number of bytes left.
unfoldable pub decode : Host → List Shape → List ℕ → Result (List Value × ℕ)
decode h ts buffer = do d ← cycdeser h buffer; (vs, e) ← extract_all h ts d; ok (vs, e.lim - e.pos)

-- The four bytes before the data.
abbrev pub header : Host → List ℕ
header k = (cycser k []).dst

pub encode-layout_all :
    (k : Host) (vs : List Value) → encode k vs ≡ ok (header k ++ layout_all k vs 0)
unfolding encode cycser
encode-layout_all k vs = rw (insert_all-layout_all k vs (cycser k []) refl)

pub cycdeser-header :
    (h k : Host) (body : List ℕ)
    → length body + 4 < 2 ^ 63
    → cycdeser h (header k ++ body)
      ≡ ok (record { bytes = body; pos = 0; lim = length body; swap_bytes = unlike h k })
unfolding cycdeser cycser load_byte
cycdeser-header h k body small = ground arith

-- For every sequence of values that the format carries, written on one host and read on another
-- with the same sizeof(wchar_t), in a buffer below 2 ^ 63 bytes: the `>>` of the same types return
-- every boolean, scalar and text as it was, and every wide text with its units reversed in their
-- bytes if the hosts differ in byte order, and leave no byte over.
pub decode-encode-received :
    (h k : Host) (vs : List Value)
    → h.wchar ≡ k.wchar
    → All (IsCarried h) vs
    → length (layout_all k vs 0) + 4 < 2 ^ 63
    → (encode k vs >>= decode h (map shape_of vs)) ≡ ok (map (received h k) vs, 0)
unfolding decode
decode-encode-received h k vs same fits small =
    let body : List ℕ = layout_all k vs 0 in
    let d : Cycdeser = record {
      bytes = body;
      pos = 0;
      lim = length body;
      swap_bytes = unlike h k;
    } in
    let start : IsAt d [] (body ++ []) = record {
      split = sym (append-nil body);
      here = refl;
      whole = omega (arith, ap length (append-nil body));
      bounded = omega arith;
    } in
    rw (encode-layout_all k vs) (
      rw (cycdeser-header h k body small) (
        rw (extract_all-layout_all h k same vs d [] [] fits refl start)
          (ap (λ n. ok (map (received h k) vs, n)) (omega arith))))

-- Wide texts survive between hosts of the same byte order.
abbrev pub Survives : Host → Host → Value → Type 0
Survives h k (Value.boolean b) = Unit {0}
Survives h k (Value.scalar w x) = Unit {0}
Survives h k (Value.text x) = Unit {0}
Survives h k (Value.wide_text x) = unlike h k ≡ false

map-seen_alike : (h k : Host) (w : Width) (x : List ℕ) → unlike h k ≡ false → map (seen h k w) x ≡ x
map-seen_alike h k w [] e = refl
map-seen_alike h k w (u ∷ x) e = rw e (ap (◌∷◌ u) (map-seen_alike h k w x e))

map-seen-unlike :
    (h k : Host) (w : Width) (x : List ℕ)
    → unlike h k ≡ true
    → map (seen h k w) x ≡ map (fn_swap w) x
map-seen-unlike h k w [] e = refl
map-seen-unlike h k w (u ∷ x) e = rw e (ap (◌∷◌ (fn_swap w u)) (map-seen-unlike h k w x e))

pub received-Survives : (h k : Host) (v : Value) → Survives h k v → received h k v ≡ v
received-Survives h k (Value.boolean b) s = refl
received-Survives h k (Value.scalar w x) s = refl
received-Survives h k (Value.text x) s = refl
received-Survives h k (Value.wide_text x) s = ap Value.wide_text (map-seen_alike h k h.wchar x s)

map-received : (h k : Host) (vs : List Value) → All (Survives h k) vs → map (received h k) vs ≡ vs
map-received h k [] s = refl
map-received h k (v ∷ vs) s = ap₂ ◌∷◌ (received-Survives h k v s.0) (map-received h k vs s.1)

-- For every sequence of values that the format carries (scalars of their width, texts and wide
-- texts with a length that fits uint32_t), written on one host and read on another with the same
-- sizeof(wchar_t) in a buffer below 2 ^ 63 bytes: if the hosts have the same byte order or there is
-- no wide text, the `>>` of the same types return the same values and leave no byte over.
pub decode-encode :
    (h k : Host) (vs : List Value)
    → h.wchar ≡ k.wchar
    → All (IsCarried h) vs
    → All (Survives h k) vs
    → length (layout_all k vs 0) + 4 < 2 ^ 63
    → (encode k vs >>= decode h (map shape_of vs)) ≡ ok (vs, 0)
decode-encode h k vs same fits survives small =
    decode-encode-received h k vs same fits small
    ∙ ap (λ ws. ok (ws, 0)) (map-received h k vs survives)

-- On every buffer of at least 4 and below 2 ^ 63 bytes, whatever they are, and for every sequence
-- of types to read, cycdeser returns or throws: it never loads a byte outside the buffer.
pub decode-ne-fault :
    (h : Host) (ts : List Shape) (buffer : List ℕ)
    → 4 ≤ length buffer
    → length buffer < 2 ^ 63
    → decode h ts buffer ≢ fault
unfolding decode
decode-ne-fault h ts buffer lo hi = Safe-ne-fault _ _ (
    Safe->>= _ (λ _. Unit {0}) (cycdeser h buffer) _ (cycdeser-Safe h buffer lo hi)
      λ d _ p. Safe->>= _ _ (extract_all h ts d) _ (extract_all-Reads h ts d p.0) λ _ _ _. tt)

deserialize_nothing :
    (h : Host) (w : Width) (swap : Bool)
    → (deserialize h w (record { bytes = []; pos = 0; lim = 2 ^ 64 - 2; swap_bytes = swap })
        ≡ fault)
      × (deserialize h w (record { bytes = []; pos = 0; lim = 2 ^ 64 - 1; swap_bytes = swap })
          ≡ fault)
unfolding deserialize align validate_size load_scalar load
deserialize_nothing h one_byte swap = (refl, refl)
deserialize_nothing h two_bytes swap = (refl, refl)
deserialize_nothing h four_bytes swap = (refl, refl)
deserialize_nothing h eight_bytes swap = (refl, refl)

-- A buffer of fewer than 4 bytes is not refused: reading the header, or then any scalar, is a load
-- outside the buffer.
pub decode_short :
    (h : Host) (w : Width) (ts : List Shape) (buffer : List ℕ)
    → length buffer < 4
    → decode h (Shape.scalar w ∷ ts) buffer ≡ fault
unfolding decode cycdeser load_byte extract extract_all deserialize align validate_size load_scalar
    load
decode_short h w ts [] short = refl
decode_short h w ts (a ∷ []) short = refl
decode_short h w ts (a ∷ b ∷ []) short =
    rw ((deserialize_nothing h w (differ h.little_endian (b == 1))).0)
decode_short h w ts (a ∷ b ∷ c ∷ []) short =
    rw ((deserialize_nothing h w (differ h.little_endian (b == 1))).1)
decode_short h w ts (a ∷ b ∷ c ∷ d ∷ buffer) short = absurd (omega arith)
