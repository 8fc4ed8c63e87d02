-- ===== src/Cdr/Deser/At.antt =====
-- A reader of cycdeser at a place in its buffer, and what its checks and loads do there.
use rws.Base.{
  ◌%◌, ℕ, ◌+◌, ◌-◌, ◌*◌, ◌/◌, ◌^◌, ◌≤◌, ◌<◌, ◌≡◌, sym, ap, ◌∙◌, false, List, [], ◌∷◌, ◌++◌, ltb,
  length, take, drop, length-append, length-replicate, drop-append, take-append, get_elem?,
  get_elem?-append, some, append_assoc, arith,
}
use mathlib.Core.Path.{subst}
use rws.Base.Result.{ok}
use rws.Cdr.Host.{Width, one_byte, two_bytes, four_bytes, eight_bytes, sizeof}
use rws.Cdr.Ser.Layout.{padding, aligned_pad}
use rws.Cdr.Deser.{Cycdeser, sub_size, load, load_byte, align, validate_size, validate_str}

-- The reader stands between `front` and `rest`.
pub record IsAt (d : Cycdeser) (front rest : List ℕ) : Type 0 where
  pub split : d.bytes ≡ front ++ rest
  pub here : d.pos ≡ length front
  pub whole : d.lim ≡ length front + length rest
  pub bounded : d.lim < 2 ^ 63

abbrev pub advanced : Cycdeser → ℕ → Cycdeser
advanced d n = record d { pos = d.pos + n }

module _ {d : Cycdeser} {front : List ℕ} (mid rest : List ℕ)
    (at_mid : IsAt d front (mid ++ rest)) where
  pub advance : IsAt (advanced d (length mid)) (front ++ mid) rest
  advance = record {
    split = at_mid.split ∙ sym (append_assoc front mid rest);
    here = omega (arith, at_mid.here, length-append front mid);
    whole = omega (arith, at_mid.whole, length-append front mid, length-append mid rest);
    bounded = at_mid.bounded;
  }

  pub load_mid : (n : ℕ) → n ≡ length mid → load d.bytes d.pos n ≡ ok mid
  unfolding load
  load_mid n e =
      let found : take n (drop d.pos d.bytes) ≡ mid =
        ap (λ xs. take n (drop d.pos xs)) at_mid.split
        ∙ ap (take n) (drop-append d.pos front (mid ++ rest) at_mid.here)
        ∙ take-append n mid rest e in
      let size : length d.bytes ≡ length front + (length mid + length rest) =
        ap length at_mid.split
        ∙ omega (arith, length-append front (mid ++ rest), length-append mid rest) in
      ground (arith, found, size, at_mid.here)

-- What is left to read.
pub remaining :
    {d : Cycdeser} {front rest : List ℕ} → IsAt d front rest → sub_size d.lim d.pos ≡ length rest
remaining p = omega (arith, p.here, p.whole, p.bounded)

pub align-padding :
    (w : Width) (d : Cycdeser) (front rest : List ℕ)
    → IsAt d front (padding (sizeof w) (length front) ++ rest)
    → align (sizeof w) d ≡ ok (advanced d (length (padding (sizeof w) (length front))))
unfolding align
align-padding w d front rest p =
    let n = sizeof w in
    let pad = (n - length front % n) % n in
    let len = length-replicate {A = ℕ} pad 0 in
    let room = length-append (padding n (length front)) rest in
    let goes = aligned_pad w (length front) in rw p.here (ground (arith, len, room, p.whole, goes))

div_fits : (w : Width) (count n : ℕ) → count * sizeof w ≤ n → ltb (n / sizeof w) count ≡ false
div_fits one_byte count n h = ground arith
div_fits two_bytes count n h = ground arith
div_fits four_bytes count n h = ground arith
div_fits eight_bytes count n h = ground arith

pub validate_size_fits :
    {d : Cycdeser} {front rest : List ℕ} (count : ℕ) (w : Width)
    → IsAt d front rest
    → count * sizeof w ≤ length rest
    → validate_size count w d ≡ ok tt
unfolding validate_size
validate_size_fits count w p fits = rw (remaining p, div_fits w count _ fits)

-- Reading on behind two parts is reading on behind both.
pub advanced-advanced :
    (d : Cycdeser) (xs ys : List ℕ)
    → advanced (advanced d (length xs)) (length ys) ≡ advanced d (length (xs ++ ys))
advanced-advanced d xs ys =
    let e : d.pos + length xs + length ys ≡ d.pos + length (xs ++ ys) =
      omega (arith, length-append xs ys) in
    ap (λ p. record d { pos = p }) e

-- A text with its terminating null passes the check, and its units are loaded without the null.
pub read_text :
    {d : Cycdeser} (x front rest : List ℕ)
    → IsAt d front ((x ++ 0 ∷ []) ++ rest)
    → (validate_str (length x + 1) d ≡ ok tt) × (load d.bytes d.pos (length x + 1 - 1) ≡ ok x)
unfolding validate_str load_byte
read_text {d} x front rest p =
    let tailed : (x ++ 0 ∷ []) ++ rest ≡ x ++ (0 ∷ rest) = append_assoc x (0 ∷ []) rest in
    let q : IsAt d front (x ++ (0 ∷ rest)) = subst (IsAt d front) tailed p in
    let split : d.bytes ≡ (front ++ x) ++ (0 ∷ rest) =
      q.split ∙ sym (append_assoc front x (0 ∷ rest)) in
    let found : get_elem? d.bytes (d.pos + (length x + 1) - 1) ≡ some 0 =
      ap (λ xs. get_elem? xs (d.pos + (length x + 1) - 1)) split
      ∙ get_elem?-append (d.pos + (length x + 1) - 1) (front ++ x) 0 rest
          (omega (arith, q.here, length-append front x)) in
    (ground (arith, found), load_mid x (0 ∷ rest) q (length x + 1 - 1) (omega arith))
