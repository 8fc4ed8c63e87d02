-- ===== src/Cdr/Print/Cut.antt =====
-- A sequence of calls of prtf writes what one call with the whole text would: the text, cut to the
-- memory, and a zero.
use rws.Base.{
  ℕ, zero, suc, ◌+◌, ◌-◌, ◌^◌, ◌≤◌, ◌<◌, ◌≡◌, refl, sym, ap, ◌∙◌, some, List, [], ◌∷◌, ◌++◌, length,
  take, drop, ltb, ◌==◌, All, length-append, length-drop, take-append, drop-append, drop-drop,
  append_assoc, append-nil, arith, true, false, Bool-cases, ltb→lt, inl, inr,
}
use mathlib.Core.Path.{subst}
use rws.Base.Result.{Result, ok, ◌>>=◌}
use rws.Base.Text.{Text}
use rws.Cdr.Print.{Printf, Out, store, advance, prtf}

take_front : (n : ℕ) (xs ys : List ℕ) → n ≤ length xs → take n (xs ++ ys) ≡ take n xs
take_front zero xs ys h = refl
take_front (suc n) [] ys h = absurd (omega (arith, h))
take_front (suc n) (x ∷ xs) ys h = ap (◌∷◌ x) (take_front n xs ys (omega (arith, h)))

take_past : (n k : ℕ) (xs ys : List ℕ) → n ≡ length xs + k → take n (xs ++ ys) ≡ xs ++ take k ys
take_past n k [] ys h = ap (λ j. take j ys) (omega (arith, h))
take_past zero k (x ∷ xs) ys h = absurd (omega (arith, h))
take_past (suc n) k (x ∷ xs) ys h = ap (◌∷◌ x) (take_past n k xs ys (omega (arith, h)))

take_all : (n : ℕ) (xs : List ℕ) → length xs ≤ n → take n xs ≡ xs
take_all zero [] h = refl
take_all zero (x ∷ xs) h = absurd (omega (arith, h))
take_all (suc n) [] h = refl
take_all (suc n) (x ∷ xs) h = ap (◌∷◌ x) (take_all n xs (omega (arith, h)))

pub take_le : (n : ℕ) (xs : List ℕ) → length (take n xs) ≤ n
take_le zero xs = omega arith
take_le (suc n) [] = omega arith
take_le (suc n) (x ∷ xs) = omega (arith, take_le n xs)

-- A write behind a front, on memory that has room for it.
pub store-append :
    (front bs rest : List ℕ) (pos : ℕ)
    → pos ≡ length front
    → length bs ≤ length rest
    → store pos bs (front ++ rest) ≡ ok (front ++ (bs ++ drop (length bs) rest))
unfolding store
store-append front bs rest pos e fits =
    let kept : take pos (front ++ rest) ≡ front = take-append pos front rest e in
    let behind : drop (pos + length bs) (front ++ rest) ≡ drop (length bs) rest =
      drop-drop pos (length bs) (pos + length bs) (front ++ rest) refl
      ∙ ap (drop (length bs)) (drop-append pos front rest e) in
    ground (arith, kept, behind, length-append front rest)

-- The text is in the memory of n bytes, cut to n - 1 bytes, with a zero behind it.
abbrev pub Written : ℕ → Text → Out → Type 0
Written n full out = (rest : List ℕ) × (out.memory ≡ take (n - 1) full ++ 0 ∷ rest)

-- The state behind a text.
pub record Shows (n : ℕ) (full : Text) (out : Out) : Type 0 where
  pub size : length out.memory ≡ n
  pub open_end :
      length full < n
      → (out.buf ≡ length full)
        × (out.bufsize ≡ n - length full)
        × ((rest : List ℕ) × (out.memory ≡ full ++ rest))
  pub is_cut : n ≤ length full → (out.bufsize ≡ 0) × Written n full out

module _ (printf : Printf) where
  advance_short :
      (k : ℕ) (out : Out) (memory : List ℕ)
      → k < out.bufsize
      → advance printf k out memory
        ≡ record { memory = memory; buf = out.buf + k; bufsize = out.bufsize - k }
  advance_short k out memory h = ground arith

  advance_long :
      (k : ℕ) (out : Out) (memory : List ℕ)
      → out.bufsize ≤ k
      → (advance printf k out memory).bufsize ≡ 0
  advance_long k out memory h = ground arith

  advance_memory :
      (k : ℕ) (out : Out) (memory : List ℕ) → (advance printf k out memory).memory ≡ memory
  advance_memory k out memory = ground arith

  record Step (n : ℕ) (full text : Text) (out : Out) : Type 0 where
    next : Out
    ran : prtf printf (some text) out ≡ ok next
    shows : Shows n (full ++ text) next
    written : Written n (full ++ text) next

  step_open :
      (n : ℕ) (full text : Text) (out : Out)
      → length text < 2 ^ 31
      → length full < n
      → Shows n full out
      → Step n full text out
  unfolding prtf
  step_open n full text out short lt s =
      let (at_end, room, (rest, is_text)) = s.open_end lt in
      let k = out.bufsize - 1 in
      let cut = take k text in
      let piece = cut ++ 0 ∷ [] in
      let left : length rest ≡ out.bufsize =
        omega (arith, room, s.size, ap length is_text, length-append full rest) in
      let fits : length piece ≤ length rest =
        omega (arith, left, room, lt, take_le k text, length-append cut (0 ∷ [])) in
      let behind = drop (length piece) rest in
      let memory = full ++ (piece ++ behind) in
      let stored : store out.buf piece out.memory ≡ ok memory =
        ap (store out.buf piece) is_text ∙ store-append full piece rest out.buf at_end fits in
      let shown : take (n - 1) (full ++ text) ≡ full ++ cut =
        take_past (n - 1) k full text (omega (arith, room, lt)) in
      let zeroed : memory ≡ take (n - 1) (full ++ text) ++ 0 ∷ behind =
        ap (λ m. full ++ m) (append_assoc cut (0 ∷ []) behind)
        ∙ sym (append_assoc full cut (0 ∷ behind))
        ∙ ap (λ m. m ++ 0 ∷ behind) (sym shown) in
      let nonempty : (out.bufsize == 0) ≡ false = ground (arith, room, lt) in
      let countable : ltb (length text) (2 ^ 31) ≡ true = ground (arith, short) in
      let sized : length memory ≡ n = omega (
        arith,
        length-append full (piece ++ behind),
        length-append piece behind,
        length-drop (length piece) rest,
        fits,
        left,
        room,
        lt,
      ) in
      record {
        next = advance printf (length text) out memory;
        ran = rw (nonempty, countable) (rw stored refl);
        shows = record {
          size = ap length (advance_memory (length text) out memory) ∙ sized;
          open_end = λ more.
              let fit : length text < out.bufsize =
                omega (arith, more, room, length-append full text) in
              let short_step = advance_short (length text) out memory fit in
              (
                ap (λ o. o.buf) short_step ∙ omega (arith, at_end, length-append full text),
                ap (λ o. o.bufsize) short_step ∙ omega (arith, room, length-append full text),
                (
                  0 ∷ behind,
                  advance_memory (length text) out memory
                      ∙ zeroed
                      ∙ ap (λ m. m ++ 0 ∷ behind)
                          (take_all (n - 1) (full ++ text) (omega (arith, more))),
                ),
              );
          is_cut = λ full_up. (
            advance_long (length text) out memory
                (omega (arith, full_up, room, lt, length-append full text)),
            (behind, advance_memory (length text) out memory ∙ zeroed),
          );
        };
        written = (behind, advance_memory (length text) out memory ∙ zeroed);
      }

  step_closed :
      (n : ℕ) (full text : Text) (out : Out)
      → n ≤ length full
      → Shows n full out
      → Step n full text out
  unfolding prtf
  step_closed n full text out le s =
      let (none_left, (rest, shown)) = s.is_cut le in
      let written : Written n (full ++ text) out = (
        rest,
        shown ∙ ap (λ m. m ++ 0 ∷ rest) (sym (take_front (n - 1) full text (omega (arith, le)))),
      ) in
      record {
        next = out;
        ran = rw (none_left, prtf) refl;
        shows = record {
          size = s.size;
          open_end = λ more. absurd (omega (arith, more, le, length-append full text));
          is_cut = λ _. (none_left, written);
        };
        written = written;
      }

  step :
      (n : ℕ) (full text : Text) (out : Out)
      → length text < 2 ^ 31
      → Shows n full out
      → Step n full text out
  step n full text out short s = elim (Bool-cases (ltb (length full) n)) [
    | inl more ↦ step_open n full text out short (ltb→lt (length full) n more) s
    | inr less ↦ step_closed n full text out (ground (arith, less)) s
  ]

  unfoldable pub prtf_all : List Text → Out → Result Out
  prtf_all [] out = ok out
  prtf_all (t ∷ ts) out = do next ← prtf printf (some t) out; prtf_all ts next

  abbrev pub joined : List Text → Text
  joined [] = []
  joined (t ∷ ts) = t ++ joined ts

  run :
      (n : ℕ) (full : Text) (ts : List Text) (out : Out)
      → All (λ t. length t < 2 ^ 31) ts
      → Shows n full out
      → Written n full out
      → (end : Out) × (prtf_all ts out ≡ ok end)
        × (length end.memory ≡ n)
        × Written n (full ++ joined ts) end
  unfolding prtf_all
  run n full [] out short s w = (out, refl, s.size, rw (append-nil full) w)
  run n full (t ∷ ts) out short s w =
      let p = step n full t out short.0 s in
      let (end, ran, size, written) = run n (full ++ t) ts p.next short.1 p.shows p.written in
      (
        end,
        ap (λ r. r >>= prtf_all ts) p.ran ∙ ran,
        size,
        subst (λ m. Written n m end) (append_assoc full t (joined ts)) written,
      )

  -- A first text and more, each of less than 2 ^ 31 bytes, printed one after the other to memory of
  -- n > 0 bytes: no call writes outside the memory, which holds at the end the first n - 1 bytes of
  -- all the texts together and a zero.
  pub prtf_all-Written :
      (n : ℕ) (first : Text) (more : List Text) (memory : List ℕ)
      → 0 < n
      → length memory ≡ n
      → All (λ t. length t < 2 ^ 31) (first ∷ more)
      → (end : Out) × (prtf_all (first ∷ more) (record { memory = memory; buf = 0; bufsize = n })
          ≡ ok end)
        × (length end.memory ≡ n)
        × Written n (joined (first ∷ more)) end
  unfolding prtf_all
  prtf_all-Written n first more memory pos size short =
      let out : Out = record { memory = memory; buf = 0; bufsize = n } in
      let start : Shows n [] out = record {
        size = size;
        open_end = λ _. (refl, omega arith, (memory, refl));
        is_cut = λ none_left. absurd (omega (arith, none_left, pos));
      } in
      let p = step n [] first out short.0 start in
      let (end, ran, sized, written) = run n first more p.next short.1 p.shows p.written in
      (end, ap (λ r. r >>= prtf_all more) p.ran ∙ ran, sized, written)
